-- ===== src/Routing/Best.antt =====
-- src/serve.rs: the route that `match_route` chooses, by what fits a path.
use jwc_lang.Prelude.{
  ℕ, ◌+◌, ◌≤◌, ◌<◌, ◌≡◌, inl, inr, refl, true, not, ◌||◌, Option, none, some, List, [], ◌∷◌, ◌++◌,
  Bytes, if◌then◌else◌, ◌==◌, ltb, length, arith, Bool-cases, sym, All, All-append,
}
use mathlib.Core.List.{append_assoc, append-nil}
use jwc_lang.Token.{same_bytes}
use jwc_lang.Token.Keywords.Search.{same_bytes-eq, eq_of-same_bytes}
use jwc_lang.Routing.Path.{pieces}
use jwc_lang.Routing.{ResolvedRoute}
use jwc_lang.Routing.Match.{Binds, Candidate, better, choose, consider, best_of, match_route}
use jwc_lang.Routing.Fit.{
  Fits-length, literal_count, bindings, Suits, Decided, match_segments-Decided,
}

All-map {ℓ} :
    {A : Type ℓ} {P Q : A → Type 0} (xs : List A) → ((x : A) → P x → Q x) → All P xs → All Q xs
All-map [] f h = tt
All-map (x ∷ xs) f h = (f x h.0, All-map xs f h.1)

module _ (method : Bytes) (parts : List Bytes) where
  abbrev candidate : ResolvedRoute → Candidate
  candidate r = (r, bindings r.segments parts, literal_count r.segments)

  consider-Decided :
      (best : Option Candidate) (r : ResolvedRoute)
      → Decided
          (Suits method parts r)
          (consider method parts best r)
          (if better (literal_count r.segments) best then some (candidate r) else best)
          best
  unfolding consider choose
  consider-Decided best r =
      elim (Bool-cases
        (not (same_bytes r.method method) || not (length r.segments == length parts))) [
          | inl skipped ↦ inr (
            λ h.
                let m = same_bytes-eq r.method method h.0 in
                let l = Fits-length r.segments parts h.1 in absurd (ground arith),
            rw skipped refl,
          )
          | inr open' ↦
              let m : same_bytes r.method method ≡ true = ground arith in
              elim (match_segments-Decided [] 0 r.segments parts (ground arith)) [
                | inl (fits, found) ↦
                    let plain : 0 + literal_count r.segments ≡ literal_count r.segments =
                      omega arith in
                    inl ((eq_of-same_bytes r.method method m, fits), rw (open', found, plain) refl)
                | inr (misfit, lost) ↦ inr (λ h. misfit h.1, rw (open', lost) refl)
              ]
        ]

  abbrev Fewer : ℕ → ResolvedRoute → Type 0
  Fewer n q = Suits method parts q → literal_count q.segments < n

  abbrev pub NoMore : ℕ → ResolvedRoute → Type 0
  NoMore n q = Suits method parts q → literal_count q.segments ≤ n

  -- Of the routes, the candidate's suits, with its bindings; those that suit before it have fewer
  -- literals, and those behind it no more.
  pub record Wins (routes : List ResolvedRoute) (r : ResolvedRoute) (b : Binds) : Type 0 where
    pub before : List ResolvedRoute
    pub behind : List ResolvedRoute
    pub place : routes ≡ before ++ r ∷ behind
    pub suits : Suits method parts r
    pub binds : b ≡ bindings r.segments parts
    pub fewer : All (Fewer (literal_count r.segments)) before
    pub no_more : All (NoMore (literal_count r.segments)) behind

  abbrev pub Chosen : List ResolvedRoute → Option Candidate → Type 0
  Chosen routes none = All (λ q. ¬ Suits method parts q) routes
  Chosen routes (some (r, b, n)) = Wins routes r b × (n ≡ literal_count r.segments)

  -- One more route behind, with no more literals.
  Wins-longer :
      (routes : List ResolvedRoute) (r q : ResolvedRoute) (b : Binds)
      → NoMore (literal_count q.segments) r
      → Wins routes q b
      → Wins (routes ++ r ∷ []) q b
  Wins-longer routes r q b low w = record {
    before = w.before;
    behind = w.behind ++ r ∷ [];
    place = rw w.place (append_assoc w.before (q ∷ w.behind) (r ∷ []));
    suits = w.suits;
    binds = w.binds;
    fewer = w.fewer;
    no_more = All-append _ w.behind (r ∷ []) w.no_more (low, tt);
  }

  -- No route has more literals than the one that wins.
  pub NoMore-Wins :
      (routes : List ResolvedRoute) (r : ResolvedRoute) (b : Binds)
      → Wins routes r b
      → All (NoMore (literal_count r.segments)) routes
  NoMore-Wins routes r b w = rw w.place (
      All-append _ w.before (r ∷ w.behind)
        (All-map w.before (λ q lt fits. omega (arith, lt fits)) w.fewer)
        ((λ fits. omega arith), w.no_more))

  Chosen-skip :
      (routes : List ResolvedRoute) (r : ResolvedRoute) (best : Option Candidate)
      → ¬ Suits method parts r
      → Chosen routes best
      → Chosen (routes ++ r ∷ []) best
  Chosen-skip routes r none misfit h = All-append _ routes (r ∷ []) h (misfit, tt)
  Chosen-skip routes r (some (q, b, n)) misfit h =
      (Wins-longer routes r q b (λ fits. absurd (misfit fits)) h.0, h.1)

  Chosen-take :
      (routes : List ResolvedRoute) (r : ResolvedRoute) (best : Option Candidate)
      → Suits method parts r
      → Chosen routes best
      → Chosen
          (routes ++ r ∷ [])
          (if better (literal_count r.segments) best then some (candidate r) else best)
  unfolding better
  Chosen-take routes r none suits h = (
    record {
      before = routes;
      behind = [];
      place = refl;
      suits = suits;
      binds = refl;
      fewer = All-map routes (λ q no_fit fits. absurd (no_fit fits)) h;
      no_more = tt;
    },
    refl,
  )
  Chosen-take routes r (some (q, b, n)) suits h =
      elim (Bool-cases (ltb n (literal_count r.segments))) [
        | inl more ↦ rw more (
          record {
            before = routes;
            behind = [];
            place = refl;
            suits = suits;
            binds = refl;
            fewer =
                All-map routes (λ p le fits. ground (arith, le fits, h.1))
                  (NoMore-Wins routes q b h.0);
            no_more = tt;
          },
          refl,
        )
        | inr same ↦ rw same (Wins-longer routes r q b (λ fits. ground (arith, h.1)) h.0, h.1)
      ]

  Chosen-consider :
      (routes : List ResolvedRoute) (r : ResolvedRoute) (best : Option Candidate)
      → Chosen routes best
      → Chosen (routes ++ r ∷ []) (consider method parts best r)
  Chosen-consider routes r best h = elim (consider-Decided best r) [
    | inl (suits, e) ↦ rw e (Chosen-take routes r best suits h)
    | inr (misfit, e) ↦ rw e (Chosen-skip routes r best misfit h)
  ]

  Chosen-best_of :
      (seen routes : List ResolvedRoute) (best : Option Candidate)
      → Chosen seen best
      → Chosen (seen ++ routes) (best_of method parts best routes)
  unfolding best_of
  Chosen-best_of seen [] best h = rw append-nil h
  Chosen-best_of seen (r ∷ rs) best h = rw (sym (append_assoc seen (r ∷ []) rs)) (
      Chosen-best_of (seen ++ r ∷ []) rs (consider method parts best r)
        (Chosen-consider seen r best h))

-- What is promised of the answer for a path: a route that wins, or none that suits.
abbrev pub Found : List ResolvedRoute → Bytes → Bytes → Option (ResolvedRoute × Binds) → Type 0
Found routes method path none = All (λ q. ¬ Suits method (pieces path) q) routes
Found routes method path (some (r, b)) = Wins method (pieces path) routes r b

found :
    (routes : List ResolvedRoute) (method path : Bytes) (o : Option Candidate)
    → Chosen method (pieces path) routes o
    → Found routes method path (elim o [ none ↦ none | some (r, b, _) ↦ some (r, b) ])
found routes method path none h = h
found routes method path (some (r, b, n)) h = h.0

-- A request is answered by the route of its method whose path fits with the most literal segments,
-- the first of them where several have as many, and each parameter is bound to its part of the
-- path; and it is answered by none exactly where no route of its method fits.
pub match_route-Found :
    (routes : List ResolvedRoute) (method path : Bytes)
    → Found routes method path (match_route routes method path)
unfolding match_route
match_route-Found routes method path =
    found routes method path (best_of method (pieces path) none routes)
      (Chosen-best_of method (pieces path) [] routes none tt)
