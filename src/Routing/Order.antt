-- ===== src/Routing/Order.antt =====
-- src/serve.rs: when `match_route` does not depend on the order in which routes are registered.
use mathlib.Core.Logic.Or
use mathlib.Core.List.{Mem, Perm, mem-cons, not-mem-nil, mem-cons_self, mem-append_right}
use mathlib.Core.List.Perm
use native.Mathlib.Bridge.{le_prop}
use jwc_lang.Prelude.{ℕ, ◌≤◌, ◌≡◌, refl, Option, none, some, List, [], ◌∷◌, Bytes, arith, All}
use mathlib.Core.HLevel.{⊥_prop}
use jwc_lang.Routing.Path.{pieces}
use jwc_lang.Routing.{ResolvedRoute}
use jwc_lang.Routing.Match.{Binds, match_route}
use jwc_lang.Routing.Fit.{Suits, literal_count}
use jwc_lang.Routing.Best.{Wins, NoMore, NoMore-Wins, Found, match_route-Found}

-- No two routes suit a request with as many literal segments.
abbrev pub NoTies : List ResolvedRoute → Bytes → List Bytes → Type 0
NoTies routes method parts =
    (p q : ResolvedRoute)
    → Mem p routes
    → Mem q routes
    → Suits method parts p
    → Suits method parts q
    → literal_count p.segments ≡ literal_count q.segments
    → p ≡ q

module _ (method : Bytes) (parts : List Bytes) where
  le_of_Mem :
      (n : ℕ) (q : ResolvedRoute) (routes : List ResolvedRoute)
      → All (NoMore method parts n) routes
      → Mem q routes
      → Suits method parts q
      → literal_count q.segments ≤ n
  le_of_Mem n q [] h m fits = absurd (not-mem-nil m)
  le_of_Mem n q (r ∷ rs) h m fits =
      Or.elim le_prop (mem-cons.0 m) (λ e. rw e (h.0 (rw e at fits)))
        (λ m'. le_of_Mem n q rs h.1 m' fits)

  none_of_Mem :
      (q : ResolvedRoute) (routes : List ResolvedRoute)
      → All (λ r. ¬ Suits method parts r) routes
      → Mem q routes
      → ¬ Suits method parts q
  none_of_Mem q [] h m fits = not-mem-nil m
  none_of_Mem q (r ∷ rs) h m fits =
      Or.elim ⊥_prop (mem-cons.0 m) (λ e. h.0 (rw e at fits)) (λ m'. none_of_Mem q rs h.1 m' fits)

  Mem-Wins :
      (routes : List ResolvedRoute) (r : ResolvedRoute) (b : Binds)
      → Wins method parts routes r b
      → Mem r routes
  Mem-Wins routes r b w = rw w.place (mem-append_right w.before mem-cons_self)

-- Two lists of the same routes agree on what wins.
agree :
    (routes others : List ResolvedRoute) (method path : Bytes)
    → Perm routes others
    → NoTies routes method (pieces path)
    → (o o' : Option (ResolvedRoute × Binds)) → Found routes method path o
    → Found others method path o'
    → o ≡ o'
agree routes others method path same no_ties none none h h' = refl
agree routes others method path same no_ties (some (r, b)) none h h' = absurd (
    none_of_Mem method (pieces path) r others h'
      ((Perm.mem_iff same).0 (Mem-Wins method (pieces path) routes r b h)) h.suits)
agree routes others method path same no_ties none (some (r, b)) h h' = absurd (
    none_of_Mem method (pieces path) r routes h
      ((Perm.mem_iff same).1 (Mem-Wins method (pieces path) others r b h')) h'.suits)
agree routes others method path same no_ties (some (r, b)) (some (q, c)) h h' =
    let parts = pieces path in
    let m = Mem-Wins method parts routes r b h in
    let m' = (Perm.mem_iff same).1 (Mem-Wins method parts others q c h') in
    let le =
      le_of_Mem method parts _ q routes (NoMore-Wins method parts routes r b h) m' h'.suits in
    let ge =
      le_of_Mem method parts _ r others (NoMore-Wins method parts others q c h')
        ((Perm.mem_iff same).0 m) h.suits in
    let e : r ≡ q = no_ties r q m m' h.suits h'.suits (omega (arith, le, ge)) in
    let binds : b ≡ c = cc (h.binds, h'.binds) in cc

-- The order in which the routes are registered does not matter for a request that no two of them
-- suit with as many literal segments: another order gives the same route with the same bindings.
pub match_route-perm :
    (routes others : List ResolvedRoute) (method path : Bytes)
    → Perm routes others
    → NoTies routes method (pieces path)
    → match_route routes method path ≡ match_route others method path
match_route-perm routes others method path same no_ties =
    agree routes others method path same no_ties _ _ (match_route-Found routes method path)
      (match_route-Found others method path)
