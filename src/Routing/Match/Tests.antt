-- ===== src/Routing/Match/Tests.antt =====
-- Runs of src/wiring.rs and src/serve.rs on the routes of a program, and the theorems at them.
use mathlib.Core.Logic.{◌∨₁◌}
use mathlib.Core.Logic.Or
use mathlib.Core.List.Perm
use mathlib.Core.List.{Mem, mem-cons, not-mem-nil}
use jwc_lang.Prelude.{ℕ, ◌≡◌, ◌≢◌, refl, false, some, List, [], ◌∷◌, Bytes, codes, arith}
use jwc_lang.Routing.Path
use jwc_lang.Routing.Path.{
  Segment, literal, param, parse_path, render, route_pattern, join_path, pieces,
}
use jwc_lang.Routing.{Loc, ResolvedRoute, params_of, collect_routes, check_duplicates}
use jwc_lang.Routing
use jwc_lang.Routing.Match
use jwc_lang.Routing.Match.{match_route}
use jwc_lang.Routing.Fit.{literal_count}
use jwc_lang.Routing.Best.{Found, match_route-Found}
use jwc_lang.Routing.Order.{NoTies, match_route-perm}
use jwc_lang.Routing.Apart.{literals, check_duplicates-literals}

abbrev get_route : ℕ → List Segment → ResolvedRoute
get_route at segments = record {
  method = codes "GET";
  pattern = [];
  segments = segments;
  params = [];
  chain = [];
  after = [];
  socket = false;
  loc = record { file = 0; span = record { start = at; stop = at } };
}

abbrev new_org : ResolvedRoute
new_org = get_route 0 (literal (codes "orgs") ∷ literal (codes "new") ∷ [])

abbrev one_org : ResolvedRoute
one_org = get_route 1 (literal (codes "orgs") ∷ param (codes "id") (codes "text") ∷ [])

abbrev by_kind : ResolvedRoute
by_kind = get_route 2 (param (codes "kind") (codes "text") ∷ literal (codes "new") ∷ [])

-- A literal is chosen before a parameter, whichever was registered first.
a_literal_is_chosen :
    (match_route (new_org ∷ one_org ∷ []) (codes "GET") (codes "/orgs/new") ≡ some (new_org, []))
    × (match_route (one_org ∷ new_org ∷ []) (codes "GET") (codes "/orgs/new") ≡ some (new_org, []))
    × (match_route (one_org ∷ new_org ∷ []) (codes "GET") (codes "/orgs/7")
        ≡ some (one_org, (codes "id", codes "7") ∷ []))
unfolding match_route Match.best_of Match.consider Match.choose Match.better Match.match_segments
    pieces Path.pieces_from Path.piece_then Path.trim_of Path.trim_start_of Path.trim_end_of
    Path.end_trimmed
a_literal_is_chosen = (refl, refl, refl)

-- Two routes that the check of duplicates lets pass, with one literal each: the first registered is
-- chosen.
the_order_decides :
    (check_duplicates (λ _. []) (one_org ∷ by_kind ∷ []) ≡ [])
    × (match_route (one_org ∷ by_kind ∷ []) (codes "GET") (codes "/orgs/new")
        ≡ some (one_org, (codes "id", codes "new") ∷ []))
    × (match_route (by_kind ∷ one_org ∷ []) (codes "GET") (codes "/orgs/new")
        ≡ some (by_kind, (codes "kind", codes "orgs") ∷ []))
unfolding check_duplicates Routing.duplicates_from Routing.duplicates_of Routing.collide
    Routing.same_shapes Path.same_shape match_route Match.best_of Match.consider Match.choose
    Match.better Match.match_segments pieces Path.pieces_from Path.piece_then Path.trim_of
    Path.trim_start_of Path.trim_end_of Path.end_trimmed
the_order_decides = (refl, refl, refl)

match_route-Found_example :
    Found
      (new_org ∷ one_org ∷ [])
      (codes "GET")
      (codes "/orgs/new")
      (match_route (new_org ∷ one_org ∷ []) (codes "GET") (codes "/orgs/new"))
match_route-Found_example =
    match_route-Found (new_org ∷ one_org ∷ []) (codes "GET") (codes "/orgs/new")

orgs_new : pieces (codes "/orgs/new") ≡ codes "orgs" ∷ codes "new" ∷ []
unfolding pieces Path.pieces_from Path.piece_then Path.trim_of Path.trim_start_of Path.trim_end_of
    Path.end_trimmed
orgs_new = refl

ResolvedRoute-set : IsSet ResolvedRoute
ResolvedRoute-set = hlevel

Mem_pair : {a p q : ResolvedRoute} → Mem a (p ∷ q ∷ []) → (a ≡ p) ∨₁ (a ≡ q)
Mem_pair m =
    Or.elim squash₁ (mem-cons.0 m) (λ e. Or.inl e)
      (λ m'. Or.elim squash₁ (mem-cons.0 m') (λ e. Or.inr e) (λ n. absurd (not-mem-nil n)))

-- Two routes with different numbers of literals do not tie.
NoTies-pair :
    (p q : ResolvedRoute) (method : Bytes) (parts : List Bytes)
    → literal_count p.segments ≢ literal_count q.segments
    → NoTies (p ∷ q ∷ []) method parts
NoTies-pair p q method parts differ a b in_a in_b fit_a fit_b e =
    Or.elim (ResolvedRoute-set a b) (Mem_pair in_a)
      (λ ap.
        Or.elim (ResolvedRoute-set a b) (Mem_pair in_b) (λ bp. cc) (λ bq. absurd (differ (cc))))
      (λ aq.
        Or.elim (ResolvedRoute-set a b) (Mem_pair in_b) (λ bp. absurd (differ (cc))) (λ bq. cc))

match_route-perm_example :
    match_route (new_org ∷ one_org ∷ []) (codes "GET") (codes "/orgs/new")
    ≡ match_route (one_org ∷ new_org ∷ []) (codes "GET") (codes "/orgs/new")
match_route-perm_example =
    match_route-perm (new_org ∷ one_org ∷ []) (one_org ∷ new_org ∷ []) (codes "GET")
      (codes "/orgs/new") (Perm.swap one_org new_org [])
      (NoTies-pair new_org one_org (codes "GET") (pieces (codes "/orgs/new")) (omega arith))

check_duplicates-literals_example : literals by_kind.segments ≢ literals one_org.segments
check_duplicates-literals_example =
    check_duplicates-literals (λ _. []) [] [] [] one_org by_kind (codes "GET")
      (codes "orgs" ∷ codes "new" ∷ []) the_order_decides.0 (refl, (refl, tt)) (refl, (refl, tt))
