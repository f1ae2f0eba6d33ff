-- ===== src/Routing/Match.antt =====
-- src/serve.rs: `match_route`, the choice of a route at run time.
mod Tests
use jwc_lang.Prelude.{
  ℕ, ◌+◌, Bool, true, not, ◌||◌, Option, none, some, List, [], ◌∷◌, ◌++◌, Bytes, if◌then◌else◌,
  ◌==◌, ltb, length,
}
use jwc_lang.Token.{same_bytes}
use jwc_lang.Routing.Path.{Segment, literal, param, pieces}
use jwc_lang.Routing.{ResolvedRoute}

abbrev pub Binds : Type 0
Binds = List (Bytes × Bytes)

-- the route, its path bindings, and how many literal segments matched
abbrev pub Candidate : Type 0
Candidate = ResolvedRoute × Binds × ℕ

-- the loop over the segments and the parts, up to a literal that differs
unfoldable pub match_segments : Binds → ℕ → List Segment → List Bytes → Option (Binds × ℕ)
match_segments binds literals (literal l ∷ ss) (p ∷ ps) =
    let rest = match_segments binds (literals + 1) ss ps in if same_bytes l p then rest else none
match_segments binds literals (param name _ ∷ ss) (p ∷ ps) =
    match_segments (binds ++ (name, p) ∷ []) literals ss ps
match_segments binds literals _ _ = some (binds, literals)

unfoldable pub better : ℕ → Option Candidate → Bool
better literals none = true
better literals (some (_, _, n)) = ltb n literals

unfoldable pub choose : ResolvedRoute → Option (Binds × ℕ) → Option Candidate → Option Candidate
unfolding better
choose r none best = best
choose r (some (binds, literals)) best =
    if better literals best then some (r, binds, literals) else best

module _ (method : Bytes) (parts : List Bytes) where
  unfoldable pub consider : Option Candidate → ResolvedRoute → Option Candidate
  unfolding choose match_segments
  consider best r =
      if not (same_bytes r.method method) || not (length r.segments == length parts)
      then best
      else choose r (match_segments [] 0 r.segments parts) best

  unfoldable pub best_of : Option Candidate → List ResolvedRoute → Option Candidate
  unfolding consider
  best_of best [] = best
  best_of best (r ∷ rs) = best_of (consider best r) rs

unfoldable pub match_route : List ResolvedRoute → Bytes → Bytes → Option (ResolvedRoute × Binds)
unfolding best_of pieces
match_route routes method path = elim (best_of method (pieces path) none routes) [
  | none ↦ none
  | some (r, b, _) ↦ some (r, b)
]
