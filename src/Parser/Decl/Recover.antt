-- ===== src/Parser/Decl/Recover.antt =====
-- src/parser.rs: `recover_to_decl`.
use jwc_lang.Prelude.{ℕ, suc, ◌-◌, ◌&&◌, List, [], ◌∷◌, map, Bytes, codes, leb, ◌==◌}
use jwc_lang.Prelude.Loop.{Flow, again, break}
use jwc_lang.Token.{Tok, ident, l_brace, r_brace, eof}
use jwc_lang.Parser.Action.{Action, pure, branch, ◌>>=◌, looping}
use jwc_lang.Parser.Cursor.{bump, looking}
use jwc_lang.Parser.Types.{is_among}

-- DECL_STARTS
unfoldable pub decl_starts : List Bytes
decl_starts = map codes (
    "namespace" ∷ "import" ∷ "database" ∷ "schema" ∷ "table" ∷ "view" ∷ "enum" ∷ "class" ∷ "error"
    ∷ "service" ∷ "middleware" ∷ "routes" ∷ "errorHandler" ∷ "server" ∷ "static" ∷ "const"
    ∷ "function" ∷ "test" ∷ [])

unfoldable pub step_at : ℕ → Action (Flow ℕ (Unit {0}))
step_at depth = do _ ← bump; pure (again depth)

unfoldable pub finish_recovery : Action (Flow ℕ (Unit {0}))
finish_recovery = pure (break tt)

-- one round, at the depth of braces; a brace that closes no other ends the loop, so the depth is
-- never below 0
unfoldable pub recovered_at : ℕ → Tok → Action (Flow ℕ (Unit {0}))
recovered_at depth eof = finish_recovery
recovered_at depth l_brace = step_at (suc depth)
recovered_at depth r_brace =
    branch (λ s. leb depth 1) (do _ ← bump; finish_recovery) (step_at (depth - 1))
recovered_at depth (ident w) =
    branch (λ s. depth == 0 && is_among w decl_starts) finish_recovery (step_at depth)
recovered_at depth _ = step_at depth

unfoldable pub next_recovered : ℕ → Action (Flow ℕ (Unit {0}))
next_recovered depth = looking (recovered_at depth)

unfoldable pub recover_to_decl : Action (Unit {0})
recover_to_decl = looping next_recovered 0
