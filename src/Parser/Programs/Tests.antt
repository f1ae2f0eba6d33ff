-- ===== src/Parser/Programs/Tests.antt =====
-- src/parser.rs and src/serve.rs: runs of the parser of programs, and the theorems at programs.
use jwc_lang.Prelude.{
  ℕ, ◌<◌, ◌≤◌, ◌≡◌, refl, String, Bytes, codes, true, Option, none, some, List, [], ◌∷◌, ◌++◌, map,
  length, arith, trim, encode_utf8,
}
use jwc_lang.Token.{Token, Tok, Span}
use jwc_lang.Ast.Decl
use jwc_lang.Ast.Decl.{Program}
use jwc_lang.Ast.Tree.{Ident}
use jwc_lang.Diag.{Diagnostic}
use jwc_lang.Lexer.Tokenize.{Tokens, tokenize}
use jwc_lang.Parser.Action
use jwc_lang.Parser.Action.{Parser, Outcome, done, failed, exhausted, ◌>>=◌}
use jwc_lang.Parser.Cursor
use jwc_lang.Parser.Cursor.{at_eof}
use jwc_lang.Parser.Types
use jwc_lang.Parser.Grammar.{parser_of, with_fuel}
use jwc_lang.Parser.Decl.Recover as Restart
use jwc_lang.Parser.Decl.Duration
use jwc_lang.Parser.Decl.Program as Whole
use jwc_lang.Parser.Decl.Schema
use jwc_lang.Parser.Recover
use jwc_lang.Token
use jwc_lang.Token.Keywords
use jwc_lang.Parser.Decl.Program.{parse_program, parse_decl, parse}
use jwc_lang.Parser.Progress.{WellFormed}
use jwc_lang.Parser.Correct.{Ends, Ahead, Tells}
use jwc_lang.Parser.Programs.{
  Restarts, parse_total, parse_program_total, declarations_return, recover_to_decl-Restarts,
}

abbrev zero_span : Span
zero_span = record { start = 0; stop = 0 }

abbrev at_zero : Tok → Token
at_zero t = record { tok = t; span = zero_span; leading = [] }

abbrev word : String → Tok
word w = Tok.ident (codes w)

abbrev parser_at : List Tok → Parser
parser_at ts = parser_of (map at_zero ts)

-- how far the recovery goes
abbrev stopped_at : Outcome (Unit {0}) → Option ℕ
stopped_at (done x s) = some s.i
stopped_at (failed s) = none
stopped_at exhausted = none

unfoldable recover_from : List Tok → Option ℕ
unfolding Restart.recover_to_decl Restart.next_recovered Restart.recovered_at Restart.step_at
    Restart.finish_recovery Restart.decl_starts Action.looping Action.rounds Action.pure
    Action.branch ◌>>=◌ Cursor.looking Cursor.peek Cursor.token_at Cursor.bump Cursor.advance
    Types.is_among
recover_from ts = stopped_at (Restart.recover_to_decl (parser_at ts))

-- the next declaration is found
function_found : recover_from (Tok.semi ∷ word "function" ∷ word "f" ∷ Tok.eof ∷ []) ≡ some 1
unfolding recover_from
function_found = refl

-- a job that stands behind an error is passed over
job_skipped :
    recover_from (Tok.semi ∷ word "job" ∷ word "j" ∷ word "function" ∷ Tok.eof ∷ []) ≡ some 3
unfolding recover_from
job_skipped = refl

-- the seconds of a text
unfoldable seconds : String → Option ℕ
unfolding Duration.duration_seconds Duration.split_unit Duration.u64_value Duration.unit_seconds
    Duration.below Duration.without_plus Types.unsigned_value Types.digits_value trim
seconds text = Duration.duration_seconds (codes text)

half_minute : seconds " 30s " ≡ some 30
unfolding seconds
half_minute = refl

no_unit : seconds "30" ≡ none
unfolding seconds
no_unit = refl

-- the product of a number of minutes and 60 wraps
wrapped_minutes : seconds "307445734561825861m" ≡ some 44
unfolding seconds
wrapped_minutes = refl

abbrev const_tokens : List Tok
const_tokens =
    word "const" ∷ word "x" ∷ Tok.eq ∷ Tok.int (codes "1") ∷ Tok.semi ∷ word "job" ∷ Tok.eof ∷ []

const_tokens-WellFormed : WellFormed (parser_at const_tokens)
unfolding Cursor.token_at
const_tokens-WellFormed = record { inside = omega arith; ended = refl }

parse_program_total_example :
    (p : Program) × (s' : Parser) × (with_fuel parse_program (parser_at const_tokens) ≡ done p s')
    × (at_eof s' ≡ true)
    × (s'.toks ≡ (parser_at const_tokens).toks)
    × (s'.query_depth ≡ (parser_at const_tokens).query_depth)
    × (length (parser_at const_tokens).diags ≤ length s'.diags)
parse_program_total_example = parse_program_total (parser_at const_tokens) const_tokens-WellFormed

declarations_return_example :
    Ends
      (Ahead (parser_at const_tokens))
      (λ s'. (parser_at const_tokens).i < s'.i)
      (with_fuel parse_decl (parser_at const_tokens))
    × Tells (parser_at const_tokens) (with_fuel parse_decl (parser_at const_tokens))
declarations_return_example = declarations_return (parser_at const_tokens) const_tokens-WellFormed

recover_to_decl-Restarts_example :
    (s' : Parser) × (Restart.recover_to_decl (parser_at const_tokens) ≡ done tt s')
    × ((parser_at const_tokens).i ≤ s'.i)
    × (s'.i < length (parser_at const_tokens).toks)
    × Restarts s'
recover_to_decl-Restarts_example =
    recover_to_decl-Restarts (parser_at const_tokens) const_tokens-WellFormed

abbrev text : Bytes
text = codes "const x = 1; job"

parse_total_example :
    (r : Tokens) × (tokenize text ≡ some r)
    × (p : Program) × (s : Parser) × (with_fuel parse_program (parser_of r.0) ≡ done p s)
    × (s.toks ≡ r.0)
    × (at_eof s ≡ true)
    × (parse text ≡ some (p, r.1 ++ s.diags))
parse_total_example = parse_total text (omega arith)

-- what a list of tokens is read as
unfoldable program_of : List Tok → Option Whole.Parsed
unfolding Restart.recover_to_decl Restart.next_recovered Restart.recovered_at Restart.step_at
    Restart.finish_recovery Restart.decl_starts Types.is_among Token.shown Token.punct_text
    encode_utf8 Whole.parse_tokens Whole.with_diags Whole.parse_program Whole.next_decl
    Whole.keep_or_recover Whole.report_trailing Whole.parse_decl Whole.parse_worded_decl
    Whole.on_word Schema.parse_namespace Schema.parse_dotted Types.next_part Types.parse_parts
    Recover.stepping Action.looping Action.rounds Action.pure Action.stop Action.gets Action.branch
    Action.settled Action.attempt ◌>>=◌ Action.push_diag Action.either Cursor.token_at
    Cursor.peek_at Cursor.peek Cursor.at_eof Cursor.kind_number Cursor.same_tok Cursor.at
    Cursor.next_is Cursor.at_word Cursor.word_at Cursor.advance Cursor.bump Cursor.eat Cursor.span
    Cursor.looking Cursor.at_old_comment Cursor.old_comment Cursor.find_word Cursor.removed
    Cursor.removed_message Cursor.report_removed Cursor.check_removed_keyword Cursor.refuse_removed
    Cursor.expect Cursor.take_ident Cursor.ident_or_refuse Cursor.expect_ident Cursor.add_trivia
    Cursor.attached Token.to Token.is_word Token.dummy Keywords.removed_keywords Cursor.ident_at
    Cursor.at_ident Cursor.refuse Cursor.err Cursor.unexpected
program_of ts = Whole.parse_tokens (map at_zero ts, [])

-- the parts of the name of each module, and the codes of the diagnostics
abbrev module_parts : Decl.Decl → List Bytes
module_parts (Decl.namespace d) = map (λ (i : Ident). i.name) d.name.parts
module_parts _ = []

abbrev summary : Option Whole.Parsed → Option (List (List Bytes) × List String)
summary none = none
summary (some r) = some (map module_parts r.0.decls, map (λ (d : Diagnostic). d.code) r.1)

two_namespaces :
    summary (
      program_of (
        word "namespace"
        ∷ word "a"
        ∷ Tok.dot
        ∷ word "b"
        ∷ Tok.semi
        ∷ word "namespace"
        ∷ word "c"
        ∷ Tok.semi
        ∷ Tok.eof
        ∷ []))
    ≡ some ((codes "a" ∷ codes "b" ∷ []) ∷ (codes "c" ∷ []) ∷ [], [])
unfolding program_of
two_namespaces = refl

-- a module without a name is reported, and the one behind it is read
second_namespace :
    summary (
      program_of
        (word "namespace" ∷ Tok.semi ∷ word "namespace" ∷ word "c" ∷ Tok.semi ∷ Tok.eof ∷ []))
    ≡ some ((codes "c" ∷ []) ∷ [], "E0001" ∷ [])
unfolding program_of
second_namespace = refl
