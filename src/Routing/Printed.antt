-- ===== src/Routing/Printed.antt =====
-- src/wiring.rs: `render` and `parse_path`, one after the other.
use jwc_lang.Prelude.{
  ℕ, ◌≡◌, refl, ap, ap₂, sym, ◌∙◌, none, some, List, [], ◌∷◌, ◌++◌, map, Bytes, codes, All,
  All-append,
}
use mathlib.Core.List.{append_assoc, append-nil}
use jwc_lang.Cursor.{split_once}
use jwc_lang.Routing.Path.{
  Segment, literal, param, trim_of, piece_then, pieces_from, pieces, before_brace, in_braces,
  param_of, segment_of, parse_path, rendered, render_all, render,
}
use jwc_lang.Routing.Slashes.{pieces-untrimmed}
use jwc_lang.Routing.Plain.{Free, Plain, pieces_from-Piece, map-Plain}

-- A segment's text without its type: a parameter of the type `text`.
abbrev pub untyped : Segment → Segment
untyped (literal l) = literal l
untyped (param name ty) = param name (codes "text")

pieces_from-append :
    (piece l rest : Bytes)
    → Free b'/' l
    → pieces_from piece (l ++ rest) ≡ pieces_from (piece ++ l) rest
unfolding pieces_from
pieces_from-append piece [] rest h = ap (λ p. pieces_from p rest) (sym (append-nil piece))
pieces_from-append piece (c ∷ l) rest h = rw h.0 (
    pieces_from-append (piece ++ c ∷ []) l rest h.1
    ∙ ap (λ p. pieces_from p rest) (append_assoc piece (c ∷ []) l))

rendered-Free : (s : Segment) → Plain s → Free b'/' (rendered s)
unfolding rendered
rendered-Free (literal l) h = h.1
rendered-Free (param name ty) h = (refl, All-append _ name (codes "}") h.0 (refl, tt))

piece_then-rendered :
    (s : Segment) (later : List Bytes)
    → Plain s
    → piece_then (rendered s) later ≡ rendered s ∷ later
unfolding piece_then rendered
piece_then-rendered (literal []) later h = absurd (h.0 refl)
piece_then-rendered (literal (c ∷ l)) later h = refl
piece_then-rendered (param name ty) later h = refl

pieces_from-render_all :
    (piece : Bytes) (ss : List Segment)
    → All Plain ss
    → pieces_from piece (render_all ss) ≡ piece_then piece (map rendered ss)
unfolding render_all pieces_from
pieces_from-render_all piece [] h = refl
pieces_from-render_all piece (s ∷ ss) h = ap (piece_then piece) (
    pieces_from-append [] (rendered s) (render_all ss) (rendered-Free s h.0)
    ∙ pieces_from-render_all (rendered s) ss h.1
    ∙ piece_then-rendered s (map rendered ss) h.0)

pieces-render : (ss : List Segment) → All Plain ss → pieces (render ss) ≡ map rendered ss
unfolding render pieces_from piece_then
pieces-render [] h = pieces-untrimmed _
pieces-render (s ∷ ss) h = pieces-untrimmed _ ∙ pieces_from-render_all [] (s ∷ ss) h

before_brace-append : (name : Bytes) → before_brace (name ++ codes "}") ≡ some name
unfolding before_brace
before_brace-append [] = refl
before_brace-append (c ∷ []) = refl
before_brace-append (c ∷ d ∷ name) = rw (before_brace-append (d ∷ name)) refl

split_once-none : (d : ℕ) (s : Bytes) → Free d s → split_once d s ≡ none
unfolding split_once
split_once-none d [] h = refl
split_once-none d (c ∷ s) h = rw (split_once-none d s h.1, h.0) refl

segment_of-rendered : (s : Segment) → Plain s → segment_of (rendered s) ≡ untyped s
unfolding segment_of rendered in_braces param_of
segment_of-rendered (literal l) h = rw (segment_of, h.2) refl
segment_of-rendered (param name ty) h =
    rw (segment_of, before_brace-append name, param_of, split_once-none b':' name h.1, h.2) refl

map-rendered :
    (ss : List Segment) → All Plain ss → map segment_of (map rendered ss) ≡ map untyped ss
map-rendered [] h = refl
map-rendered (s ∷ ss) h = ap₂ ◌∷◌ (segment_of-rendered s h.0) (map-rendered ss h.1)

-- The pattern that a path is rendered as is read as the segments of the path, each parameter with
-- its name, and of the type `text` since the pattern has no types.
pub parse_path-render :
    (path : Bytes) → parse_path (render (parse_path path)) ≡ map untyped (parse_path path)
unfolding parse_path pieces
parse_path-render path =
    let plain = map-Plain (pieces path) (pieces_from-Piece [] (trim_of b'/' path) tt) in
    ap (map segment_of) (pieces-render (parse_path path) plain)
    ∙ map-rendered (parse_path path) plain
