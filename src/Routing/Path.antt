-- ===== src/Routing/Path.antt =====
-- src/wiring.rs: the paths of routes and their segments.
use jwc_lang.Prelude.{
  ℕ, Bool, true, false, Option, none, some, List, [], ◌∷◌, ◌++◌, map, Bytes, codes, if◌then◌else◌,
  ◌==◌, trim,
}
use jwc_lang.Cursor.{split_once}
use jwc_lang.Token.{same_bytes}

pub data Segment : Type 0 where
  literal : Bytes → Segment
  -- name and type
  param : Bytes → Bytes → Segment

unfoldable pub same_shape : Segment → Segment → Bool
same_shape (literal a) (literal b) = same_bytes a b
same_shape (param _ _) (param _ _) = true
same_shape _ _ = false

-- `trim_start_matches` and `trim_end_matches` of one ASCII character
unfoldable pub trim_start_of : ℕ → Bytes → Bytes
trim_start_of d [] = []
trim_start_of d (c ∷ cs) = let rest = trim_start_of d cs in if c == d then rest else c ∷ cs

unfoldable pub end_trimmed : ℕ → ℕ → Bytes → Bytes
end_trimmed d c [] = if c == d then [] else c ∷ []
end_trimmed d c (x ∷ xs) = c ∷ x ∷ xs

unfoldable pub trim_end_of : ℕ → Bytes → Bytes
unfolding end_trimmed
trim_end_of d [] = []
trim_end_of d (c ∷ cs) = end_trimmed d c (trim_end_of d cs)

unfoldable pub trim_of : ℕ → Bytes → Bytes
unfolding trim_start_of trim_end_of
trim_of d s = trim_end_of d (trim_start_of d s)

unfoldable pub joined : Bytes → Bytes → Bytes
joined [] [] = codes "/"
joined (c ∷ cs) [] = c ∷ cs
joined p (c ∷ cs) = p ++ b'/' ∷ c ∷ cs

unfoldable pub join_path : Bytes → Bytes → Bytes
unfolding trim_end_of trim_start_of joined
join_path prefix suffix = joined (trim_end_of b'/' prefix) (trim_start_of b'/' suffix)

-- `split('/').filter(|s| !s.is_empty())`: the piece that is read, and the rest behind it
unfoldable pub piece_then : Bytes → List Bytes → List Bytes
piece_then [] later = later
piece_then (c ∷ cs) later = (c ∷ cs) ∷ later

unfoldable pub pieces_from : Bytes → Bytes → List Bytes
unfolding piece_then
pieces_from piece [] = piece_then piece []
pieces_from piece (c ∷ cs) =
    let ended = piece_then piece (pieces_from [] cs) in
    let longer = pieces_from (piece ++ c ∷ []) cs in if c == b'/' then ended else longer

unfoldable pub pieces : Bytes → List Bytes
unfolding pieces_from trim_of
pieces path = pieces_from [] (trim_of b'/' path)

-- what stands between a `{` and a `}` at the end
unfoldable pub before_brace : Bytes → Option Bytes
before_brace [] = none
before_brace (c ∷ []) = if c == b'}' then some [] else none
before_brace (c ∷ d ∷ cs) = elim (before_brace (d ∷ cs)) [
  | none ↦ none
  | some inner ↦ some (c ∷ inner)
]

unfoldable pub in_braces : Bytes → Option Bytes
unfolding before_brace
in_braces [] = none
in_braces (c ∷ cs) = if c == b'{' then before_brace cs else none

-- an untyped parameter is `text`
unfoldable pub param_of : Bytes → Segment
unfolding split_once
param_of inner = elim (split_once b':' inner) [
  | some nt ↦ param (trim nt.0) (trim nt.1)
  | none ↦ param (trim inner) (codes "text")
]

unfoldable pub segment_of : Bytes → Segment
unfolding in_braces param_of
segment_of s = elim (in_braces s) [ some inner ↦ param_of inner | none ↦ literal s ]

unfoldable pub parse_path : Bytes → List Segment
unfolding pieces segment_of
parse_path path = map segment_of (pieces path)

unfoldable pub rendered : Segment → Bytes
rendered (literal l) = l
rendered (param name _) = b'{' ∷ name ++ codes "}"

unfoldable pub render_all : List Segment → Bytes
unfolding rendered
render_all [] = []
render_all (s ∷ ss) = b'/' ∷ rendered s ++ render_all ss

unfoldable pub render : List Segment → Bytes
unfolding render_all
render [] = codes "/"
render (s ∷ ss) = render_all (s ∷ ss)

unfoldable pub route_pattern : Bytes → Bytes → Bytes
unfolding render parse_path
route_pattern prefix suffix = render (parse_path (prefix ++ b'/' ∷ suffix))
