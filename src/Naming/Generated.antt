-- ===== src/Naming/Generated.antt =====
-- src/naming.rs: the names of constraints, indexes and functions, over the digest of the `sha2` crate.
pub mod Length
use jwc_lang.Naming.{Text, byte_length, max_ident, ascii_lower, to_lowercase}
use jwc_lang.Prelude.{
  ℕ, zero, suc, ◌+◌, ◌-◌, ◌/◌, ◌%◌, Bool, true, false, ◌&&◌, Option, none, some, List, [], ◌∷◌,
  ◌++◌, map, ltb, leb, ◌==◌, if◌then◌else◌, Bytes, codes, take,
}

-- `{:02x}`
abbrev pub hex_char : ℕ → ℕ
hex_char d = if ltb d 10 then b'0' + d else b'a' + (d - 10)

abbrev pub hex_2 : Bytes → Text
hex_2 [] = []
hex_2 (b ∷ bs) = hex_char (b / 16 % 16) ∷ hex_char (b % 16) ∷ hex_2 bs

-- `columns.join("_")`
unfoldable pub join_columns : List Text → Text
join_columns [] = []
join_columns (c ∷ []) = c
join_columns (c ∷ d ∷ cs) = c ++ (b'_' ∷ join_columns (d ∷ cs))

-- `to_string()` of a number
decimal_onto : ℕ → ℕ → Text → Text
decimal_onto zero n acc = acc
decimal_onto (suc fuel) n acc =
    let more = decimal_onto fuel (n / 10) ((b'0' + n % 10) ∷ acc) in
    if ltb n 10 then (b'0' + n) ∷ acc else more

unfoldable pub decimal : ℕ → Text
unfolding decimal_onto
decimal n = decimal_onto (suc n) n []

eq_ignore_ascii_case : Text → Text → Bool
eq_ignore_ascii_case [] [] = true
eq_ignore_ascii_case (a ∷ as') (b ∷ bs) =
    ascii_lower a == ascii_lower b && eq_ignore_ascii_case as' bs
eq_ignore_ascii_case _ _ = false

unfoldable pub separated : Text → Option Text → Text
separated cols none = cols
separated cols (some s) = cols ++ (b'_' ∷ b'_' ∷ s)

module _ (sha256 : Text → Bytes) where
  unfoldable pub short_hash : Text → Text
  short_hash text = hex_2 (take 4 (sha256 text))

  -- the closure `build`
  unfoldable pub build : Text → Text → Option Text → Text → Text
  build prefix table suffix cols =
      prefix ++ (b'_' ∷ (table ++ (b'_' ∷ b'_' ∷ separated cols suffix)))

  unfoldable pub assemble : Text → Text → List Text → Option Text → Text
  assemble prefix table columns suffix =
      let cols = join_columns columns in
      let name = build prefix table suffix cols in
      let hashed = build prefix table suffix (short_hash cols) in
      if leb (byte_length name) max_ident
      then name
      else if leb (byte_length hashed) max_ident
      then hashed
      else prefix ++ (b'_' ∷ short_hash name)

  unfoldable pub primary_key : Text → Text
  primary_key table =
      let name = codes "pk_" ++ table in
      if leb (byte_length name) max_ident then name else codes "pk_" ++ short_hash table

  unfoldable pub unique_constraint : Text → List Text → Text
  unique_constraint table columns = assemble (codes "uq") table columns none

  unfoldable pub unique_partial_index : Text → List Text → Text → Text
  unique_partial_index table columns predicate =
      assemble (codes "uq") table columns (some (short_hash predicate))

  unfoldable pub foreign_key : Text → List Text → Text
  foreign_key table columns = assemble (codes "fk") table columns none

  unfoldable pub check_table : Text → List Text → ℕ → Text
  check_table table columns ordinal = assemble (codes "ck") table columns (some (decimal ordinal))

  unfoldable pub check_column : Text → Text → Text → Text
  check_column table column rule = assemble (codes "ck") table (column ∷ []) (some rule)

  unfoldable pub touch_function : Text → Text
  touch_function table =
      let name = codes "tg_" ++ (table ++ codes "__touch") in
      if leb (byte_length name) max_ident
      then name
      else codes "tg_" ++ (short_hash table ++ codes "__touch")

  module _ (lower_other : ℕ → Text) where
    -- `str::to_lowercase` but for a capital sigma at the end of a word. The name of an index method is an
    -- identifier, and the scanner keeps those to ASCII.
    str_to_lowercase : Text → Text
    str_to_lowercase [] = []
    str_to_lowercase (c ∷ cs) = to_lowercase lower_other c ++ str_to_lowercase cs

    unfoldable pub method_segment : Option Text → Option Text
    unfolding eq_ignore_ascii_case str_to_lowercase to_lowercase
    method_segment none = none
    method_segment (some m) =
        if eq_ignore_ascii_case m (codes "btree") then none else some (str_to_lowercase m)

    unfoldable pub index : Text → List Text → Option Text → Text
    index table columns method = assemble (codes "ix") table columns (method_segment method)

    abbrev pub with_method : Option Text → Text → Text
    with_method none h = h
    with_method (some m) h = m ++ (b'_' ∷ h)

    unfoldable pub index_partial : Text → List Text → Text → Option Text → Text
    index_partial table columns predicate method =
        let h = short_hash predicate in
        assemble (codes "ix") table columns (some (with_method (method_segment method) h))
