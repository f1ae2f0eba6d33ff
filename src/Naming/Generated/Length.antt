-- ===== src/Naming/Generated/Length.antt =====
-- src/naming.rs: generated names and the identifier limit of Postgres.
use jwc_lang.Naming.Generated.{
  hex_char, hex_2, short_hash, build, join_columns, assemble, primary_key, unique_constraint,
  unique_partial_index, foreign_key, check_table, check_column, touch_function, method_segment,
  index, index_partial, with_method, decimal,
}
use jwc_lang.Naming.{Text, byte_length, max_ident}
use jwc_lang.Prelude.{
  ℕ, ◌+◌, ◌*◌, ◌%◌, ◌/◌, ◌≤◌, ◌<◌, Option, none, some, List, [], ◌∷◌, ◌++◌, length, take, ◌≡◌,
  arith, leb, leb→le, Bytes, codes, encode_utf8, if◌then◌else◌, if_rule, length-take-le,
}

byte_length-append : (a b : Text) → byte_length (a ++ b) ≡ byte_length a + byte_length b
byte_length-append [] b = omega arith
byte_length-append (c ∷ a) b = omega (arith, byte_length-append a b)

ascii_length : (c : ℕ) → c < 128 → length (encode_utf8 c) ≡ 1
unfolding encode_utf8
ascii_length c h = ground arith

hex_char-ascii : (d : ℕ) → d < 16 → hex_char d < 128
hex_char-ascii d h = ground arith

byte_length-hex_2 : (bs : Bytes) → byte_length (hex_2 bs) ≡ 2 * length bs
byte_length-hex_2 [] = omega arith
byte_length-hex_2 (b ∷ bs) = omega (
  arith,
  ascii_length (hex_char (b / 16 % 16)) (hex_char-ascii (b / 16 % 16) (omega arith)),
  ascii_length (hex_char (b % 16)) (hex_char-ascii (b % 16) (omega arith)),
  byte_length-hex_2 bs,
)

abbrev pub Fits : Text → Type 0
Fits t = byte_length t ≤ max_ident

-- A name that a test of its length guards fits; what stands in for it has to.
Fits-or :
    (name other : Text)
    → Fits other
    → Fits (if leb (byte_length name) max_ident then name else other)
Fits-or name other h =
    if_rule Fits (leb (byte_length name) max_ident) name other (leb→le _ _) (λ _. h)

module _ (sha256 : Text → Bytes) where
  byte_length-short_hash : (t : Text) → byte_length (short_hash sha256 t) ≤ 8
  unfolding short_hash
  byte_length-short_hash t =
      omega (arith, byte_length-hex_2 (take 4 (sha256 t)), length-take-le 4 (sha256 t))

  -- a prefix, at most one more byte, a hash
  prefixed_hash :
      (prefix t : Text) (c : ℕ)
      → c < 128
      → byte_length prefix ≤ 54
      → Fits (prefix ++ (c ∷ short_hash sha256 t))
  prefixed_hash prefix t c ascii h = omega (
    arith,
    byte_length-append prefix (c ∷ short_hash sha256 t),
    ascii_length c ascii,
    byte_length-short_hash t,
  )

  assemble-Fits :
      (prefix table : Text) (columns : List Text) (suffix : Option Text)
      → byte_length prefix ≤ 54
      → Fits (assemble sha256 prefix table columns suffix)
  unfolding assemble
  assemble-Fits prefix table columns suffix h =
      let name = build sha256 prefix table suffix (join_columns columns) in
      let hashed = build sha256 prefix table suffix (short_hash sha256 (join_columns columns)) in
      let last = prefix ++ (b'_' ∷ short_hash sha256 name) in
      Fits-or name (if leb (byte_length hashed) max_ident then hashed else last)
        (Fits-or hashed last (prefixed_hash prefix name b'_' (omega arith) h))

  -- the prefixes of two letters
  two_letters : (a b : ℕ) → a < 128 → b < 128 → byte_length (a ∷ b ∷ []) ≤ 54
  two_letters a b h k = omega (arith, ascii_length a h, ascii_length b k)

  primary_key-Fits : (table : Text) → Fits (primary_key sha256 table)
  unfolding primary_key
  primary_key-Fits table = Fits-or (codes "pk_" ++ table) _ (
      prefixed_hash (codes "pk") table b'_' (omega arith)
        (two_letters b'p' b'k' (omega arith) (omega arith)))

  suffix_length : byte_length (codes "__touch") ≤ 7
  unfolding encode_utf8
  suffix_length = omega arith

  touch_function-Fits : (table : Text) → Fits (touch_function sha256 table)
  unfolding touch_function
  touch_function-Fits table =
      Fits-or (codes "tg_" ++ (table ++ codes "__touch"))
        (codes "tg_" ++ (short_hash sha256 table ++ codes "__touch"))
        (omega (
          arith,
          ascii_length b't' (omega arith),
          ascii_length b'g' (omega arith),
          ascii_length b'_' (omega arith),
          byte_length-append (short_hash sha256 table) (codes "__touch"),
          byte_length-short_hash table,
          suffix_length,
        ))

  -- Whatever the table, the columns, the rule, the predicate and the method are called, no generated
  -- name is longer than 63 bytes.
  pub generated_names_fit :
      (lower_other : ℕ → Text) (table column rule predicate : Text) (columns : List Text)
      (ordinal : ℕ) (method : Option Text)
      → Fits (primary_key sha256 table)
        × Fits (unique_constraint sha256 table columns)
        × Fits (unique_partial_index sha256 table columns predicate)
        × Fits (foreign_key sha256 table columns)
        × Fits (check_table sha256 table columns ordinal)
        × Fits (check_column sha256 table column rule)
        × Fits (index sha256 lower_other table columns method)
        × Fits (index_partial sha256 lower_other table columns predicate method)
        × Fits (touch_function sha256 table)
  unfolding unique_constraint unique_partial_index foreign_key check_table check_column index
      index_partial
  generated_names_fit lower_other table column rule predicate columns ordinal method =
      let uq = two_letters b'u' b'q' (omega arith) (omega arith) in
      let fk = two_letters b'f' b'k' (omega arith) (omega arith) in
      let ck = two_letters b'c' b'k' (omega arith) (omega arith) in
      let ix = two_letters b'i' b'x' (omega arith) (omega arith) in
      (
        primary_key-Fits table,
        assemble-Fits (codes "uq") table columns none uq,
        assemble-Fits (codes "uq") table columns (some (short_hash sha256 predicate)) uq,
        assemble-Fits (codes "fk") table columns none fk,
        assemble-Fits (codes "ck") table columns (some (decimal ordinal)) ck,
        assemble-Fits (codes "ck") table (column ∷ []) (some rule) ck,
        assemble-Fits (codes "ix") table columns (method_segment sha256 lower_other method) ix,
        assemble-Fits (codes "ix") table columns
            (some (
              with_method sha256 lower_other (method_segment sha256 lower_other method)
                (short_hash sha256 predicate)))
            ix,
        touch_function-Fits table,
      )
