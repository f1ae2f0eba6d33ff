-- ===== src/Naming/Tests.antt =====
-- The tests of src/naming.rs, on the model, and the theorems at concrete names.
use jwc_lang.Naming.Generated.Length.{Fits, generated_names_fit}
use jwc_lang.Naming.Generated.{
  short_hash, build, assemble, join_columns, separated, decimal, primary_key, unique_constraint,
  unique_partial_index, foreign_key, check_table, check_column, index, index_partial,
  touch_function, method_segment,
}
use jwc_lang.Naming.Quoting.Reading.{read_ident, read_ident-quote_ident}
use jwc_lang.Naming.Quoting.{is_reserved_sql, double_quotes, quote_ident}
use jwc_lang.Naming.Snake.{HasNoUpper, letters, physical_idem, letters-physical}
use jwc_lang.Naming.{Text, ascii_lower, physical}
use jwc_lang.Prelude.{
  ℕ, none, some, [], ◌∷◌, ◌++◌, map, ◌≡◌, refl, arith, Bytes, codes, encode_utf8,
}

-- What lies outside ASCII is not lowered here.
abbrev same : ℕ → Text
same c = c ∷ []

-- a digest of 32 bytes
abbrev digest : Text → Bytes
digest t =
    0 ∷ 17 ∷ 255 ∷ 160 ∷ 0 ∷ 0 ∷ 0 ∷ 0 ∷ 0 ∷ 0 ∷ 0 ∷ 0 ∷ 0 ∷ 0 ∷ 0 ∷ 0 ∷ 0 ∷ 0 ∷ 0 ∷ 0 ∷ 0 ∷ 0 ∷ 0
    ∷ 0 ∷ 0 ∷ 0 ∷ 0 ∷ 0 ∷ 0 ∷ 0 ∷ 0 ∷ 0 ∷ []

snake_case_transform :
    (physical same (codes "InvoiceLines") ≡ codes "invoice_lines")
    × (physical same (codes "APIKeys") ≡ codes "api_keys")
    × (physical same (codes "HTTPServer") ≡ codes "http_server")
    × (physical same (codes "Address2Line") ≡ codes "address2_line")
    × (physical same (codes "created_at") ≡ codes "created_at")
unfolding physical
snake_case_transform = (refl, refl, refl, refl, refl)

constraint_names :
    (unique_constraint digest (codes "invites") (codes "org_id" ∷ codes "account_id" ∷ [])
      ≡ codes "uq_invites__org_id_account_id")
    × (index digest same (codes "children") (codes "label" ∷ []) (some (codes "BTree"))
        ≡ codes "ix_children__label")
    × (index digest same (codes "children") (codes "label" ∷ []) (some (codes "gin"))
        ≡ codes "ix_children__label__gin")
    × (check_table digest (codes "t") [] 12 ≡ codes "ck_t____12")
    × (short_hash digest (codes "x") ≡ codes "0011ffa0")
unfolding unique_constraint index check_table assemble build join_columns separated method_segment
    short_hash decimal encode_utf8
constraint_names = (refl, refl, refl, refl, refl)

identifiers_are_quoted_only_when_needed :
    (quote_ident (codes "accounts") ≡ codes "accounts")
    × (quote_ident (codes "tblUserAccounts") ≡ codes "\"tblUserAccounts\"")
    × (quote_ident (codes "order") ≡ codes "\"order\"")
unfolding quote_ident is_reserved_sql double_quotes
identifiers_are_quoted_only_when_needed = (refl, refl, refl)

abbrev long_table : Text
long_table = codes "a_table_with_a_name_that_is_much_longer_than_what_postgres_lets_a_name_be"

generated_names_fit_example :
    Fits (primary_key digest long_table)
    × Fits (unique_constraint digest long_table (codes "a" ∷ []))
    × Fits (unique_partial_index digest long_table (codes "a" ∷ []) (codes "a > 1"))
    × Fits (foreign_key digest long_table (codes "a" ∷ []))
    × Fits (check_table digest long_table (codes "a" ∷ []) 3)
    × Fits (check_column digest long_table (codes "a") (codes "min"))
    × Fits (index digest same long_table (codes "a" ∷ []) none)
    × Fits (index_partial digest same long_table (codes "a" ∷ []) (codes "a > 1") none)
    × Fits (touch_function digest long_table)
generated_names_fit_example =
    generated_names_fit digest same long_table (codes "a") (codes "min") (codes "a > 1")
      (codes "a" ∷ []) 3 none

read_ident-quote_ident_example :
    read_ident (quote_ident (codes "a\"; drop") ++ codes ", b")
    ≡ some (codes "a\"; drop", codes ", b")
read_ident-quote_ident_example =
    read_ident-quote_ident (codes "a\"; drop") (codes ", b") (refl, refl)

physical_idem_example :
    HasNoUpper (physical same (codes "APIKeys"))
    × (physical same (physical same (codes "APIKeys")) ≡ physical same (codes "APIKeys"))
physical_idem_example = physical_idem same (codes "APIKeys") (omega arith)

letters-physical_example :
    letters same (physical same (codes "APIKeys"))
    ≡ letters same (map ascii_lower (codes "APIKeys"))
letters-physical_example = letters-physical same (codes "APIKeys") (omega arith)
