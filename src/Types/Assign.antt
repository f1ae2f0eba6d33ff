-- ===== src/Types/Assign.antt =====
-- src/types.rs: equality of types and `Ty::assignable_to`.
use jwc_lang.Prelude.{
  ℕ, Bool, true, false, ◌&&◌, ◌||◌, Option, none, some, String, str_eq, leb, ◌==◌, if◌then◌else◌,
}
use jwc_lang.Types.{
  Scalar, smallint, int, bigint, numeric, boolean, varchar, text, timestamptz, date, time, interval,
  uuid, jsonb, inet, bytea, Ty, Fields, end, field, scalar, enum, class, record_of, raw, array,
  optional, response, null, void, unknown,
}
use jwc_lang.Types.Scalars.{numeric_rank, is_text}

-- the derived `PartialEq` of `Scalar`, by the position in the declaration
abbrev pub position : Scalar → ℕ
position smallint = 0
position int = 1
position bigint = 2
position numeric = 3
position boolean = 4
position varchar = 5
position text = 6
position timestamptz = 7
position date = 8
position time = 9
position interval = 10
position uuid = 11
position jsonb = 12
position inet = 13
position bytea = 14

unfoldable pub scalar_eq : Scalar → Scalar → Bool
scalar_eq a b = position a == position b

-- the derived `PartialEq` of `Ty`
unfoldable mutual
  pub ty_eq : Ty → Ty → Bool
  ty_eq (scalar a) (scalar b) = scalar_eq a b
  ty_eq (enum a) (enum b) = str_eq a b
  ty_eq (class a) (class b) = str_eq a b
  ty_eq (record_of a) (record_of b) = fields_eq a b
  ty_eq raw raw = true
  ty_eq (array a) (array b) = ty_eq a b
  ty_eq (optional a) (optional b) = ty_eq a b
  ty_eq response response = true
  ty_eq null null = true
  ty_eq void void = true
  ty_eq unknown unknown = true
  ty_eq _ _ = false

  pub fields_eq : Fields → Fields → Bool
  fields_eq end end = true
  fields_eq (field m a us) (field n b vs) = str_eq m n && ty_eq a b && fields_eq us vs
  fields_eq _ _ = false

-- `from.iter().find(|(n, _)| n == name)`
unfoldable pub find_field : String → Fields → Option Ty
find_field name end = none
find_field name (field n t rest) = if str_eq n name then some t else find_field name rest

abbrev pub is_unknown : Ty → Bool
is_unknown unknown = true
is_unknown _ = false

-- rule 5, and the text scalars: `match (a.numeric_rank(), b.numeric_rank())`
abbrev ranks_fit : Option ℕ → Option ℕ → Bool → Bool
ranks_fit (some x) (some y) texts = leb x y
ranks_fit _ _ texts = texts

unfoldable pub scalar_fits : Scalar → Scalar → Bool
unfolding numeric_rank is_text
scalar_fits a jsonb = true
scalar_fits a b = ranks_fit (numeric_rank a) (numeric_rank b) (is_text a && is_text b)

-- The arms of the `match` whose target is a scalar.
abbrev pub fits_scalar : Ty → Scalar → Bool
fits_scalar (record_of _) jsonb = true
fits_scalar (array _) jsonb = true
fits_scalar raw jsonb = true
fits_scalar (scalar a) b = scalar_fits a b
fits_scalar _ _ = false

abbrev pub is_null : Ty → Bool
is_null null = true
is_null _ = false

-- `Ty::assignable_to`, as `assignable_to self target`. The arms are grouped by their target: of those
-- for an optional the first that matches is `(Null, Optional(_))`, then `(_, Optional(inner))`.
unfoldable mutual
  pub assignable_to : Ty → Ty → Bool
  assignable_to self unknown = true
  assignable_to self (optional inner) =
      let fits_inner = assignable_to self inner in
      is_unknown self || ty_eq self (optional inner) || is_null self || fits_inner
  assignable_to self (record_of to) =
      is_unknown self
      || ty_eq self (record_of to)
      || elim self [ record_of from ↦ fields_fit from to | _ ↦ false ]
  assignable_to self (array b) =
      is_unknown self
      || ty_eq self (array b)
      || elim self [ array a ↦ assignable_to a b | _ ↦ false ]
  assignable_to self (scalar s) = is_unknown self || ty_eq self (scalar s) || fits_scalar self s
  assignable_to self target = is_unknown self || ty_eq self target

  -- `to.iter().all(…)`
  pub fields_fit : Fields → Fields → Bool
  fields_fit from end = true
  fields_fit from (field name want rest) =
      elim (find_field name from) [ none ↦ false | some have ↦ assignable_to have want ]
      && fields_fit from rest
