-- ===== src/Types/Scalars.antt =====
-- src/types.rs: `impl Scalar`.
use jwc_lang.Prelude.{
  ℕ, Bool, true, false, ◌||◌, Option, none, some, String, str_eq, if◌then◌else◌, ◌≡◌, refl,
}
use jwc_lang.Types.{
  Scalar, smallint, int, bigint, numeric, boolean, varchar, text, timestamptz, date, time, interval,
  uuid, jsonb, inet, bytea,
}

unfoldable pub from_name : String → Option Scalar
from_name s =
    if str_eq s "smallint"
    then some smallint
    else if str_eq s "int"
    then some int
    else if str_eq s "bigint"
    then some bigint
    else if str_eq s "numeric"
    then some numeric
    else if str_eq s "boolean"
    then some boolean
    else if str_eq s "varchar"
    then some varchar
    else if str_eq s "text"
    then some text
    else if str_eq s "timestamptz"
    then some timestamptz
    else if str_eq s "date"
    then some date
    else if str_eq s "time"
    then some time
    else if str_eq s "interval"
    then some interval
    else if str_eq s "uuid"
    then some uuid
    else if str_eq s "jsonb"
    then some jsonb
    else if str_eq s "inet"
    then some inet
    else if str_eq s "bytea"
    then some bytea
    else none

unfoldable pub name : Scalar → String
name smallint = "smallint"
name int = "int"
name bigint = "bigint"
name numeric = "numeric"
name boolean = "boolean"
name varchar = "varchar"
name text = "text"
name timestamptz = "timestamptz"
name date = "date"
name time = "time"
name interval = "interval"
name uuid = "uuid"
name jsonb = "jsonb"
name inet = "inet"
name bytea = "bytea"

unfoldable pub numeric_rank : Scalar → Option ℕ
numeric_rank smallint = some 0
numeric_rank int = some 1
numeric_rank bigint = some 2
numeric_rank numeric = some 3
numeric_rank _ = none

unfoldable pub is_numeric : Scalar → Bool
unfolding numeric_rank
is_numeric s = elim (numeric_rank s) [ some _ ↦ true | none ↦ false ]

unfoldable pub is_text : Scalar → Bool
is_text varchar = true
is_text text = true
is_text _ = false

abbrev is_instant_or_uuid : Scalar → Bool
is_instant_or_uuid timestamptz = true
is_instant_or_uuid date = true
is_instant_or_uuid time = true
is_instant_or_uuid interval = true
is_instant_or_uuid uuid = true
is_instant_or_uuid _ = false

unfoldable pub is_ordered : Scalar → Bool
unfolding is_numeric is_text
is_ordered s = is_numeric s || is_text s || is_instant_or_uuid s

unfoldable pub wire_is_string : Scalar → Bool
wire_is_string smallint = false
wire_is_string int = false
wire_is_string boolean = false
wire_is_string jsonb = false
wire_is_string _ = true

-- Every scalar is read back from the name that it is printed with.
pub from_name-name : (s : Scalar) → from_name (name s) ≡ some s
unfolding from_name name
from_name-name smallint = refl
from_name-name _ = refl
