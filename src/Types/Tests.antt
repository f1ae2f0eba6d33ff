-- ===== src/Types/Tests.antt =====
-- The tests of src/types.rs, on the model, and the theorems at concrete types.
use jwc_lang.Types.Display.{shown}
use jwc_lang.Ast.{add, mul}
use jwc_lang.Prelude.{true, false, none, some, codes, ◌≡◌, refl}
use jwc_lang.Types.Assign.{scalar_eq, scalar_fits, ty_eq, find_field, assignable_to}
use jwc_lang.Types.Operators.Laws.{arith_takes_both}
use jwc_lang.Types.Operators.{widen, type_of_arith, same_class, orderable}
use jwc_lang.Types.Order.{assignable_to_trans}
use jwc_lang.Types.Scalars.{is_numeric, is_text, is_ordered, name, from_name, from_name-name}
use jwc_lang.Types.Shape.{opt}
use jwc_lang.Types.Targets.{assignable_to_refl}
use jwc_lang.Types.{
  smallint, int, bigint, numeric, text, timestamptz, interval, Ty, end, field, scalar, record_of,
  array, optional, null, unknown,
}

abbrev wide : Ty
wide = record_of (field "id" (scalar bigint) (field "email" (scalar text) end))

abbrev narrow : Ty
narrow = record_of (field "id" (scalar numeric) end)

records_use_width_subtyping :
    (assignable_to wide narrow ≡ true) × (assignable_to narrow wide ≡ false)
unfolding assignable_to ty_eq find_field scalar_fits scalar_eq
records_use_width_subtyping = (refl, refl)

optional_never_fits_a_required_slot :
    (assignable_to (scalar int) (opt (scalar int)) ≡ true)
    × (assignable_to (opt (scalar int)) (scalar int) ≡ false)
    × (assignable_to null (opt (scalar int)) ≡ true)
    × (assignable_to null (scalar int) ≡ false)
unfolding assignable_to ty_eq opt scalar_fits scalar_eq
optional_never_fits_a_required_slot = (refl, refl, refl, refl)

-- Through `Unknown` everything fits everything, so transitivity needs its premise.
unknown_breaks_transitivity :
    (assignable_to (scalar text) unknown ≡ true)
    × (assignable_to unknown (scalar int) ≡ true)
    × (assignable_to (scalar text) (scalar int) ≡ false)
unfolding assignable_to ty_eq scalar_fits scalar_eq
unknown_breaks_transitivity = (refl, refl, refl)

plus_has_overloads :
    (type_of_arith add (scalar timestamptz) (scalar interval) ≡ some (scalar timestamptz))
    × (type_of_arith add (scalar text) (scalar int) ≡ none)
    × (type_of_arith mul (scalar smallint) (scalar smallint) ≡ some (scalar int))
unfolding type_of_arith is_numeric is_text widen
plus_has_overloads = (refl, refl, refl)

narrow_fits_optional : assignable_to narrow (optional narrow) ≡ true
unfolding assignable_to ty_eq find_field scalar_fits scalar_eq
narrow_fits_optional = refl

wide_fits_narrow : assignable_to wide narrow ≡ true
wide_fits_narrow = records_use_width_subtyping.0

assignable_to_trans_example : assignable_to wide (optional narrow) ≡ true
assignable_to_trans_example =
    assignable_to_trans wide narrow (optional narrow) (tt, tt) wide_fits_narrow narrow_fits_optional

assignable_to_refl_example : assignable_to wide wide ≡ true
assignable_to_refl_example = assignable_to_refl wide

smallint_plus_numeric : type_of_arith add (scalar smallint) (scalar numeric) ≡ some (scalar numeric)
unfolding type_of_arith is_numeric widen
smallint_plus_numeric = refl

numeric_is_numeric : is_numeric numeric ≡ true
unfolding is_numeric
numeric_is_numeric = refl

arith_takes_both_example :
    (scalar_fits smallint numeric ≡ true)
    × (scalar_fits numeric numeric ≡ true)
    × (scalar_eq numeric smallint ≡ false)
arith_takes_both_example =
    arith_takes_both add smallint numeric numeric numeric_is_numeric smallint_plus_numeric

int_below_bigint : orderable (scalar int) (scalar bigint) ≡ true
unfolding orderable is_ordered same_class
int_below_bigint = refl

from_name-name_example : from_name (name timestamptz) ≡ some timestamptz
from_name-name_example = from_name-name timestamptz

shown_record :
    shown
      (optional (record_of (field "id" (scalar bigint) (field "tags" (array (scalar text)) end))))
    ≡ codes "{ id: bigint, tags: text[] }?"
unfolding shown
shown_record = refl
