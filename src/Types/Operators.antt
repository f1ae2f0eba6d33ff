-- ===== src/Types/Operators.antt =====
-- src/types.rs: the types of `a + b` and its like, and where `==` and `<` are defined.
pub mod Laws
use jwc_lang.Ast.{
  BinOp, and, or, eq, ne, eq_opt, lt, le, gt, ge, like, ilike, add, sub, mul, div, rem,
}
use jwc_lang.Prelude.{
  ℕ, zero, suc, max, Bool, true, false, ◌&&◌, ◌||◌, Option, none, some, if◌then◌else◌,
}
use jwc_lang.Types.{
  Scalar, smallint, int, bigint, numeric, text, timestamptz, date, interval, Ty, scalar, null,
  unknown,
}
use jwc_lang.Types.Assign.{scalar_eq, ty_eq, is_unknown, is_null}
use jwc_lang.Types.Scalars.{numeric_rank, is_numeric, is_text, is_ordered}
use jwc_lang.Types.Shape.{strip_opt, as_scalar}

-- `numeric_rank().unwrap_or(1)`
abbrev rank_or_one : Scalar → ℕ
rank_or_one s = elim (numeric_rank s) [ some r ↦ r | none ↦ 1 ]

abbrev of_rank : ℕ → Scalar
of_rank zero = int
of_rank (suc zero) = int
of_rank (suc (suc zero)) = bigint
of_rank _ = numeric

unfoldable pub widen : Scalar → Scalar → Scalar
unfolding numeric_rank
widen a b = of_rank (max (rank_or_one a) (rank_or_one b))

abbrev pub add_instants : Scalar → Scalar → Option Ty
add_instants timestamptz interval = some (scalar timestamptz)
add_instants date interval = some (scalar timestamptz)
add_instants interval interval = some (scalar interval)
add_instants _ _ = none

abbrev pub sub_instants : Scalar → Scalar → Option Ty
sub_instants timestamptz timestamptz = some (scalar interval)
sub_instants timestamptz interval = some (scalar timestamptz)
sub_instants date interval = some (scalar timestamptz)
sub_instants date date = some (scalar interval)
sub_instants interval interval = some (scalar interval)
sub_instants _ _ = none

abbrev pub is_integer : Scalar → Bool
is_integer smallint = true
is_integer int = true
is_integer bigint = true
is_integer _ = false

-- the `match op` of `arith`, on the two scalars
unfoldable pub arith_scalars : BinOp → Scalar → Scalar → Option Ty
arith_scalars add a b =
    if is_numeric a && is_numeric b
    then some (scalar (widen a b))
    else if is_text a && is_text b
    then some (scalar text)
    else add_instants a b
arith_scalars sub a b =
    if is_numeric a && is_numeric b then some (scalar (widen a b)) else sub_instants a b
arith_scalars mul a b = if is_numeric a && is_numeric b then some (scalar (widen a b)) else none
arith_scalars div a b = if is_numeric a && is_numeric b then some (scalar (widen a b)) else none
arith_scalars rem a b = if is_integer a && is_integer b then some (scalar (widen a b)) else none
arith_scalars _ a b = none

abbrev on_scalars : BinOp → Option Scalar → Option Scalar → Option Ty
on_scalars op (some a) (some b) = arith_scalars op a b
on_scalars op _ _ = none

-- `arith`
unfoldable pub type_of_arith : BinOp → Ty → Ty → Option Ty
unfolding arith_scalars as_scalar
type_of_arith op lhs rhs =
    if is_unknown lhs || is_unknown rhs
    then some unknown
    else on_scalars op (as_scalar lhs) (as_scalar rhs)

unfoldable pub same_class : Scalar → Scalar → Bool
same_class x y = (is_numeric x && is_numeric y) || (is_text x && is_text y)

abbrev pub comparable_scalars : Option Scalar → Option Scalar → Bool
comparable_scalars (some x) (some y) = same_class x y
comparable_scalars _ _ = false

unfoldable pub comparable : Ty → Ty → Bool
unfolding as_scalar strip_opt
comparable a b =
    if is_unknown a || is_unknown b
    then true
    else if is_null a || is_null b
    then true
    else let a' = strip_opt a in
      let b' = strip_opt b in
      if ty_eq a' b' then true else comparable_scalars (as_scalar a') (as_scalar b')

abbrev pub orderable_scalars : Option Scalar → Option Scalar → Bool
orderable_scalars (some x) (some y) =
    is_ordered x && is_ordered y && (same_class x y || scalar_eq x y)
orderable_scalars _ _ = false

unfoldable pub orderable : Ty → Ty → Bool
unfolding as_scalar
orderable a b =
    if is_unknown a || is_unknown b then true else orderable_scalars (as_scalar a) (as_scalar b)
