-- ===== src/Types/Operators/Laws.antt =====
-- src/types.rs: the laws of the operators' types.
use jwc_lang.Ast.{BinOp, add, sub, mul, div, rem, and}
use jwc_lang.Prelude.{
  Bool, true, false, ◌&&◌, Option, none, some, ◌≡◌, ◌≢◌, refl, arith, if◌then◌else◌,
}
use jwc_lang.Types.{Scalar, smallint, text, date, Ty, scalar, unknown}
use jwc_lang.Types.Assign.{scalar_eq, scalar_fits, ty_eq}
use jwc_lang.Types.Equality.{eq_of-ty_eq, ty_eq_refl}
use jwc_lang.Types.Operators.{
  widen, arith_scalars, type_of_arith, same_class, comparable, orderable, add_instants,
  sub_instants, is_integer, comparable_scalars,
}
use jwc_lang.Types.Shape.{strip_opt, as_scalar}
use jwc_lang.Types.Scalars.{is_numeric, is_text}

-- For numeric operands the result of every arithmetic operator that is defined is numeric, takes both
-- operands without narrowing, and is never `smallint`.
widen_takes_both :
    (a b : Scalar)
    → is_numeric a ≡ true
    → is_numeric b ≡ true
    → (scalar_fits a (widen a b) ≡ true)
      × (scalar_fits b (widen a b) ≡ true)
      × (is_numeric (widen a b) ≡ true)
      × (scalar_eq (widen a b) smallint ≡ false)
unfolding scalar_fits widen is_numeric scalar_eq
widen_takes_both smallint b h k = ground arith
widen_takes_both a b h k = ground arith

-- Past the tests on a sum or a difference, an instant or an interval is all that is left.
add_instants-not_numeric :
    (a b c : Scalar) → is_numeric c ≡ true → add_instants a b ≢ some (scalar c)
unfolding is_numeric
add_instants-not_numeric date b c n h = ground arith
add_instants-not_numeric a b c n h = ground arith

sub_instants-not_numeric :
    (a b c : Scalar) → is_numeric c ≡ true → sub_instants a b ≢ some (scalar c)
unfolding is_numeric
sub_instants-not_numeric date b c n h = ground arith
sub_instants-not_numeric a b c n h = ground arith

integer_is_numeric : (a : Scalar) → is_integer a ≡ true → is_numeric a ≡ true
unfolding is_numeric
integer_is_numeric a h = ground arith

text_not_numeric : is_numeric text ≡ false
unfolding is_numeric
text_not_numeric = refl

sum_not_numeric :
    (texts : Bool) (a b c : Scalar)
    → is_numeric c ≡ true
    → (if texts then some (scalar text) else add_instants a b) ≢ some (scalar c)
sum_not_numeric true a b c n h = ground (arith, text_not_numeric)
sum_not_numeric false a b c n h = add_instants-not_numeric a b c n h

split_numeric :
    (p q : Bool) (w : Scalar) (rest : Option Ty) (c : Scalar)
    → rest ≢ some (scalar c)
    → (if p && q then some (scalar w) else rest) ≡ some (scalar c)
    → (p ≡ true) × (q ≡ true) × (c ≡ w)
split_numeric p q w rest c ne h = ground arith

numeric_operands :
    (op : BinOp) (a b c : Scalar)
    → is_numeric c ≡ true
    → arith_scalars op a b ≡ some (scalar c)
    → (is_numeric a ≡ true) × (is_numeric b ≡ true) × (c ≡ widen a b)
unfolding arith_scalars
numeric_operands add a b c n h =
    split_numeric _ _ _ _ c (sum_not_numeric (is_text a && is_text b) a b c n) h
numeric_operands sub a b c n h = split_numeric _ _ _ _ c (sub_instants-not_numeric a b c n) h
numeric_operands mul a b c n h = split_numeric _ _ _ none c (λ e. cc) h
numeric_operands div a b c n h = split_numeric _ _ _ none c (λ e. cc) h
numeric_operands rem a b c n h =
    let (p, q, e) = split_numeric _ _ _ none c (λ e. cc) h in
    (integer_is_numeric a p, integer_is_numeric b q, e)
numeric_operands and a b c n h = cc
numeric_operands _ a b c n h = cc

-- Where the arithmetic of two scalars is typed by a number, both operands fit its type, and it is not
-- `smallint`.
pub arith_takes_both :
    (op : BinOp) (a b c : Scalar)
    → is_numeric c ≡ true
    → type_of_arith op (scalar a) (scalar b) ≡ some (scalar c)
    → (scalar_fits a c ≡ true) × (scalar_fits b c ≡ true) × (scalar_eq c smallint ≡ false)
unfolding type_of_arith
arith_takes_both op a b c n h =
    let (na, nb, e) = numeric_operands op a b c n h in
    let (fa, fb, _, s) = widen_takes_both a b na nb in rw e (fa, fb, s)

ty_eq_comm : (a b : Ty) → ty_eq a b ≡ ty_eq b a
ty_eq_comm a b = ground (arith, eq_of-ty_eq a b, eq_of-ty_eq b a, ty_eq_refl a)

and_comm : (a b : Bool) → (a && b) ≡ (b && a)
and_comm a b = ground arith

same_class_comm : (x y : Scalar) → same_class x y ≡ same_class y x
unfolding same_class
same_class_comm x y =
    rw (and_comm (is_numeric x) (is_numeric y)) (rw (and_comm (is_text x) (is_text y)) refl)

comparable_scalars_comm : (o p : Option Scalar) → comparable_scalars o p ≡ comparable_scalars p o
comparable_scalars_comm (some x) (some y) = same_class_comm x y
comparable_scalars_comm (some x) none = refl
comparable_scalars_comm none (some x) = refl
comparable_scalars_comm none none = refl

-- Whether two types can be compared does not depend on their order.
pub comparable_comm : (a b : Ty) → comparable a b ≡ comparable b a
unfolding comparable
comparable_comm a b = ground (
  arith,
  ty_eq_comm (strip_opt a) (strip_opt b),
  comparable_scalars_comm (as_scalar (strip_opt a)) (as_scalar (strip_opt b)),
)

eq_refl_of_scalar_eq : (x y : Scalar) → scalar_eq x y ≡ true → ty_eq (scalar x) (scalar y) ≡ true
unfolding ty_eq
eq_refl_of_scalar_eq x y h = h

-- Wherever an order is defined, equality is.
pub comparable_of_orderable : (a b : Ty) → orderable a b ≡ true → comparable a b ≡ true
unfolding comparable orderable
comparable_of_orderable (scalar x) (scalar y) h = ground (arith, eq_refl_of_scalar_eq x y)
comparable_of_orderable unknown b h = refl
comparable_of_orderable a unknown h = ground arith
comparable_of_orderable a b h = ground arith
