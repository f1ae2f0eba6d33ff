-- ===== src/Types/Targets.antt =====
-- src/types.rs: what `assignable_to` accepts for each kind of target, and what is found by a name.
use mathlib.Core.Bool.{false≢true}
use jwc_lang.Prelude.{
  true, ◌||◌, some, String, ◌≡◌, refl, arith, eq_iff, str_eq, Bool-cases, Option-cases, ◌⊎◌, inl,
  inr,
}
use jwc_lang.Types.{
  Scalar, Ty, Fields, end, field, scalar, enum, record_of, array, optional, null, unknown,
}
use jwc_lang.Types.Assign.{is_unknown, fits_scalar, ty_eq, find_field, assignable_to, fields_fit}
use jwc_lang.Types.Equality.{eq_of-ty_eq, eq_of-fields_eq, ty_eq_refl}

-- Every type, also one with repeated field names, is assignable to itself.
pub assignable_to_refl : (a : Ty) → assignable_to a a ≡ true
unfolding assignable_to
assignable_to_refl (scalar s) = ground (arith, ty_eq_refl (scalar s))
assignable_to_refl (record_of f) = ground (arith, ty_eq_refl (record_of f))
assignable_to_refl (array t) = ground (arith, ty_eq_refl (array t))
assignable_to_refl (optional t) = ground (arith, ty_eq_refl (optional t))
assignable_to_refl unknown = refl
assignable_to_refl (enum n) = ground (arith, ty_eq_refl (enum n))
assignable_to_refl t = ground (arith, ty_eq_refl t)

pub unknown_target : (a : Ty) → assignable_to a unknown ≡ true
unfolding assignable_to
unknown_target a = refl

pub fields_fit_end : (f : Fields) → fields_fit f end ≡ true
unfolding fields_fit
fields_fit_end f = refl

is_unknown_or_eq : (a c : Ty) → (is_unknown a || ty_eq a c) ≡ true → (a ≡ unknown) ⊎ (a ≡ c)
is_unknown_or_eq unknown c h = inl refl
is_unknown_or_eq a c h = inr (eq_of-ty_eq a c h)

-- What is assignable to an array, a record, a scalar or an optional.
pub to_array :
    (a b : Ty)
    → assignable_to a (array b) ≡ true
    → (a ≡ unknown) ⊎ ((c : Ty) × (a ≡ array c) × (assignable_to c b ≡ true))
unfolding assignable_to ty_eq
to_array unknown b h = inl refl
to_array (array c) b h = inr (c, refl, ground (arith, eq_of-ty_eq c b, assignable_to_refl c))
to_array _ b h = cc

pub to_record :
    (a : Ty) (f : Fields)
    → assignable_to a (record_of f) ≡ true
    → (a ≡ unknown) ⊎ ((g : Fields) × (a ≡ record_of g) × ((g ≡ f) ⊎ (fields_fit g f ≡ true)))
unfolding assignable_to ty_eq
to_record unknown f h = inl refl
to_record (record_of g) f h = inr (g, refl, ground (arith, eq_of-fields_eq g f))
to_record _ f h = cc

pub to_optional :
    (a t : Ty)
    → assignable_to a (optional t) ≡ true
    → (a ≡ unknown) ⊎ ((a ≡ optional t) ⊎ ((a ≡ null) ⊎ (assignable_to a t ≡ true)))
unfolding assignable_to
to_optional unknown t h = inl refl
to_optional null t h = inr (inr (inl refl))
to_optional a t h = ground (arith, eq_of-ty_eq a (optional t))

-- the other targets take nothing but themselves
abbrev pub IsExact : Ty → Type 0
IsExact (scalar _) = ⊥
IsExact (record_of _) = ⊥
IsExact (array _) = ⊥
IsExact (optional _) = ⊥
IsExact unknown = ⊥
IsExact _ = Unit

pub to_exact : (a c : Ty) → IsExact c → assignable_to a c ≡ true → (a ≡ unknown) ⊎ (a ≡ c)
unfolding assignable_to
to_exact a (scalar s) x h = absurd x
to_exact a (record_of s) x h = absurd x
to_exact a (array s) x h = absurd x
to_exact a (optional s) x h = absurd x
to_exact a unknown x h = absurd x
to_exact a c x h = is_unknown_or_eq a c h

pub optional_of : (a t : Ty) → assignable_to a t ≡ true → assignable_to a (optional t) ≡ true
unfolding assignable_to
optional_of unknown t h = refl
optional_of a t h = ground arith

pub null_to_optional : (t : Ty) → assignable_to null (optional t) ≡ true
unfolding assignable_to
null_to_optional t = ground arith

pub unknown_to : (a t : Ty) → a ≡ unknown → assignable_to a t ≡ true
unfolding assignable_to
unknown_to a (optional t) e = rw e refl
unknown_to a (record_of t) e = rw e refl
unknown_to a (array t) e = rw e refl
unknown_to a (scalar t) e = rw e refl
unknown_to a unknown e = refl
unknown_to a t e = rw e refl

pub array_of : (a b : Ty) → assignable_to a b ≡ true → assignable_to (array a) (array b) ≡ true
unfolding assignable_to
array_of a b h = ground arith

pub record_of_lem :
    (f g : Fields) → fields_fit f g ≡ true → assignable_to (record_of f) (record_of g) ≡ true
unfolding assignable_to
record_of_lem f g h = ground arith

pub to_scalar :
    (a : Ty) (s : Scalar)
    → assignable_to a (scalar s) ≡ true
    → (a ≡ unknown) ⊎ ((a ≡ scalar s) ⊎ (fits_scalar a s ≡ true))
unfolding assignable_to
to_scalar unknown s h = inl refl
to_scalar a s h = ground (arith, eq_of-ty_eq a (scalar s))

pub scalar_of : (a : Ty) (s : Scalar) → fits_scalar a s ≡ true → assignable_to a (scalar s) ≡ true
unfolding assignable_to
scalar_of unknown s h = refl
scalar_of a s h = ground arith

pub fields_fit_head :
    (from : Fields) (name : String) (want : Ty) (rest : Fields)
    → fields_fit from (field name want rest) ≡ true
    → (have : Ty) × (find_field name from ≡ some have) × (assignable_to have want ≡ true)
unfolding fields_fit
fields_fit_head from name want rest h = elim (Option-cases (find_field name from)) [
  | inl e ↦ absurd (false≢true (rw (e, fields_fit) at h))
  | inr (have, e) ↦ (have, e, ground arith)
]

pub fields_fit_tail :
    (from : Fields) (name : String) (want : Ty) (rest : Fields)
    → fields_fit from (field name want rest) ≡ true
    → fields_fit from rest ≡ true
unfolding fields_fit
fields_fit_tail from name want rest h = ground arith

pub fields_fit_cons :
    (from : Fields) (name : String) (want have : Ty) (rest : Fields)
    → find_field name from ≡ some have
    → assignable_to have want ≡ true
    → fields_fit from rest ≡ true
    → fields_fit from (field name want rest) ≡ true
unfolding fields_fit
fields_fit_cons from name want have rest e h k = ground arith

-- What a name finds in the target, it finds in the source with a type that fits.
pub find_field_fits :
    (name : String) (from to : Fields) (t : Ty)
    → fields_fit from to ≡ true
    → find_field name to ≡ some t
    → (u : Ty) × (find_field name from ≡ some u) × (assignable_to u t ≡ true)
unfolding find_field
find_field_fits name from end t h e = cc
find_field_fits name from (field n w rest) t h e = elim (Bool-cases (str_eq n name)) [
  | inl same ↦
      let (u, found, fit) = fields_fit_head from n w rest h in
      (u, ground (arith, eq_iff n name), ground arith)
  | inr other ↦ find_field_fits name from rest t (fields_fit_tail from n w rest h) (ground arith)
]
