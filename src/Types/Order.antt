-- ===== src/Types/Order.antt =====
-- src/types.rs: `assignable_to` as an order on types.
use jwc_lang.Prelude.{
  true, some, String, ◌≡◌, refl, ap, ◌∙◌, subst, arith, str_eq, Bool-cases, inl, inr,
}
use jwc_lang.Types.{
  Scalar, smallint, jsonb, Ty, Fields, end, field, scalar, enum, record_of, raw, array, optional,
  null, unknown,
}
use jwc_lang.Types.Assign.{scalar_fits, fits_scalar, find_field, assignable_to, fields_fit}
use jwc_lang.Types.Targets.{
  unknown_target, fields_fit_end, to_array, to_record, to_optional, to_exact, optional_of,
  null_to_optional, unknown_to, array_of, record_of_lem, to_scalar, scalar_of, fields_fit_head,
  fields_fit_tail, fields_fit_cons, find_field_fits, IsExact,
}

scalar_fits_trans :
    (a b c : Scalar) → scalar_fits a b ≡ true → scalar_fits b c ≡ true → scalar_fits a c ≡ true
unfolding scalar_fits
scalar_fits_trans smallint b c h k = ground arith
scalar_fits_trans _ b c h k = ground arith

-- `Unknown`, which stands for an error already reported, occurs nowhere in the type.
abbrev mutual
  pub IsKnown : Ty → Type 0
  IsKnown unknown = ⊥
  IsKnown (record_of f) = AreKnown f
  IsKnown (array t) = IsKnown t
  IsKnown (optional t) = IsKnown t
  IsKnown _ = Unit

  pub AreKnown : Fields → Type 0
  AreKnown end = Unit
  AreKnown (field n t rest) = IsKnown t × AreKnown rest

find_field-IsKnown :
    (name : String) (f : Fields) (t : Ty) → AreKnown f → find_field name f ≡ some t → IsKnown t
unfolding find_field
find_field-IsKnown name end t h e = cc
find_field-IsKnown name (field n w rest) t h e = elim (Bool-cases (str_eq n name)) [
  | inl same ↦ subst IsKnown {x = w} {y = t} (ground arith) h.0
  | inr other ↦ find_field-IsKnown name rest t h.1 (ground arith)
]

exact_trans :
    (a b c : Ty)
    → IsExact c
    → IsKnown b
    → assignable_to a b ≡ true
    → assignable_to b c ≡ true
    → assignable_to a c ≡ true
exact_trans a b c x known h k = elim (to_exact b c x k) [
  | inl e ↦ absurd (subst IsKnown e known)
  | inr e ↦ rw e at h
]

jsonb_of_record : (f : Fields) (s : Scalar) → fits_scalar (record_of f) s ≡ true → s ≡ jsonb
jsonb_of_record f jsonb k = refl
jsonb_of_record f _ k = cc

jsonb_of_array : (t : Ty) (s : Scalar) → fits_scalar (array t) s ≡ true → s ≡ jsonb
jsonb_of_array t jsonb k = refl
jsonb_of_array t _ k = cc

raw_to_scalar :
    (a : Ty) (s : Scalar)
    → fits_scalar raw s ≡ true
    → assignable_to a raw ≡ true
    → assignable_to a (scalar s) ≡ true
raw_to_scalar a s k h = elim (to_exact a raw tt h) [
  | inl e ↦ unknown_to a (scalar s) e
  | inr e ↦ rw e (scalar_of raw s k)
]

-- a source that fits a scalar without being one fits every scalar that takes it
fits_scalar_chain :
    (a : Ty) (t s : Scalar)
    → fits_scalar a t ≡ true
    → scalar_fits t s ≡ true
    → fits_scalar a s ≡ true
unfolding scalar_fits
fits_scalar_chain (scalar x) t s h k = scalar_fits_trans x t s h k
fits_scalar_chain (record_of f) t s h k = ground arith
fits_scalar_chain (array u) t s h k = ground arith
fits_scalar_chain _ t s h k = ground arith

fits_scalar_trans :
    (a b : Ty) (s : Scalar)
    → assignable_to a b ≡ true
    → fits_scalar b s ≡ true
    → assignable_to a (scalar s) ≡ true
fits_scalar_trans a (record_of f) s h k = elim (to_record a f h) [
  | inl e ↦ unknown_to a (scalar s) e
  | inr (g, e, _) ↦ rw (e, jsonb_of_record f s k) (scalar_of (record_of g) jsonb refl)
]
fits_scalar_trans a (array t) s h k = elim (to_array a t h) [
  | inl e ↦ unknown_to a (scalar s) e
  | inr (c, e, _) ↦ rw (e, jsonb_of_array t s k) (scalar_of (array c) jsonb refl)
]
fits_scalar_trans a (scalar t) s h k = elim (to_scalar a t h) [
  | inl e ↦ unknown_to a (scalar s) e
  | inr (inl e) ↦ rw e (scalar_of (scalar t) s k)
  | inr (inr h') ↦ scalar_of a s (fits_scalar_chain a t s h' k)
]
fits_scalar_trans a raw s h k = raw_to_scalar a s k h
fits_scalar_trans a b s h k = cc

mutual
  known_trans :
      (a b c : Ty)
      → IsKnown b
      → assignable_to a b ≡ true
      → assignable_to b c ≡ true
      → assignable_to a c ≡ true
  known_trans a b unknown known h k = unknown_target a
  known_trans a b (optional t) known h k = elim (to_optional b t k) [
    | inl e ↦ absurd (subst IsKnown e known)
    | inr (inl e) ↦ rw e at h
    | inr (inr (inl e)) ↦ elim (to_exact a null tt (rw e at h)) [
      | inl e' ↦ unknown_to a (optional t) e'
      | inr e' ↦ rw e' (null_to_optional t)
    ]
    | inr (inr (inr k')) ↦ optional_of a t (known_trans a b t known h k')
  ]
  known_trans a b (array t) known h k = elim (to_array b t k) [
    | inl e ↦ absurd (subst IsKnown e known)
    | inr (c, e, k') ↦ elim (to_array a c (rw e at h)) [
      | inl e' ↦ unknown_to a (array t) e'
      | inr (d, e', h') ↦ rw e' (array_of d t (known_trans d c t (subst IsKnown e known) h' k'))
    ]
  ]
  known_trans a b (record_of f) known h k = elim (to_record b f k) [
    | inl e ↦ absurd (subst IsKnown e known)
    | inr (g, e, inl e₂) ↦ subst (λ x. assignable_to a x ≡ true) (e ∙ ap record_of e₂) h
    | inr (g, e, inr k') ↦ elim (to_record a g (rw e at h)) [
      | inl e' ↦ unknown_to a (record_of f) e'
      | inr (d, e', inl e₂) ↦ rw (e', e₂) (record_of_lem g f k')
      | inr (d, e', inr h') ↦
          rw e' (record_of_lem d f (known_fields_trans d g f (subst IsKnown e known) h' k'))
    ]
  ]
  known_trans a b (scalar s) known h k = elim (to_scalar b s k) [
    | inl e ↦ absurd (subst IsKnown e known)
    | inr (inl e) ↦ rw e at h
    | inr (inr k') ↦ fits_scalar_trans a b s h k'
  ]
  known_trans a b (enum n) known h k = exact_trans a b (enum n) tt known h k
  known_trans a b c known h k = exact_trans a b c tt known h k

  known_fields_trans :
      (f g e : Fields)
      → AreKnown g
      → fields_fit f g ≡ true
      → fields_fit g e ≡ true
      → fields_fit f e ≡ true
  known_fields_trans f g end known h k = fields_fit_end f
  known_fields_trans f g (field n w rest) known h k =
      let (t, found, fit) = fields_fit_head g n w rest k in
      let (u, found', fit') = find_field_fits n f g t h found in
      fields_fit_cons f n w u rest found'
        (known_trans u t w (find_field-IsKnown n g t known found) fit' fit)
        (known_fields_trans f g rest known h (fields_fit_tail g n w rest k))

-- Assignability is transitive through a type that holds no `Unknown`, whatever the two ends hold.
pub assignable_to_trans :
    (a b c : Ty)
    → IsKnown b
    → assignable_to a b ≡ true
    → assignable_to b c ≡ true
    → assignable_to a c ≡ true
assignable_to_trans a b c known h k = known_trans a b c known h k
