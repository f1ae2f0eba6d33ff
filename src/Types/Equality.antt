-- ===== src/Types/Equality.antt =====
-- src/types.rs: the derived equality of types.
use jwc_lang.Prelude.{ℕ, zero, suc, true, eq_iff, eq_refl, ◌≡◌, refl, sym, ap, ◌∙◌, arith}
use jwc_lang.Types.{
  Scalar, smallint, int, bigint, numeric, boolean, varchar, text, timestamptz, date, time, interval,
  uuid, jsonb, inet, bytea, Ty, Fields, end, field, scalar, enum, class, record_of, raw, array,
  optional, response, null, void, unknown,
}
use jwc_lang.Types.Assign.{position, scalar_eq, ty_eq, fields_eq}

at : ℕ → Scalar
at zero = smallint
at (suc zero) = int
at (suc (suc zero)) = bigint
at (suc (suc (suc zero))) = numeric
at (suc (suc (suc (suc zero)))) = boolean
at (suc (suc (suc (suc (suc zero))))) = varchar
at (suc (suc (suc (suc (suc (suc zero)))))) = text
at (suc (suc (suc (suc (suc (suc (suc zero))))))) = timestamptz
at (suc (suc (suc (suc (suc (suc (suc (suc zero)))))))) = date
at (suc (suc (suc (suc (suc (suc (suc (suc (suc zero))))))))) = time
at (suc (suc (suc (suc (suc (suc (suc (suc (suc (suc zero)))))))))) = interval
at (suc (suc (suc (suc (suc (suc (suc (suc (suc (suc (suc zero))))))))))) = uuid
at (suc (suc (suc (suc (suc (suc (suc (suc (suc (suc (suc (suc zero)))))))))))) = jsonb
at (suc (suc (suc (suc (suc (suc (suc (suc (suc (suc (suc (suc (suc zero))))))))))))) = inet
at _ = bytea

at-position : (s : Scalar) → at (position s) ≡ s
unfolding at
at-position smallint = refl
at-position _ = refl

pub eq_of-scalar_eq : (a b : Scalar) → scalar_eq a b ≡ true → a ≡ b
unfolding scalar_eq
eq_of-scalar_eq a b h = sym (at-position a) ∙ ap at (ground arith) ∙ at-position b

pub scalar_eq_refl : (a : Scalar) → scalar_eq a a ≡ true
unfolding scalar_eq
scalar_eq_refl a = ground arith

mutual
  unfolding ty_eq

  pub eq_of-ty_eq : (a b : Ty) → ty_eq a b ≡ true → a ≡ b
  eq_of-ty_eq (scalar a) (scalar b) h = ap scalar (eq_of-scalar_eq a b h)
  eq_of-ty_eq (enum a) (enum b) h = ap enum ((eq_iff a b).0 h)
  eq_of-ty_eq (class a) (class b) h = ap class ((eq_iff a b).0 h)
  eq_of-ty_eq (record_of a) (record_of b) h = ap record_of (eq_of-fields_eq a b h)
  eq_of-ty_eq raw raw h = refl
  eq_of-ty_eq (array a) (array b) h = ap array (eq_of-ty_eq a b h)
  eq_of-ty_eq (optional a) (optional b) h = ap optional (eq_of-ty_eq a b h)
  eq_of-ty_eq response response h = refl
  eq_of-ty_eq null null h = refl
  eq_of-ty_eq void void h = refl
  eq_of-ty_eq unknown unknown h = refl
  eq_of-ty_eq _ _ h = cc

  pub eq_of-fields_eq : (a b : Fields) → fields_eq a b ≡ true → a ≡ b
  eq_of-fields_eq end end h = refl
  eq_of-fields_eq (field m a us) (field n b vs) h =
      ground (arith, eq_iff m n, eq_of-ty_eq a b, eq_of-fields_eq us vs)
  eq_of-fields_eq _ _ h = cc

mutual
  unfolding ty_eq

  pub ty_eq_refl : (a : Ty) → ty_eq a a ≡ true
  ty_eq_refl (scalar a) = scalar_eq_refl a
  ty_eq_refl (enum a) = eq_refl a
  ty_eq_refl (class a) = eq_refl a
  ty_eq_refl (record_of a) = fields_eq_refl a
  ty_eq_refl (array a) = ty_eq_refl a
  ty_eq_refl (optional a) = ty_eq_refl a
  ty_eq_refl _ = refl

  pub fields_eq_refl : (a : Fields) → fields_eq a a ≡ true
  fields_eq_refl end = refl
  fields_eq_refl (field m a us) = ground (arith, eq_refl m, ty_eq_refl a, fields_eq_refl us)
