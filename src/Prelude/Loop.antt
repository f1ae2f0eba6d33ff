-- ===== src/Prelude/Loop.antt =====
-- A `loop { … }` whose body goes on with a new state or breaks with a result.
use Prim.Native.Nat.{ℕ, zero, suc, ◌<◌}
use mathlib.Core.Option.{Option, none, some, some-injective}
use mathlib.Core.Path.{◌≡◌, refl, subst}
use native.Mathlib.Omega.{arith}

pub data Flow {ℓ} (S R : Type ℓ) : Type ℓ where
  again : S → Flow S R
  break : R → Flow S R

module _ {ℓ} {S R : Type ℓ} where
  -- `none` where the fuel runs out, in this loop or in one that the body runs.
  unfoldable pub loop : ℕ → (S → Option (Flow S R)) → S → Option R
  loop zero body s = none
  loop (suc fuel) body s = elim (body s) [
    | none ↦ none
    | some (again s') ↦ loop fuel body s'
    | some (break r) ↦ some r
  ]

  pub loop_again :
      (fuel : ℕ) (body : S → Option (Flow S R)) (s s' : S)
      → body s ≡ some (again s')
      → loop (suc fuel) body s ≡ loop fuel body s'
  unfolding loop
  loop_again fuel body s s' e = rw (e, loop) refl

  pub loop_break :
      (fuel : ℕ) (body : S → Option (Flow S R)) (s : S) (r : R)
      → body s ≡ some (break r)
      → loop (suc fuel) body s ≡ some r
  unfolding loop
  loop_break fuel body s r e = rw (e, loop) refl

  -- What one round does: it keeps `P` and lowers the measure, or ends with `Q`.
  abbrev pub Round : (S → Type 0) → (R → Type 0) → (S → ℕ) → S → Option (Flow S R) → Type 0
  Round P Q m s none = ⊥
  Round P Q m s (some (again s')) = P s' × (m s' < m s)
  Round P Q m s (some (break r)) = Q r

module _ {ℓ} {S R : Type ℓ} (P : S → Type 0) (Q : R → Type 0) (m : S → ℕ)
    (body : S → Option (Flow S R)) (round : (s : S) → P s → Round P Q m s (body s)) where
  -- One round, then the rest of the loop.
  loop_after :
      (fuel : ℕ) (s : S) (o : Option (Flow S R))
      → body s ≡ o
      → Round P Q m s o
      → ((s' : S) → m s' < m s → P s' → (r : R) × (loop fuel body s' ≡ some r) × Q r)
      → (r : R) × (loop (suc fuel) body s ≡ some r) × Q r
  unfolding loop
  loop_after fuel s none e h rest = absurd h
  loop_after fuel s (some (again s')) e h rest =
      let (r, done, q) = rest s' h.1 h.0 in (r, rw (e, loop) done, q)
  loop_after fuel s (some (break r)) e h rest = (r, rw (e, loop) refl, h)

  -- With fuel above the measure the loop ends, with a result that has `Q`.
  pub loop_ends :
      (fuel : ℕ) (s : S) → m s < fuel → P s → (r : R) × (loop fuel body s ≡ some r) × Q r
  loop_ends zero s lt p = absurd (omega arith)
  loop_ends (suc fuel) s lt p =
      loop_after fuel s (body s) refl (round s p) (λ s' less p'. loop_ends fuel s' (omega arith) p')

module _ {ℓ} {S R : Type ℓ} (P : S → Type 0) (Q : R → Type 0) where
  -- What one round does, when it ends: it keeps `P`, or ends with `Q`.
  abbrev pub Kept : Option (Flow S R) → Type 0
  Kept none = Unit
  Kept (some (again s)) = P s
  Kept (some (break r)) = Q r

  module _ (body : S → Option (Flow S R)) (round : (s : S) → P s → Kept (body s)) where
    loop_keeps_after :
        (fuel : ℕ) (s : S) (r : R) (o : Option (Flow S R))
        → body s ≡ o
        → Kept o
        → ((s' : S) → P s' → loop fuel body s' ≡ some r → Q r)
        → loop (suc fuel) body s ≡ some r
        → Q r
    unfolding loop
    loop_keeps_after fuel s r none e k rest h =
        let no_result : none ≡ some r = rw (e, loop) at h in cc
    loop_keeps_after fuel s r (some (again s')) e k rest h = rest s' k (rw (e, loop) at h)
    loop_keeps_after fuel s r (some (break t)) e k rest h =
        let same : some t ≡ some r = rw (e, loop) at h in subst Q (some-injective t r same) k

    -- What the loop returns has `Q`, whatever the fuel.
    pub loop_keeps : (fuel : ℕ) (s : S) (r : R) → P s → loop fuel body s ≡ some r → Q r
    unfolding loop
    loop_keeps zero s r p h = cc
    loop_keeps (suc fuel) s r p h =
        loop_keeps_after fuel s r (body s) refl (round s p) (λ s' p' h'. loop_keeps fuel s' r p' h')
          h
