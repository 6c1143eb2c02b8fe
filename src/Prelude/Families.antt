-- ===== src/Prelude/Families.antt =====
-- Families indexed by task: a write at one index, and sums over the first `n`.
use Prim.Native.Nat.{ℕ, zero, suc, ◌+◌, ◌≤◌, ◌<◌}
use mathlib.Core.Path.{◌≡◌, refl, fun_ext}
use mathlib.Core.Logic.{◌≢◌}
use native.Mathlib.Decide.{dec_lt}
use native.Mathlib.Omega.{arith}
use mathlib.Core.Logic.{inl, inr}
use eneste_rs.Prelude.Tests.{◌==◌, if◌then◌else◌, Bool-cases}

abbrev pub update {ℓ} : {A : Type ℓ} → (ℕ → A) → ℕ → A → ℕ → A
update f i a j = if i == j then a else f j

pub update-update {ℓ} :
    {A : Type ℓ} (f : ℕ → A) (i : ℕ) (a b : A) → update (update f i a) i b ≡ update f i b
update-update f i a b =
    fun_ext λ j. elim (Bool-cases (i == j)) [ inl e ↦ rw e refl | inr e ↦ rw e refl ]

-- The sum of a weight over the tasks below `n`.
module _ {A : Type 0} (w : A → ℕ) where
  pub sum_below : ℕ → (ℕ → A) → ℕ
  sum_below zero f = 0
  sum_below (suc n) f = sum_below n f + w (f n)

  sum_below-update_out :
      (n : ℕ) (f : ℕ → A) (i : ℕ) (a : A) → n ≤ i → sum_below n (update f i a) ≡ sum_below n f
  unfolding sum_below
  sum_below-update_out zero f i a h = refl
  sum_below-update_out (suc n) f i a h = ground (arith, sum_below-update_out n f i a)

  pub sum_below-update :
      (n : ℕ) (f : ℕ → A) (i : ℕ) (a : A)
      → i < n
      → sum_below n (update f i a) + w (f i) ≡ sum_below n f + w a
  unfolding sum_below
  sum_below-update zero f i a h = absurd (omega arith)
  sum_below-update (suc n) f i a h = elim (dec_lt i n) [
    | yes p ↦ ground (arith, sum_below-update n f i a p)
    | no p ↦ ground (arith, sum_below-update_out n f i a)
  ]

  pub sum_below-ge : (n : ℕ) (f : ℕ → A) (i : ℕ) → i < n → w (f i) ≤ sum_below n f
  unfolding sum_below
  sum_below-ge zero f i h = absurd (omega arith)
  sum_below-ge (suc n) f i h = elim (dec_lt i n) [
    | yes p ↦ omega (arith, sum_below-ge n f i p)
    | no p ↦ ground arith
  ]

  -- Two different tasks count twice.
  pub sum_below-ge_two :
      (n : ℕ) (f : ℕ → A) (i j : ℕ) → i < n → j < n → i ≢ j → w (f i) + w (f j) ≤ sum_below n f
  unfolding sum_below
  sum_below-ge_two zero f i j hi hj ne = absurd (omega arith)
  sum_below-ge_two (suc n) f i j hi hj ne = elim (dec_lt i n) [
    | yes p ↦ elim (dec_lt j n) [
      | yes q ↦ omega (arith, sum_below-ge_two n f i j p q ne)
      | no q ↦ ground (arith, sum_below-ge n f i p)
    ]
    | no p ↦ ground (arith, sum_below-ge n f j)
  ]

  pub sum_below-zero : (n : ℕ) (f : ℕ → A) → ((i : ℕ) → w (f i) ≡ 0) → sum_below n f ≡ 0
  unfolding sum_below
  sum_below-zero zero f h = refl
  sum_below-zero (suc n) f h = omega (arith, sum_below-zero n f h, h n)

  pub sum_below-le : (n : ℕ) (f : ℕ → A) → ((a : A) → w a ≤ 1) → sum_below n f ≤ n
  unfolding sum_below
  sum_below-le zero f h = omega arith
  sum_below-le (suc n) f h = omega (arith, sum_below-le n f h, h (f n))
