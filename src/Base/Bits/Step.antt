-- ===== src/Base/Bits/Step.antt =====
-- The lowest digit of `bit_and` and `bit_or`, and induction by halving: what the native operations
-- stand for is a recursion on binary digits, where fuel beyond the number itself changes nothing.
use Prim.Native.Nat.{ℕ, zero, suc, ◌+◌, ◌-◌, ◌*◌, ◌/◌, ◌%◌, ◌≤◌, min, max, digits, bitwise}
use Prim.Native.Nat.{bit_and, bit_or, bit_and-bitwise, bit_or-bitwise}
use native.Mathlib.Omega.{arith}
use mathlib.Core.Path.{◌≡◌, refl, ap, ◌∙◌}

module _ {ℓ} (P : ℕ → Type ℓ) (base : P 0) (step : (a : ℕ) → P (a / 2) → P a) where
  up_to : (bound a : ℕ) → a ≤ bound → P a
  up_to bound zero h = base
  up_to zero (suc a) h = absurd (omega arith)
  up_to (suc bound) (suc a) h = step (suc a) (up_to bound (suc a / 2) (omega arith))

  pub halving : (a : ℕ) → P a
  halving a = up_to a a (omega arith)

module _ (edge : ℕ → ℕ) (op : ℕ → ℕ → ℕ) where
  one_more : (fuel x y : ℕ) → x ≤ fuel → digits edge op (suc fuel) x y ≡ digits edge op fuel x y
  one_more zero zero y h = refl
  one_more (suc fuel) zero y h = refl
  one_more zero (suc x) y h = absurd (omega arith)
  one_more (suc fuel) (suc x) y h =
      ap (λ r. r * 2 + op (suc x % 2) (y % 2)) (one_more fuel (suc x / 2) (y / 2) (omega arith))

  surplus :
      (extra fuel x y : ℕ) → x ≤ fuel → digits edge op (extra + fuel) x y ≡ digits edge op fuel x y
  surplus zero fuel x y h =
      let same : 0 + fuel ≡ fuel = omega arith in ap (λ n. digits edge op n x y) same
  surplus (suc extra) fuel x y h =
      let same : suc extra + fuel ≡ suc (extra + fuel) = omega arith in
      ap (λ n. digits edge op n x y) same
      ∙ one_more (extra + fuel) x y (omega arith)
      ∙ surplus extra fuel x y h

  lowest :
      (x y : ℕ)
      → bitwise edge op (suc x) y ≡ 2 * bitwise edge op (suc x / 2) (y / 2) + op (suc x % 2) (y % 2)
  lowest x y =
      let half = suc x / 2 in
      let parts : x ≡ x - half + half = omega arith in
      let rest : digits edge op x half (y / 2) ≡ digits edge op half half (y / 2) =
        ap (λ n. digits edge op n half (y / 2)) parts
        ∙ surplus (x - half) half half (y / 2) (omega arith) in
      omega (arith, rest)

-- A conjunction has the smaller of the two lowest digits.
pub bit_and_step : (a b : ℕ) → bit_and a b ≡ 2 * bit_and (a / 2) (b / 2) + min (a % 2) (b % 2)
bit_and_step zero b = simp bit_and-bitwise (omega arith)
bit_and_step (suc a) b = simp bit_and-bitwise (lowest (λ y. 0) min a b)

-- A disjunction has the larger one.
pub bit_or_step : (a b : ℕ) → bit_or a b ≡ 2 * bit_or (a / 2) (b / 2) + max (a % 2) (b % 2)
bit_or_step zero b = simp bit_or-bitwise (omega arith)
bit_or_step (suc a) b = simp bit_or-bitwise (lowest (λ y. y) max a b)
