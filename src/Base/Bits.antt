-- ===== src/Base/Bits.antt =====
-- Bits of machine words: the casts, the test of one bit by a mask, and its value.
mod Step
pub use Step.*
use Prim.Native.Nat.{ℕ, zero, suc, ◌+◌, ◌-◌, ◌*◌, ◌/◌, ◌%◌, ◌^◌, ◌≤◌, ◌<◌, bit_and, bit_or, min}
use native.Mathlib.Nat.{
  pow-suc, one-le-pow, div-div-eq-div-mul, div-add-mod, mod-lt, mod-eq_of_lt, mul-add-mod_self_left,
}
use native.Mathlib.Omega.{arith}
use mathlib.Core.Bool.{Bool, true, false, not}
use mathlib.Core.Path.{◌≡◌, refl, ap, ◌∙◌, ◌≡⟨◌⟩◌, ◌∎}
use mathlib.Core.WellFounded
use zmap_embedded_ip.Base.Tests.{◌==◌, leb}

abbrev pub u8 : ℕ → ℕ
u8 n = n % 2 ^ 8

abbrev pub u16 : ℕ → ℕ
u16 n = n % 2 ^ 16

abbrev pub u32 : ℕ → ℕ
u32 n = n % 2 ^ 32

abbrev pub u64 : ℕ → ℕ
u64 n = n % 2 ^ 64

-- The C condition `x & mask`.
unfoldable pub has_bit : ℕ → ℕ → Bool
has_bit x mask = not (bit_and x mask == 0)

pub bit_and-zero : (a : ℕ) → bit_and a 0 ≡ 0
bit_and-zero = halving (λ a. bit_and a 0 ≡ 0) refl (λ a half. omega (arith, bit_and_step a 0, half))

pub half-pow : (k : ℕ) → 2 ^ suc k ≡ 2 * 2 ^ k
half-pow k = omega (arith, pow-suc 2 k)

pub pow-add : (j k : ℕ) → 2 ^ (j + k) ≡ 2 ^ j * 2 ^ k
pow-add zero k = let e : 0 + k ≡ k = omega arith in rw e (omega arith)
pow-add (suc j) k =
    let e : suc j + k ≡ suc (j + k) = omega arith in
    rw (e, half-pow (j + k), half-pow j, pow-add j k) (omega arith)

bit_and_double : (a p : ℕ) → bit_and a (2 * p) ≡ bit_and (a / 2) p * 2
bit_and_double a p =
    let e : 2 * p / 2 ≡ p = omega arith in
    let step : bit_and a (2 * p) ≡ 2 * bit_and (a / 2) (2 * p / 2) + min (a % 2) (2 * p % 2) =
      bit_and_step a (2 * p) in
    let step' : bit_and a (2 * p) ≡ 2 * bit_and (a / 2) p + min (a % 2) (2 * p % 2) =
      rw e at step in
    omega arith

-- A mask of one bit reads that bit.
pub bit_and-pow : (k a : ℕ) → bit_and a (2 ^ k) ≡ a / 2 ^ k % 2 * 2 ^ k
bit_and-pow zero a = omega (arith, bit_and_step a 1, bit_and-zero (a / 2))
bit_and-pow (suc k) a =
    rw (half-pow k, bit_and_double a (2 ^ k), bit_and-pow k (a / 2), div-div-eq-div-mul a 2 (2 ^ k))
      (omega arith)

pub has_bit-pow : (k a : ℕ) → has_bit a (2 ^ k) ≡ (a / 2 ^ k % 2 == 1)
unfolding has_bit
has_bit-pow k a = rw (bit_and-pow k a) (grind (arith, one-le-pow k 2))

-- The remainder by `2 * p` is the bit of weight `p` and the remainder by `p`.
pub mod_double : (a p : ℕ) → 0 < p → a % (2 * p) ≡ a / p % 2 * p + a % p
mod_double a p h =
    let b = a / p % 2 in
    let q = a / p / 2 in
    let whole : a ≡ 2 * p * q + (b * p + a % p) =
      omega (arith, div-add-mod a p, ap (λ (t : ℕ). p * t) (div-add-mod (a / p) 2)) in
    let low : b * p + a % p < 2 * p = grind (arith, mod-lt a h) in
    a % (2 * p)
    ≡⟨ ap (λ t. t % (2 * p)) whole ⟩ (2 * p * q + (b * p + a % p)) % (2 * p)
    ≡⟨ mul-add-mod_self_left (2 * p) q (b * p + a % p) ⟩ (b * p + a % p) % (2 * p)
    ≡⟨ mod-eq_of_lt low ⟩ b * p + a % p ∎

pub has_bit-zero : (a : ℕ) → has_bit a 0 ≡ false
unfolding has_bit
has_bit-zero a = rw (bit_and-zero a) refl

-- With one more bit, the top bit says in which half the remainder lies.
pub has_bit-half : (k a : ℕ) → has_bit a (2 ^ k) ≡ leb (2 ^ k) (a % 2 ^ suc k)
has_bit-half k a =
    let pos : 0 < 2 ^ k = one-le-pow k 2 (omega arith) in
    rw (has_bit-pow k a, half-pow k, mod_double a (2 ^ k) pos) (grind (arith, mod-lt a pos))

pub bit_or-zero : (a : ℕ) → bit_or a 0 ≡ a
bit_or-zero = halving (λ a. bit_or a 0 ≡ a) refl (λ a half. omega (arith, bit_or_step a 0, half))

-- `|` of a multiple of `2 ^ k` and a number below `2 ^ k` is their sum.
pub bit_or-add : (k q r : ℕ) → r < 2 ^ k → bit_or (q * 2 ^ k) r ≡ q * 2 ^ k + r
bit_or-add zero q r fits = ground (arith, bit_or-zero q)
bit_or-add (suc k) q r fits =
    let e : q * 2 ^ suc k ≡ 2 * (q * 2 ^ k) = omega (arith, ap (λ (t : ℕ). q * t) (half-pow k)) in
    ground (
      arith,
      e,
      half-pow k,
      bit_or_step (q * 2 ^ suc k) r,
      bit_or-add k q (r / 2) (omega (arith, half-pow k)),
    )

mod_halved : (a p : ℕ) → 0 < p → a % (2 * p) ≡ a / 2 % p * 2 + a % 2
mod_halved a p h =
    let q = a / 2 / p in
    let r = a / 2 % p in
    let whole : a ≡ 2 * p * q + (r * 2 + a % 2) = omega (arith, div-add-mod (a / 2) p) in
    let low : r * 2 + a % 2 < 2 * p = omega (arith, mod-lt (a / 2) h) in
    ap (λ t. t % (2 * p)) whole ∙ mul-add-mod_self_left (2 * p) q (r * 2 + a % 2) ∙ mod-eq_of_lt low

low_mask_half : (k : ℕ) → (2 ^ suc k - 1) / 2 ≡ 2 ^ k - 1
low_mask_half k = omega (arith, half-pow k, one-le-pow k 2 (omega arith))

-- A mask of `k` ones takes the remainder by `2 ^ k`.
pub bit_and-mask : (k a : ℕ) → bit_and a (2 ^ k - 1) ≡ a % 2 ^ k
bit_and-mask zero a = rw (bit_and-zero a) (omega arith)
bit_and-mask (suc k) a =
    let pos : 0 < 2 ^ k = one-le-pow k 2 (omega arith) in
    let odd : (2 ^ suc k - 1) % 2 ≡ 1 = omega (arith, half-pow k) in
    let e : a % (2 * 2 ^ k) ≡ a / 2 % 2 ^ k * 2 + a % 2 = mod_halved a (2 ^ k) pos in
    rw (bit_and_step a (2 ^ suc k - 1), low_mask_half k, odd, bit_and-mask k (a / 2), half-pow k, e)
      (omega arith)
