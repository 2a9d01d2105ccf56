-- ===== src/Iterator/Complete.antt =====
-- src/iterator.c: the number of bits for a count.
use zmap_embedded_ip.Base.{
  ℕ, zero, suc, ◌+◌, ◌-◌, ◌*◌, ◌/◌, ◌%◌, ◌^◌, ◌≤◌, ◌<◌, ◌≡◌, refl, true, inl, inr, Bool-cases,
  half-pow, ◌==◌, arith,
}
use zmap_embedded_ip.Iterator.{bits_loop, bits_needed}

bits_loop-add : (fuel n r : ℕ) → bits_loop fuel n r ≡ bits_loop fuel n 0 + r
unfolding bits_loop
bits_loop-add zero n r = omega arith
bits_loop-add (suc fuel) n r =
    ground (arith, bits_loop-add fuel (n / 2) (r + 1), bits_loop-add fuel (n / 2) 1)

bits_loop-zero : (fuel n : ℕ) → (n == 0) ≡ true → bits_loop fuel n 0 ≡ 0
unfolding bits_loop
bits_loop-zero zero n h = refl
bits_loop-zero (suc fuel) n h = rw h refl

bits_loop-next : (fuel n : ℕ) → 0 < n → bits_loop (suc fuel) n 0 ≡ suc (bits_loop fuel (n / 2) 0)
unfolding bits_loop
bits_loop-next fuel n h = ground (arith, bits_loop-add fuel (n / 2) 1)

bits_loop-bounds :
    (fuel n : ℕ)
    → n < 2 ^ fuel
    → (n < 2 ^ bits_loop fuel n 0) × (0 < n → 2 ^ bits_loop fuel n 0 ≤ 2 * n)
unfolding bits_loop
bits_loop-bounds zero n h = (h, λ pos. omega arith)
bits_loop-bounds (suc fuel) n h =
    let half : n / 2 < 2 ^ fuel = omega (arith, half-pow fuel) in
    let ih = bits_loop-bounds fuel (n / 2) half in
    elim (Bool-cases (n == 0)) [
      | inl e ↦ rw e (ground arith, λ pos. ground arith)
      | inr e ↦
          let pos : 0 < n = ground arith in
          let halves : (0 < n / 2 → 2 ^ bits_loop fuel (n / 2) 0 ≤ 2 * (n / 2))
              → 2 * 2 ^ bits_loop fuel (n / 2) 0 ≤ 2 * n =
            λ above. elim (Bool-cases (n / 2 == 0)) [
              | inl z ↦ rw (bits_loop-zero fuel (n / 2) z) (ground arith)
              | inr z ↦ let a : 0 < n / 2 = ground arith in omega (arith, above a)
            ] in
          rw (bits_loop-next fuel n pos, half-pow (bits_loop fuel (n / 2) 0))
            (omega (arith, ih.0), λ p. halves ih.1)
    ]

bits_of-bounds :
    (fuel x n : ℕ)
    → 0 < n
    → x ≡ n - 1
    → x < 2 ^ fuel
    → (n ≤ 2 ^ bits_loop fuel x 0) × (2 ^ bits_loop fuel x 0 < 2 * n)
unfolding bits_loop
bits_of-bounds fuel x n pos less h =
    let bounds = bits_loop-bounds fuel x h in
    (
      omega (arith, bounds.0),
      elim (Bool-cases (x == 0)) [
        | inl z ↦ rw (bits_loop-zero fuel x z) (ground arith)
        | inr z ↦ let a : 0 < x = ground arith in omega (arith, bounds.1 a)
      ],
    )

-- `bits_needed` of a count from 1 to 2^64 - 1 is the smallest number of bits for the numbers below
-- the count: `2 ^ bits` is at least the count, and less than twice the count.
pub bits_needed-bounds :
    (n : ℕ) → 0 < n → n < 2 ^ 64 → (n ≤ 2 ^ bits_needed n) × (2 ^ bits_needed n < 2 * n)
unfolding bits_needed
bits_needed-bounds n pos h =
    bits_of-bounds 64 ((n + 2 ^ 64 - 1) % 2 ^ 64) n pos (omega arith) (omega arith)
