-- ===== src/Constraint/Prefix.antt =====
-- lib/constraint.c: when an address lies in a prefix, as an equation between its leading bits and
-- those of the prefix, and how that equation goes down one level of the tree.
use zmap_embedded_ip.Base.{
  ℕ, suc, ◌+◌, ◌-◌, ◌*◌, ◌/◌, ◌^◌, ◌≤◌, ◌<◌, ◌≡◌, ap, ◌∙◌, Bool, true, false, refl, ◌==◌, u32,
  pow-add, arith,
}
use zmap_embedded_ip.Constraint.Tree.{pow-pos}
use native.Mathlib.Nat.{add-mul-div_right, div-lt_iff_lt-mul, mul-div-mul_left, div-eq_of_lt}

-- The first `len` of the `n` bits of `a` are the first `len` of the 32 bits of `q`.
unfoldable pub in_prefix : ℕ → ℕ → ℕ → ℕ → Bool
in_prefix a n q len = a / 2 ^ (n - len) == q / 2 ^ (32 - len)

pub div-high : (J D x : ℕ) → 0 < D → J * D ≤ x → x / D ≡ J + (x - J * D) / D
div-high J D x pos h =
    let e : x ≡ (x - J * D) + J * D = omega arith in
    ap (λ t. t / D) e ∙ omega (arith, add-mul-div_right (x - J * D) J pos)

pub div-low : (J D x : ℕ) → 0 < D → x < J * D → x / D < J
div-low J D x pos h = (div-lt_iff_lt-mul pos).1 h

-- One level down: `suc j` of `suc m` address bits against `suc j` of 32.
module _ (j m : ℕ) (fits : j ≤ m) (word : m ≤ 31) where
  address_split : 2 ^ m ≡ 2 ^ j * 2 ^ (m - j)
  address_split = let e : m ≡ j + (m - j) = omega arith in ap (λ t. 2 ^ t) e ∙ pow-add j (m - j)

  prefix_split : 2 ^ 31 ≡ 2 ^ j * 2 ^ (31 - j)
  prefix_split = let e : 31 ≡ j + (31 - j) = omega arith in ap (λ t. 2 ^ t) e ∙ pow-add j (31 - j)

  shifted : (q : ℕ) → 2 * q / 2 ^ (32 - j) ≡ q / 2 ^ (31 - j)
  shifted q =
      let e : 32 - j ≡ 1 + (31 - j) = omega arith in
      rw (e, pow-add 1 (31 - j)) (mul-div-mul_left q (2 ^ (31 - j)) (omega arith))

  address_index : suc m - suc j ≡ m - j
  address_index = omega arith

  prefix_index : 32 - suc j ≡ 31 - j
  prefix_index = omega arith

  module _ (a q : ℕ) where
    pub in_prefix-high :
        2 ^ m ≤ a
        → 2 ^ 31 ≤ q
        → q < 2 ^ 32
        → in_prefix a (suc m) q (suc j) ≡ in_prefix (a - 2 ^ m) m (u32 (q * 2)) j
    unfolding in_prefix
    in_prefix-high ha hq bound =
        let e : u32 (q * 2) ≡ 2 * (q - 2 ^ 31) = omega arith in
        rw (e, shifted (q - 2 ^ 31), address_index, prefix_index)
          (ground (
            arith,
            div-high (2 ^ j) (2 ^ (m - j)) a (pow-pos (m - j)) (rw (← address_split) ha),
            div-high (2 ^ j) (2 ^ (31 - j)) q (pow-pos (31 - j)) (rw (← prefix_split) hq),
            address_split,
            prefix_split,
          ))

    pub in_prefix-low :
        a < 2 ^ m → q < 2 ^ 31 → in_prefix a (suc m) q (suc j) ≡ in_prefix a m (u32 (q * 2)) j
    unfolding in_prefix
    in_prefix-low ha hq =
        let e : u32 (q * 2) ≡ 2 * q = omega arith in
        rw (e, shifted q, address_index, prefix_index) refl

    pub in_prefix-apart_high : 2 ^ m ≤ a → q < 2 ^ 31 → in_prefix a (suc m) q (suc j) ≡ false
    unfolding in_prefix
    in_prefix-apart_high ha hq =
        rw (address_index, prefix_index)
          (ground (
            arith,
            div-high (2 ^ j) (2 ^ (m - j)) a (pow-pos (m - j)) (rw (← address_split) ha),
            div-low (2 ^ j) (2 ^ (31 - j)) q (pow-pos (31 - j)) (rw (← prefix_split) hq),
          ))

    pub in_prefix-apart_low : a < 2 ^ m → 2 ^ 31 ≤ q → in_prefix a (suc m) q (suc j) ≡ false
    unfolding in_prefix
    in_prefix-apart_low ha hq =
        rw (address_index, prefix_index)
          (ground (
            arith,
            div-low (2 ^ j) (2 ^ (m - j)) a (pow-pos (m - j)) (rw (← address_split) ha),
            div-high (2 ^ j) (2 ^ (31 - j)) q (pow-pos (31 - j)) (rw (← prefix_split) hq),
          ))

-- Of no bits at all every address has the prefix.
pub in_prefix-zero : (n a q : ℕ) → a < 2 ^ n → q < 2 ^ 32 → in_prefix a n q 0 ≡ true
unfolding in_prefix
in_prefix-zero n a q ha hq =
    let e : n - 0 ≡ n = omega arith in
    rw (e, div-eq_of_lt ha) (let z : q / 2 ^ 32 ≡ 0 = div-eq_of_lt hq in rw z refl)
