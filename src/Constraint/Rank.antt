-- ===== src/Constraint/Rank.antt =====
-- lib/constraint.c: `_lookup_index` finds the address with a given rank among those counted.
use zmap_embedded_ip.Base.{
  ℕ, zero, suc, ◌+◌, ◌-◌, ◌*◌, ◌^◌, ◌≤◌, ◌<◌, ◌≡◌, refl, ap, ◌∙◌, Bool, true, inl, inr, ltb, ltb→lt,
  ltb→le, if◌then◌else◌, Bool-cases, half-pow, bit_or, bit_or-add, u32, arith,
}
use zmap_embedded_ip.Base.Counting.{
  count_below, count_below-add, count_below_congr, count_below_const,
}
use zmap_embedded_ip.Constraint.{Node, leaf, branch, lookup_index, count}
use zmap_embedded_ip.Constraint.Count.{counted, counted-high, counted-low, count_below-branch}
use zmap_embedded_ip.Constraint.Paint.{IsPainted}
use zmap_embedded_ip.Constraint.Tree.{mask_of, mask_of-half, pow-pos}
use native.Mathlib.Nat.{add-sub_cancel_left, mod-eq_of_lt}

pub count-IsPainted :
    (t : Node) (v : ℕ) (exclude : Bool) (n : ℕ)
    → IsPainted t v exclude n
    → count t ≡ count_below (counted t v exclude n) (2 ^ n)
count-IsPainted (leaf w c) v exclude n h = h
count-IsPainted (branch l r w c) v exclude zero h = absurd h
count-IsPainted (branch l r w c) v exclude (suc m) h = h.0

-- The `k`th counted address below `t`, where the path to `t` stands for `base`.
pub record IsNth (t : Node) (v : ℕ) (exclude : Bool) (n k base ip : ℕ) : Type 0 where
  pub offset : ℕ
  pub below : offset < 2 ^ n
  pub found : ip ≡ base + offset
  pub is_counted : counted t v exclude n offset ≡ true
  pub rank : count_below (counted t v exclude n) offset ≡ k

module _ (w c v : ℕ) (exclude : Bool) (n k q : ℕ) where
  leaf-IsNth :
      c ≡ count_below (counted (leaf w c) v exclude n) (2 ^ n)
      → k < c
      → q * 2 ^ n + 2 ^ n ≤ 2 ^ 32
      → IsNth (leaf w c) v exclude n k (q * 2 ^ n) (u32 (bit_or (q * 2 ^ n) k))
  unfolding counted
  leaf-IsNth painted small room =
      let b = counted (leaf w c) v exclude n 0 in
      let total : c ≡ (if b then 2 ^ n else 0) = painted ∙ count_below_const b (2 ^ n) in
      elim (Bool-cases b) [
        | inl e ↦
            let full : c ≡ 2 ^ n = rw e at total in
            let fits : k < 2 ^ n = omega arith in
            record {
              offset = k;
              below = fits;
              found = rw (bit_or-add n q k fits) (mod-eq_of_lt (omega arith));
              is_counted = e;
              rank = count_below_const b k ∙ rw e refl;
            }
        | inr e ↦ let none_left : c ≡ 0 = rw e at total in absurd (omega arith)
      ]

module _ (l r : Node) (w c v : ℕ) (exclude : Bool) (m k base ip : ℕ) where
  abbrev node : Node
  node = branch l r w c

  left-IsNth : IsNth l v exclude m k base ip → IsNth node v exclude (suc m) k base ip
  left-IsNth h = record {
    offset = h.offset;
    below = omega (arith, half-pow m, h.below);
    found = h.found;
    is_counted = counted-low l r w c v exclude m h.offset h.below ∙ h.is_counted;
    rank =
        count_below_congr (counted node v exclude (suc m)) (counted l v exclude m) h.offset
          (λ i hi. counted-low l r w c v exclude m i (omega (arith, h.below)))
        ∙ h.rank;
  }

  right-IsNth :
      count l ≡ count_below (counted l v exclude m) (2 ^ m)
      → count l ≤ k
      → IsNth r v exclude m (k - count l) (base + 2 ^ m) ip
      → IsNth node v exclude (suc m) k base ip
  right-IsNth total past h =
      let a = h.offset in
      let high = λ (i : ℕ).
        counted-high l r w c v exclude m (2 ^ m + i) (omega arith)
        ∙ ap (counted r v exclude m) (add-sub_cancel_left (2 ^ m) i) in
      let low =
        count_below_congr (counted node v exclude (suc m)) (counted l v exclude m) (2 ^ m)
          (λ i. counted-low l r w c v exclude m i) in
      let rest =
        count_below_congr (λ i. counted node v exclude (suc m) (2 ^ m + i)) (counted r v exclude m)
          a (λ i _. high i) in
      record {
        offset = 2 ^ m + a;
        below = omega (arith, half-pow m, h.below);
        found = omega (arith, h.found);
        is_counted = high a ∙ h.is_counted;
        rank =
            rw (count_below-add (counted node v exclude (suc m)) (2 ^ m) a, low, rest, ← total)
              (omega (arith, h.rank));
      }

pub lookup_index-IsNth :
    (t : Node) (v : ℕ) (exclude : Bool) (n k q : ℕ)
    → IsPainted t v exclude n
    → k < count t
    → q * 2 ^ n + 2 ^ n ≤ 2 ^ 32
    → IsNth t v exclude n k (q * 2 ^ n) (lookup_index t k (q * 2 ^ n) (mask_of n))
unfolding lookup_index
lookup_index-IsNth (leaf w c) v exclude n k q painted small room =
    leaf-IsNth w c v exclude n k q painted small room
lookup_index-IsNth (branch l r w c) v exclude zero k q painted small room = absurd painted
lookup_index-IsNth (branch l r w c) v exclude (suc m) k q painted small room =
    let ip = q * 2 ^ suc m in
    let left = count-IsPainted l v exclude m painted.1 in
    let right = count-IsPainted r v exclude m painted.2 in
    let total = painted.0 ∙ count_below-branch l r w c v exclude m in
    let even : ip ≡ 2 * q * 2 ^ m = omega (arith, ap (λ (t : ℕ). q * t) (half-pow m)) in
    let odd : ip + 2 ^ m ≡ (2 * q + 1) * 2 ^ m = omega arith in
    elim (Bool-cases (ltb k (count l))) [
      | inl h ↦
          rw (lookup_index, h, mask_of-half m)
            (left-IsNth l r w c v exclude m k ip _ (
              rw even (
                lookup_index-IsNth l v exclude m k (2 * q) painted.1 (ltb→lt _ _ h)
                  (omega (arith, half-pow m)))))
      | inr h ↦
          rw
            (
              lookup_index,
              h,
              mask_of-half m,
              bit_or-add (suc m) q (2 ^ m) (omega (arith, half-pow m, pow-pos m)),
            )
            (right-IsNth l r w c v exclude m k ip _ left (ltb→le _ _ h) (
              rw odd (
                lookup_index-IsNth r v exclude m (k - count l) (2 * q + 1) painted.2
                  (omega (arith, ltb→le _ _ h)) (omega (arith, half-pow m)))))
    ]
