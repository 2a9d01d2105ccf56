-- ===== src/Constraint/Block.antt =====
-- lib/constraint.c: `_lookup_node` for a radix prefix, against the addresses of the block.
use zmap_embedded_ip.Base.{
  ℕ, zero, suc, ◌+◌, ◌-◌, ◌*◌, ◌/◌, ◌%◌, ◌^◌, ◌≤◌, ◌<◌, ◌≡◌, refl, sym, ◌∙◌, Bool, true, false, inl,
  inr, ◌&&◌, not, leb, leb→le, leb→lt, le→leb, lt→leb, ◌==◌, Bool-cases, to_nat, half-pow,
  has_bit-half, pow-add, u32, arith,
}
use zmap_embedded_ip.Constraint.{
  Node, leaf, branch, lookup_node, is_leaf, value, is_radix_prefix, radix_block,
}
use zmap_embedded_ip.Constraint.Count.{counted, counted-high, counted-low}
use zmap_embedded_ip.Constraint.Tree.{
  value_at, value_at-high, value_at-low, mask_of, mask_of-half, mod-high, mod-low, pow-pos,
}
use native.Mathlib.Nat.{pow-le-pow_right}

-- The address has the value, in a leaf of at least one block.
pub in_big_leaf : Node → ℕ → ℕ → ℕ → Bool
in_big_leaf t v n a = (value_at t n a == v) && not (counted t v true n a)

-- A small node has no big leaf.
counted-small : (t : Node) (v n a : ℕ) → n < 14 → counted t v true n a ≡ (value_at t n a == v)
unfolding counted value_at
counted-small (leaf w c) v n a h =
    let bound : 2 ^ n ≤ 2 ^ 13 =
      pow-le-pow_right {n = 2} (omega arith) {i = n} {j = 13} (omega arith) in
    let small : leb radix_block (2 ^ n) ≡ false = lt→leb radix_block (2 ^ n) (omega arith) in
    rw small (ground arith)
counted-small (branch l r w c) v zero a h = counted-small l v zero a h
counted-small (branch l r w c) v (suc m) a h =
    ground (arith, counted-small r v m (a - 2 ^ m), counted-small l v m a)

and_not : (b c : Bool) → c ≡ b → (b && not c) ≡ false
and_not true true e = refl
and_not true false e = cc
and_not false c e = refl

-- The same block, one level down.
module _ (len m : ℕ) (size : m ≡ len + 14) (x a : ℕ)
    (same : x % 2 ^ suc m / radix_block ≡ a / radix_block) where
  blocks : 2 ^ m ≡ 2 ^ len * radix_block
  blocks = rw size (pow-add len 14)

  same_side : leb (2 ^ m) (x % 2 ^ suc m) ≡ leb (2 ^ m) a
  same_side = ground (arith, blocks)

  same-high : 2 ^ m ≤ a → x % 2 ^ m / radix_block ≡ (a - 2 ^ m) / radix_block
  same-high h =
      let side : leb (2 ^ m) (x % 2 ^ suc m) ≡ true = same_side ∙ le→leb _ _ h in
      omega (arith, mod-high m x side, blocks)

  same-low : a < 2 ^ m → x % 2 ^ m / radix_block ≡ a / radix_block
  same-low h = rw (mod-low m x (same_side ∙ lt→leb _ _ h)) same

big_size : (len n : ℕ) → n ≡ len + 14 → leb radix_block (2 ^ n) ≡ true
big_size len n size =
    let e : 2 ^ n ≡ 2 ^ len * radix_block = rw size (pow-add len 14) in
    le→leb radix_block (2 ^ n) (omega (arith, e, pow-pos len))

in_big_leaf-leaf :
    (w c v n a : ℕ) → leb radix_block (2 ^ n) ≡ true → in_big_leaf (leaf w c) v n a ≡ (w == v)
unfolding in_big_leaf value_at counted
in_big_leaf-leaf w c v n a e = rw e (ground arith)

module _ (l r : Node) (w c v m a : ℕ) where
  in_big_leaf-high :
      2 ^ m ≤ a → in_big_leaf (branch l r w c) v (suc m) a ≡ in_big_leaf r v m (a - 2 ^ m)
  unfolding in_big_leaf
  in_big_leaf-high h = rw (value_at-high l r w c m a h, counted-high l r w c v true m a h)

  in_big_leaf-low : a < 2 ^ m → in_big_leaf (branch l r w c) v (suc m) a ≡ in_big_leaf l v m a
  unfolding in_big_leaf
  in_big_leaf-low h = rw (value_at-low l r w c m a h, counted-low l r w c v true m a h)

in_big_leaf-small : (t : Node) (v n a : ℕ) → n < 14 → in_big_leaf t v n a ≡ false
unfolding in_big_leaf
in_big_leaf-small t v n a h = and_not _ _ (counted-small t v n a h)

abbrev has_value : Node → ℕ → Bool
has_value node v = is_leaf node && value node == v

-- The node that `_lookup_node` returns is a leaf with the value exactly if each address of the
-- block lies in a big leaf with the value.
lookup_node-in_big_leaf :
    (t : Node) (v len n x a : ℕ)
    → n ≡ len + 14
    → x % 2 ^ n / radix_block ≡ a / radix_block
    → a < 2 ^ n
    → has_value (lookup_node t x len (mask_of n)) v ≡ in_big_leaf t v n a
unfolding lookup_node
lookup_node-in_big_leaf (leaf w c) v zero n x a size same ha =
    sym (in_big_leaf-leaf w c v n a (big_size 0 n size))
lookup_node-in_big_leaf (leaf w c) v (suc len) n x a size same ha =
    sym (in_big_leaf-leaf w c v n a (big_size (suc len) n size))
lookup_node-in_big_leaf (branch l r w c) v len zero x a size same ha = absurd (omega arith)
lookup_node-in_big_leaf (branch l r w c) v zero (suc m) x a size same ha =
    elim (Bool-cases (leb (2 ^ m) a)) [
      | inl hi ↦
          rw
            (
              in_big_leaf-high l r w c v m a (leb→le _ _ hi),
              in_big_leaf-small r v m (a - 2 ^ m) (omega arith),
            )
            refl
      | inr lo ↦
          rw
            (in_big_leaf-low l r w c v m a (leb→lt _ _ lo), in_big_leaf-small l v m a (omega arith))
            refl
    ]
lookup_node-in_big_leaf (branch l r w c) v (suc len) (suc m) x a size same ha =
    let side = has_bit-half m x ∙ same_side len m (omega arith) x a same in
    elim (Bool-cases (leb (2 ^ m) a)) [
      | inl hi ↦
          let h = leb→le (2 ^ m) a hi in
          rw (lookup_node, side, hi, mask_of-half m, in_big_leaf-high l r w c v m a h)
            (lookup_node-in_big_leaf r v len m x (a - 2 ^ m) (omega arith)
              (same-high len m (omega arith) x a same h) (omega (arith, half-pow m)))
      | inr lo ↦
          let h = leb→lt (2 ^ m) a lo in
          rw (lookup_node, side, lo, mask_of-half m, in_big_leaf-low l r w c v m a h)
            (lookup_node-in_big_leaf l v len m x a (omega arith)
              (same-low len m (omega arith) x a same h) h)
    ]

-- The test of the radix loop at block `i`, at each address of the block.
pub is_radix_prefix-in_big_leaf :
    (root : Node) (v i r : ℕ)
    → i < 2 ^ 18
    → r < radix_block
    → is_radix_prefix root v i ≡ in_big_leaf root v 32 (i * radix_block + r)
unfolding is_radix_prefix
is_radix_prefix-in_big_leaf root v i r hi hr =
    lookup_node-in_big_leaf root v 18 32 (u32 (i * radix_block)) (i * radix_block + r) (omega arith)
      (omega arith) (omega arith)

-- What is counted has the value.
pub counted-value :
    (t : Node) (v n a : ℕ) → counted t v true n a ≡ true → (value_at t n a == v) ≡ true
unfolding counted value_at
counted-value (leaf w c) v n a = ground arith
counted-value (branch l r w c) v zero a = counted-value l v zero a
counted-value (branch l r w c) v (suc m) a =
    ground (arith, counted-value r v m (a - 2 ^ m), counted-value l v m a)

split_cases : (b c : Bool) → (c ≡ true → b ≡ true) → to_nat b ≡ to_nat c + to_nat (b && not c)
split_cases true true h = refl
split_cases true false h = refl
split_cases false true h = cc (h refl)
split_cases false false h = refl

-- The addresses with the value are those in big leaves and those counted by the tree.
pub to_nat-in_big_leaf :
    (t : Node) (v n a : ℕ)
    → to_nat (value_at t n a == v) ≡ to_nat (counted t v true n a) + to_nat (in_big_leaf t v n a)
unfolding in_big_leaf
to_nat-in_big_leaf t v n a = split_cases _ _ (counted-value t v n a)

pub in_big_leaf-value :
    (t : Node) (v n a : ℕ) → in_big_leaf t v n a ≡ true → (value_at t n a == v) ≡ true
unfolding in_big_leaf
in_big_leaf-value t v n a = ground arith

pub counted-not-big :
    (t : Node) (v n a : ℕ) → counted t v true n a ≡ true → in_big_leaf t v n a ≡ false
unfolding in_big_leaf
counted-not-big t v n a = ground arith

-- What has the value and lies in no big leaf is counted.
pub not-big-counted :
    (t : Node) (v n a : ℕ)
    → (value_at t n a == v) ≡ true
    → in_big_leaf t v n a ≡ false
    → counted t v true n a ≡ true
unfolding in_big_leaf
not-big-counted t v n a = ground arith
