-- ===== src/Constraint/Index.antt =====
-- lib/constraint.c: `constraint_paint_value`, `constraint_count_ips` and
-- `constraint_lookup_index`, whichever value was painted before.
use zmap_embedded_ip.Base.{
  ℕ, ◌+◌, ◌-◌, ◌*◌, ◌/◌, ◌%◌, ◌^◌, ◌≤◌, ◌<◌, ◌≡◌, sym, ap, ◌∙◌, Bool, true, false, inl, inr, length,
  get_or, ltb, ltb→lt, ltb→le, ◌==◌, if◌then◌else◌, Bool-cases, bit_or, bit_or-add, u32, arith,
}
use zmap_embedded_ip.Base.Counting.{
  count_below, count_below-blocks, count_below-split, count_below-lt, count_below_injective,
}
use zmap_embedded_ip.Constraint.{
  Constraint, count, painted_lookup_index, is_radix_prefix, radix_block,
}
use zmap_embedded_ip.Constraint.Block.{
  in_big_leaf, is_radix_prefix-in_big_leaf, to_nat-in_big_leaf, counted-value, in_big_leaf-value,
  counted-not-big, not-big-counted,
}
use zmap_embedded_ip.Constraint.Count.{counted}
use zmap_embedded_ip.Constraint.Paint.{IsPainted}
use zmap_embedded_ip.Constraint.Radix.{IsFilled}
use zmap_embedded_ip.Constraint.Rank.{IsNth, lookup_index-IsNth, count-IsPainted}
use zmap_embedded_ip.Constraint.Tree.{value_at}

-- A tree painted for `v`, and the radix array of its big leaves.
module _ (con : Constraint) (v : ℕ) (painted : IsPainted con.root v true 32)
    (filled : IsFilled (is_radix_prefix con.root v) (2 ^ 18) con.radix) where
  abbrev pub in_tree : ℕ → Bool
  in_tree = counted con.root v true 32

  abbrev pub in_radix : ℕ → Bool
  in_radix = in_big_leaf con.root v 32

  abbrev pub is_prefix : ℕ → Bool
  is_prefix = is_radix_prefix con.root v

  abbrev pub has_value : ℕ → Bool
  has_value a = value_at con.root 32 a == v

  abbrev pub total : ℕ
  total = count con.root + length con.radix * radix_block

  tree_total : count con.root ≡ count_below in_tree (2 ^ 32)
  tree_total = count-IsPainted con.root v true 32 painted

  prefix_of : (a : ℕ) → a < 2 ^ 32 → is_prefix (a / radix_block) ≡ in_radix a
  prefix_of a h =
      is_radix_prefix-in_big_leaf con.root v (a / radix_block) (a % radix_block) (omega arith)
        (omega arith)
      ∙ ap in_radix {x = a / radix_block * radix_block + a % radix_block} {y = a} (omega arith)

  -- The painted counts and the radix array account for every address with the value.
  pub total-count_below : total ≡ count_below has_value (2 ^ 32)
  total-count_below =
      let parts =
        count_below-split has_value in_tree in_radix (2 ^ 32) (to_nat-in_big_leaf con.root v 32) in
      let blocks =
        count_below-blocks in_radix is_prefix radix_block (2 ^ 18)
          (λ i r hi hr. sym (is_radix_prefix-in_big_leaf con.root v i r hi hr)) in
      omega (arith, parts, blocks, tree_total, filled.size)

  -- The index of an address: whole blocks first, then the rest of the tree.
  pub index_of : ℕ → ℕ
  index_of a =
      if in_radix a
      then count_below is_prefix (a / radix_block) * radix_block + a % radix_block
      else length con.radix * radix_block + count_below in_tree a

  module _ (a : ℕ) where
    index_of-big :
        in_radix a ≡ true
        → index_of a ≡ count_below is_prefix (a / radix_block) * radix_block + a % radix_block
    unfolding index_of
    index_of-big e = rw e

    index_of-small :
        in_radix a ≡ false → index_of a ≡ length con.radix * radix_block + count_below in_tree a
    unfolding index_of
    index_of-small e = rw e

  -- What a lookup at `index` finds.
  pub record Finds (index ip : ℕ) : Type 0 where
    pub bound : ip < 2 ^ 32
    pub valued : has_value ip ≡ true
    pub indexed : index_of ip ≡ index

  module _ (index : ℕ) where
    Finds-fast :
        index / radix_block < length con.radix
        → Finds index (bit_or (get_or con.radix (index / radix_block) 0) (index % radix_block))
    Finds-fast h =
        let (k, below, passes, rank, found) = filled.entry (index / radix_block) h in
        let off = index % radix_block in
        let a = k * radix_block + off in
        let first : u32 (k * radix_block) ≡ k * radix_block = omega arith in
        let big : in_radix a ≡ true =
          sym (is_radix_prefix-in_big_leaf con.root v k off below (omega arith)) ∙ passes in
        let block : a / radix_block ≡ k = omega arith in
        let rest : a % radix_block ≡ off = omega arith in
        rw (found, first, bit_or-add 14 k off (omega arith))
          (record {
            bound = omega arith;
            valued = in_big_leaf-value con.root v 32 a big;
            indexed = rw (index_of-big a big, block, rest, rank) (omega arith);
          })

    Finds-slow :
        (ip : ℕ)
        → length con.radix ≤ index / radix_block
        → IsNth con.root v true 32 (index - length con.radix * radix_block) 0 ip
        → Finds index ip
    Finds-slow ip h nth =
        let e : ip ≡ nth.offset = omega (arith, nth.found) in
        let small = counted-not-big con.root v 32 nth.offset nth.is_counted in
        rw e (record {
          bound = nth.below;
          valued = counted-value con.root v 32 nth.offset nth.is_counted;
          indexed = rw (index_of-small nth.offset small, nth.rank) (omega arith);
        })

    pub painted_lookup_index-Finds : index < total → Finds index (painted_lookup_index con index)
    unfolding painted_lookup_index
    painted_lookup_index-Finds h =
        elim (Bool-cases (ltb (index / radix_block) (length con.radix))) [
          | inl fast ↦ rw fast (Finds-fast (ltb→lt _ _ fast))
          | inr slow ↦ rw slow (
              Finds-slow _ (ltb→le _ _ slow) (
                lookup_index-IsNth con.root v true 32 (index - length con.radix * radix_block) 0
                  painted (omega (arith, ltb→le _ _ slow)) (omega arith)))
        ]

  big-index-lt :
      (a : ℕ) → a < 2 ^ 32 → in_radix a ≡ true → index_of a < length con.radix * radix_block
  big-index-lt a h big =
      let k = a / radix_block in
      let lt = count_below-lt is_prefix k (2 ^ 18) (omega arith) (prefix_of a h ∙ big) in
      omega (arith, index_of-big a big, lt, filled.size)

  -- The index tells addresses with the value apart.
  index_of_injective :
      (a b : ℕ)
      → a < 2 ^ 32
      → b < 2 ^ 32
      → has_value a ≡ true
      → has_value b ≡ true
      → index_of a ≡ index_of b
      → a ≡ b
  index_of_injective a b ha hb va vb e = elim (Bool-cases (in_radix a)) [
    | inl big ↦ elim (Bool-cases (in_radix b)) [
      | inl big' ↦
          let i = index_of-big a big in
          let j = index_of-big b big' in
          let same : a / radix_block ≡ b / radix_block =
            count_below_injective is_prefix (a / radix_block) (b / radix_block)
              (prefix_of a ha ∙ big) (prefix_of b hb ∙ big') (omega arith) in
          omega arith
      | inr small' ↦ absurd (omega (arith, big-index-lt a ha big, index_of-small b small'))
    ]
    | inr small ↦ elim (Bool-cases (in_radix b)) [
      | inl big' ↦ absurd (omega (arith, big-index-lt b hb big', index_of-small a small))
      | inr small' ↦
          count_below_injective in_tree a b (not-big-counted con.root v 32 a va small)
            (not-big-counted con.root v 32 b vb small')
            (omega (arith, index_of-small a small, index_of-small b small'))
    ]
  ]

  index_of-lt : (a : ℕ) → a < 2 ^ 32 → has_value a ≡ true → index_of a < total
  index_of-lt a h va = elim (Bool-cases (in_radix a)) [
    | inl big ↦ omega (arith, big-index-lt a h big)
    | inr small ↦
        let lt = count_below-lt in_tree a (2 ^ 32) h (not-big-counted con.root v 32 a va small) in
        omega (arith, index_of-small a small, lt, tree_total)
  ]

  -- Each address with the value is found at its index.
  pub painted_lookup_index-index_of :
      (a : ℕ)
      → a < 2 ^ 32
      → has_value a ≡ true
      → (index_of a < total) × (painted_lookup_index con (index_of a) ≡ a)
  painted_lookup_index-index_of a h va =
      let lt = index_of-lt a h va in
      let f = painted_lookup_index-Finds (index_of a) lt in
      (lt, index_of_injective _ a f.bound h f.valued va f.indexed)
