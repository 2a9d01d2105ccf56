-- ===== src/Constraint/Lookup.antt =====
-- lib/constraint.c: `constraint_set` against `constraint_lookup_ip`.
use zmap_embedded_ip.Base.{
  ℕ, zero, suc, ◌-◌, ◌*◌, ◌/◌, ◌^◌, ◌≤◌, ◌<◌, ◌≡◌, refl, ap, ◌∙◌, true, false, inl, inr, leb, ◌==◌,
  if◌then◌else◌, Bool-cases, has_bit, has_bit-half, ==_iff, leb→le, leb→lt, half-pow, Bool, u32,
  arith,
}
use zmap_embedded_ip.Constraint.{
  Node, leaf, branch, create_leaf, merge, set_recurse, top_bit, Constraint, constraint_set,
  constraint_lookup_ip,
}
use zmap_embedded_ip.Constraint.Tree.{value_at, value_at-high, value_at-low, lookup_ip-value_at}
use zmap_embedded_ip.Constraint.Prefix.{
  in_prefix, in_prefix-high, in_prefix-low, in_prefix-apart_high, in_prefix-apart_low,
  in_prefix-zero,
}
use native.Mathlib.Nat.{mod-eq_of_lt}

-- Discarding two equal leaves changes no value.
value_at-merge :
    (l r : Node) (w c n a : ℕ) → value_at (merge l r w c) n a ≡ value_at (branch l r w c) n a
unfolding merge value_at
value_at-merge (leaf x i) (leaf y j) w c zero a = ground arith
value_at-merge (leaf x i) (leaf y j) w c (suc m) a = ground arith
value_at-merge (leaf x i) (branch l r y j) w c n a = refl
value_at-merge (branch l r x i) right w c n a = refl

has_bit-top : (q : ℕ) → q < 2 ^ 32 → has_bit q top_bit ≡ leb (2 ^ 31) q
has_bit-top q h = has_bit-half 31 q ∙ rw (mod-eq_of_lt h) refl

-- One level of the tree: if the child on the prefix's side is set, the node is set.
module _ (l r child : Node) (w c q j v m : ℕ) (fits : j ≤ m) (word : m ≤ 31) where
  abbrev Sets : Node → Type 0
  Sets t =
      (b : ℕ)
      → b < 2 ^ m
      → value_at child m b ≡ (if in_prefix b m (u32 (q * 2)) j then v else value_at t m b)

  branch-high :
      2 ^ 31 ≤ q
      → q < 2 ^ 32
      → Sets r
      → (a : ℕ) → a < 2 ^ suc m
      → value_at (branch l child w c) (suc m) a
        ≡ (if in_prefix a (suc m) q (suc j) then v else value_at (branch l r w c) (suc m) a)
  branch-high hq bound sets a ha = elim (Bool-cases (leb (2 ^ m) a)) [
    | inl hi ↦
        let h = leb→le (2 ^ m) a hi in
        rw
          (
            in_prefix-high j m fits word a q h hq bound,
            value_at-high l child w c m a h,
            value_at-high l r w c m a h,
          )
          (sets (a - 2 ^ m) (omega (arith, leb→le _ _ hi, half-pow m)))
    | inr lo ↦
        let h = leb→lt (2 ^ m) a lo in
        rw
          (
            in_prefix-apart_low j m fits word a q h hq,
            value_at-low l child w c m a h,
            value_at-low l r w c m a h,
          )
          refl
  ]

  branch-low :
      q < 2 ^ 31
      → Sets l
      → (a : ℕ) → a < 2 ^ suc m
      → value_at (branch child r w c) (suc m) a
        ≡ (if in_prefix a (suc m) q (suc j) then v else value_at (branch l r w c) (suc m) a)
  branch-low hq sets a ha = elim (Bool-cases (leb (2 ^ m) a)) [
    | inl hi ↦
        let h = leb→le (2 ^ m) a hi in
        rw
          (
            in_prefix-apart_high j m fits word a q h hq,
            value_at-high child r w c m a h,
            value_at-high l r w c m a h,
          )
          refl
    | inr lo ↦
        let h = leb→lt (2 ^ m) a lo in
        rw
          (
            in_prefix-low j m fits word a q h hq,
            value_at-low child r w c m a h,
            value_at-low l r w c m a h,
          )
          (sets a h)
  ]

-- A leaf and a node over two copies of it mean the same.
value_at-copies : (w c n a : ℕ) → value_at (branch (create_leaf w) (create_leaf w) w c) n a ≡ w
unfolding value_at create_leaf
value_at-copies w c zero a = refl
value_at-copies w c (suc m) a = ground arith

if_same {ℓ} : {A : Type ℓ} (b : Bool) (x : A) → (if b then x else x) ≡ x
if_same true x = refl
if_same false x = refl

shifted-lt : (q : ℕ) → u32 (q * 2) < 2 ^ 32
shifted-lt q = omega arith

pub value_at-set_recurse :
    (t : Node) (q len v n a : ℕ)
    → len ≤ n
    → n ≤ 32
    → q < 2 ^ 32
    → a < 2 ^ n
    → value_at (set_recurse t q len v) n a ≡ (if in_prefix a n q len then v else value_at t n a)
unfolding set_recurse value_at
value_at-set_recurse t q zero v n a fits word hq ha = rw (in_prefix-zero n a q ha hq) refl
value_at-set_recurse (leaf w c) q (suc j) v zero a fits word hq ha = absurd (omega arith)
value_at-set_recurse (branch l r w c) q (suc j) v zero a fits word hq ha = absurd (omega arith)
value_at-set_recurse (leaf w c) q (suc j) v (suc m) a fits word hq ha =
    let new = create_leaf w in
    let child = set_recurse new (u32 (q * 2)) j v in
    let sets : Sets new new child w c q j v m (omega arith) (omega arith) new = λ b.
      value_at-set_recurse new (u32 (q * 2)) j v m b (omega arith) (omega arith) (shifted-lt q) in
    let whole =
      ap (λ x. if in_prefix a (suc m) q (suc j) then v else x) (value_at-copies w c (suc m) a) in
    elim (Bool-cases (w == v)) [
      | inl same ↦ rw (same, (==_iff w v).0 same, if_same (in_prefix a (suc m) q (suc j)) v) refl
      | inr other ↦ elim (Bool-cases (leb (2 ^ 31) q)) [
        | inl hi ↦
            rw (other, has_bit-top q hq, hi, value_at-merge)
              (branch-high new new child w c q j v m (omega arith) (omega arith) (leb→le _ _ hi) hq
                  sets a ha
                ∙ whole)
        | inr lo ↦
            rw (other, has_bit-top q hq, lo, value_at-merge)
              (branch-low new new child w c q j v m (omega arith) (omega arith) (leb→lt _ _ lo) sets
                  a ha
                ∙ whole)
      ]
    ]
value_at-set_recurse (branch l r w c) q (suc j) v (suc m) a fits word hq ha =
    elim (Bool-cases (leb (2 ^ 31) q)) [
      | inl hi ↦
          rw (set_recurse, has_bit-top q hq, hi, value_at-merge)
            (branch-high l r (set_recurse r (u32 (q * 2)) j v) w c q j v m (omega arith)
              (omega arith) (leb→le _ _ hi) hq
              (λ b hb.
                value_at-set_recurse r (u32 (q * 2)) j v m b (omega arith) (omega arith)
                  (shifted-lt q) hb)
              a ha)
      | inr lo ↦
          rw (set_recurse, has_bit-top q hq, lo, value_at-merge)
            (branch-low l r (set_recurse l (u32 (q * 2)) j v) w c q j v m (omega arith)
              (omega arith) (leb→lt _ _ lo)
              (λ b hb.
                value_at-set_recurse l (u32 (q * 2)) j v m b (omega arith) (omega arith)
                  (shifted-lt q) hb)
              a ha)
    ]

-- What `constraint_lookup_ip` reads is the meaning of the tree.
pub constraint_lookup_ip-value_at :
    (con : Constraint) (a : ℕ) → a < 2 ^ 32 → constraint_lookup_ip con a ≡ value_at con.root 32 a
unfolding constraint_lookup_ip
constraint_lookup_ip-value_at con a h =
    lookup_ip-value_at con.root 32 a ∙ ap (value_at con.root 32) (mod-eq_of_lt h)

-- After `constraint_set` with a prefix of at most 32 bits, an address whose first `len` bits are
-- those of the prefix has the new value, and every other address the value that it had.
pub constraint_lookup_ip-set :
    (con : Constraint) (prefix len v a : ℕ)
    → len ≤ 32
    → prefix < 2 ^ 32
    → a < 2 ^ 32
    → constraint_lookup_ip (constraint_set con prefix len v) a
      ≡ (if a / 2 ^ (32 - len) == prefix / 2 ^ (32 - len) then v else constraint_lookup_ip con a)
unfolding constraint_set in_prefix
constraint_lookup_ip-set con prefix len v a hl hp ha =
    rw
      (
        constraint_lookup_ip-value_at (constraint_set con prefix len v) a ha,
        constraint_lookup_ip-value_at con a ha,
      )
      (value_at-set_recurse con.root prefix len v 32 a hl (omega arith) hp ha)
