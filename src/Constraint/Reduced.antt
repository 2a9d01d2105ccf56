-- ===== src/Constraint/Reduced.antt =====
-- lib/constraint.c: the invariant of the tree. "Every node that isn't a leaf has exactly two
-- children" is the type; two leaves of one value never stand under one node, and no path is
-- longer than the address.
use zmap_embedded_ip.Base.{
  ℕ, zero, suc, ◌*◌, ◌≤◌, ◌≡◌, refl, Bool, false, inl, inr, ◌==◌, Bool-cases, has_bit, u32, arith,
}
use zmap_embedded_ip.Constraint.{
  Node, leaf, branch, create_leaf, merge, set_recurse, top_bit, Constraint, constraint_set,
  constraint_init,
}
use zmap_embedded_ip.Constraint.Tree.{depth}
use Prim.Native.Nat.{max}

abbrev pub twins : Node → Node → Bool
twins (leaf a x) (leaf b y) = b == a
twins (leaf a x) (branch l r b y) = false
twins (branch l r a x) right = false

abbrev pub IsReduced : Node → Type 0
IsReduced (leaf v c) = Unit
IsReduced (branch l r v c) = IsReduced l × IsReduced r × (twins l r ≡ false)

merge-IsReduced : (l r : Node) (v c : ℕ) → IsReduced l → IsReduced r → IsReduced (merge l r v c)
unfolding merge
merge-IsReduced (leaf a x) (leaf b y) v c hl hr = ground arith
merge-IsReduced (leaf a x) (branch l r b y) v c hl hr = (hl, hr, refl)
merge-IsReduced (branch l r a x) right v c hl hr = (hl, hr, refl)

set_recurse-IsReduced :
    (t : Node) (prefix len v : ℕ) → IsReduced t → IsReduced (set_recurse t prefix len v)
unfolding set_recurse create_leaf
set_recurse-IsReduced t prefix zero v h = tt
set_recurse-IsReduced (leaf w c) prefix (suc len) v h =
    let child = set_recurse (create_leaf w) (u32 (prefix * 2)) len v in
    let ih = set_recurse-IsReduced (create_leaf w) (u32 (prefix * 2)) len v tt in
    elim (Bool-cases (w == v)) [
      | inl same ↦ rw same tt
      | inr other ↦ elim (Bool-cases (has_bit prefix top_bit)) [
        | inl hi ↦ rw (other, hi) (merge-IsReduced (create_leaf w) child w c tt ih)
        | inr lo ↦ rw (other, lo) (merge-IsReduced child (create_leaf w) w c ih tt)
      ]
    ]
set_recurse-IsReduced (branch l r w c) prefix (suc len) v h =
    elim (Bool-cases (has_bit prefix top_bit)) [
      | inl hi ↦
          rw (set_recurse, hi)
            (merge-IsReduced l _ w c h.0 (set_recurse-IsReduced r (u32 (prefix * 2)) len v h.1))
      | inr lo ↦
          rw (set_recurse, lo)
            (merge-IsReduced _ r w c (set_recurse-IsReduced l (u32 (prefix * 2)) len v h.0) h.1)
    ]

depth-merge : (l r : Node) (v c : ℕ) → depth (merge l r v c) ≤ suc (max (depth l) (depth r))
unfolding merge depth
depth-merge (leaf a x) (leaf b y) v c = ground arith
depth-merge (leaf a x) (branch l r b y) v c = omega arith
depth-merge (branch l r a x) right v c = omega arith

depth-set_recurse :
    (t : Node) (prefix len v n : ℕ) → len ≤ n → depth t ≤ n → depth (set_recurse t prefix len v) ≤ n
unfolding set_recurse depth create_leaf
depth-set_recurse t prefix zero v n hl hd = omega arith
depth-set_recurse t prefix (suc len) v zero hl hd = absurd (omega arith)
depth-set_recurse (leaf w c) prefix (suc len) v (suc n) hl hd =
    let child = set_recurse (create_leaf w) (u32 (prefix * 2)) len v in
    let ih =
      depth-set_recurse (create_leaf w) (u32 (prefix * 2)) len v n (omega arith) (omega arith) in
    elim (Bool-cases (w == v)) [
      | inl same ↦ rw same (omega arith)
      | inr other ↦ elim (Bool-cases (has_bit prefix top_bit)) [
        | inl hi ↦ rw (other, hi) (omega (arith, depth-merge (create_leaf w) child w c))
        | inr lo ↦ rw (other, lo) (omega (arith, depth-merge child (create_leaf w) w c))
      ]
    ]
depth-set_recurse (branch l r w c) prefix (suc len) v (suc n) hl hd =
    let q = u32 (prefix * 2) in
    elim (Bool-cases (has_bit prefix top_bit)) [
      | inl hi ↦
          rw (set_recurse, hi)
            (omega
              (arith, depth-merge l (set_recurse r q len v) w c, depth-set_recurse r q len v n))
      | inr lo ↦
          rw (set_recurse, lo)
            (omega
              (arith, depth-merge (set_recurse l q len v) r w c, depth-set_recurse l q len v n))
    ]

pub record IsWellFormed (con : Constraint) : Type 0 where
  pub reduced : IsReduced con.root
  pub shallow : depth con.root ≤ 32

-- Setting a prefix of at most 32 bits keeps a constraint well formed: no inner node has two leaves
-- of the same value, and no path is longer than 32 bits.
pub constraint_set-IsWellFormed :
    (con : Constraint) (prefix len v : ℕ)
    → len ≤ 32
    → IsWellFormed con
    → IsWellFormed (constraint_set con prefix len v)
unfolding constraint_set
constraint_set-IsWellFormed con prefix len v hl w = record {
  reduced = set_recurse-IsReduced con.root prefix len v w.reduced;
  shallow = depth-set_recurse con.root prefix len v 32 hl w.shallow;
}

pub constraint_init-IsWellFormed : (v : ℕ) → IsWellFormed (constraint_init v)
unfolding constraint_init depth
constraint_init-IsWellFormed v = record { reduced = tt; shallow = omega arith }
