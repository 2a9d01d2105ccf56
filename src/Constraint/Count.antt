-- ===== src/Constraint/Count.antt =====
-- lib/constraint.c: `_count_ips_recurse` against the number of addresses.
use zmap_embedded_ip.Base.{
  ℕ, zero, suc, ◌+◌, ◌-◌, ◌/◌, ◌^◌, ◌≤◌, ◌<◌, ◌≡◌, refl, sym, ap, ◌∙◌, Bool, true, false, ◌&&◌, not,
  leb, le→leb, lt→leb, ◌==◌, if◌then◌else◌, half-pow, u64, arith,
}
use zmap_embedded_ip.Base.Counting.{
  count_below, count_below-add, count_below_congr, count_below_const, count_below-le,
}
use zmap_embedded_ip.Constraint.{Node, leaf, branch, leaf_count, count_ips_recurse, radix_block}
use zmap_embedded_ip.Constraint.Tree.{value_at, depth}
use native.Mathlib.Nat.{pow-le-pow_right, add-sub_cancel_left}

-- Which addresses below a node the count includes: those with the value, but where `exclude` is
-- set not those in a leaf of at least one radix block.
unfoldable pub counted : Node → ℕ → Bool → ℕ → ℕ → Bool
counted (leaf w c) v exclude n a = w == v && not (exclude && leb radix_block (2 ^ n))
counted (branch l r w c) v exclude zero a = counted l v exclude zero a
counted (branch l r w c) v exclude (suc m) a = elim (leb (2 ^ m) a) [
  | true ↦ counted r v exclude m (a - 2 ^ m)
  | false ↦ counted l v exclude m a
]

module _ (l r : Node) (w c v : ℕ) (exclude : Bool) (m a : ℕ) where
  pub counted-high :
      2 ^ m ≤ a → counted (branch l r w c) v exclude (suc m) a ≡ counted r v exclude m (a - 2 ^ m)
  unfolding counted
  counted-high h = rw (counted, le→leb _ _ h) refl

  pub counted-low :
      a < 2 ^ m → counted (branch l r w c) v exclude (suc m) a ≡ counted l v exclude m a
  unfolding counted
  counted-low h = rw (counted, lt→leb _ _ h) refl

-- Without the exclusion these are the addresses with the value.
pub counted-all : (t : Node) (v n a : ℕ) → counted t v false n a ≡ (value_at t n a == v)
unfolding counted value_at
counted-all (leaf w c) v n a = ground arith
counted-all (branch l r w c) v zero a = counted-all l v zero a
counted-all (branch l r w c) v (suc m) a =
    ground (arith, counted-all r v m (a - 2 ^ m), counted-all l v m a)

cond_and :
    (a e b : Bool) (s : ℕ)
    → (if a then (if e && b then 0 else s) else 0) ≡ (if a && not (e && b) then s else 0)
cond_and true true true s = refl
cond_and true true false s = refl
cond_and true false b s = refl
cond_and false e b s = refl

leaf_count-counted :
    (w c v : ℕ) (exclude : Bool) (n : ℕ)
    → leaf_count w v (2 ^ n) exclude ≡ count_below (counted (leaf w c) v exclude n) (2 ^ n)
unfolding leaf_count counted
leaf_count-counted w c v exclude n =
    cond_and (w == v) exclude (leb radix_block (2 ^ n)) (2 ^ n)
    ∙ sym (count_below_const (w == v && not (exclude && leb radix_block (2 ^ n))) (2 ^ n))

-- The halves of a node count separately.
pub count_below-branch :
    (l r : Node) (w c v : ℕ) (exclude : Bool) (m : ℕ)
    → count_below (counted (branch l r w c) v exclude (suc m)) (2 ^ suc m)
      ≡ count_below (counted l v exclude m) (2 ^ m) + count_below (counted r v exclude m) (2 ^ m)
count_below-branch l r w c v exclude m =
    let whole = counted (branch l r w c) v exclude (suc m) in
    let e : 2 ^ suc m ≡ 2 ^ m + 2 ^ m = omega (arith, half-pow m) in
    rw (e, count_below-add whole (2 ^ m) (2 ^ m))
      (ap (λ x. x + count_below (λ i. whole (2 ^ m + i)) (2 ^ m))
          (count_below_congr whole (counted l v exclude m) (2 ^ m)
            (λ i. counted-low l r w c v exclude m i))
        ∙ ap (λ x. count_below (counted l v exclude m) (2 ^ m) + x)
            (count_below_congr (λ i. whole (2 ^ m + i)) (counted r v exclude m) (2 ^ m)
              (λ i h.
                counted-high l r w c v exclude m (2 ^ m + i) (omega arith)
                ∙ ap (counted r v exclude m) (add-sub_cancel_left (2 ^ m) i))))

-- No sum wraps: a node of `n` bits counts at most `2 ^ n` addresses.
u64-sum :
    (p q : ℕ → Bool) (m : ℕ)
    → suc m ≤ 32
    → u64 (count_below p (2 ^ m) + count_below q (2 ^ m))
      ≡ count_below p (2 ^ m) + count_below q (2 ^ m)
u64-sum p q m h = omega (
  arith,
  count_below-le p (2 ^ m),
  count_below-le q (2 ^ m),
  pow-le-pow_right {n = 2} (omega arith) {i = m} {j = 32} (omega arith),
)

pub half-size : (m : ℕ) → 2 ^ suc m / 2 ≡ 2 ^ m
half-size m = omega (arith, half-pow m)

-- The recursive count, painting or not, is the number of addresses that it is to include.
pub count_ips_recurse-count_below :
    (t : Node) (v n : ℕ) (paint exclude : Bool)
    → depth t ≤ n
    → n ≤ 32
    → (count_ips_recurse t v (2 ^ n) paint exclude).0 ≡ count_below (counted t v exclude n) (2 ^ n)
unfolding count_ips_recurse depth
count_ips_recurse-count_below (leaf w c) v n paint exclude hd hn =
    leaf_count-counted w c v exclude n
count_ips_recurse-count_below (branch l r w c) v zero paint exclude hd hn = absurd (omega arith)
count_ips_recurse-count_below (branch l r w c) v (suc m) paint exclude hd hn =
    rw
      (
        half-size m,
        count_ips_recurse-count_below l v m paint exclude (omega arith) (omega arith),
        count_ips_recurse-count_below r v m paint exclude (omega arith) (omega arith),
        count_below-branch l r w c v exclude m,
      )
      (u64-sum (counted l v exclude m) (counted r v exclude m) m hn)
