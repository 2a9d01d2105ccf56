-- ===== src/Constraint/Paint.antt =====
-- lib/constraint.c: painting. It writes each node's count and changes nothing that a lookup reads.
use zmap_embedded_ip.Base.{ℕ, zero, suc, ◌-◌, ◌/◌, ◌^◌, ◌≤◌, ◌≡◌, refl, ◌∙◌, Bool, true, arith}
use zmap_embedded_ip.Base.Counting.{count_below, count_below_congr}
use zmap_embedded_ip.Constraint.{Node, leaf, branch, count_ips_recurse, count}
use zmap_embedded_ip.Constraint.Count.{counted, half-size, count_ips_recurse-count_below}
use zmap_embedded_ip.Constraint.Tree.{value_at, depth}

-- Two trees that differ in counts, and in the values kept by nodes with children, at most.
abbrev pub SameShape : Node → Node → Type 0
SameShape (leaf w c) (leaf w' c') = w ≡ w'
SameShape (branch l r w c) (branch l' r' w' c') = SameShape l l' × SameShape r r'
SameShape (leaf w c) (branch l r w' c') = ⊥
SameShape (branch l r w c) (leaf w' c') = ⊥

-- Every node holds the count of the addresses below it.
abbrev pub IsPainted : Node → ℕ → Bool → ℕ → Type 0
IsPainted (leaf w c) v exclude n = c ≡ count_below (counted (leaf w c) v exclude n) (2 ^ n)
IsPainted (branch l r w c) v exclude zero = ⊥
IsPainted (branch l r w c) v exclude (suc m) =
    (c ≡ count_below (counted (branch l r w c) v exclude (suc m)) (2 ^ suc m))
    × IsPainted l v exclude m
    × IsPainted r v exclude m

pub value_at-SameShape : (t t' : Node) (n a : ℕ) → SameShape t t' → value_at t n a ≡ value_at t' n a
unfolding value_at
value_at-SameShape (leaf w c) (leaf w' c') n a h = h
value_at-SameShape (branch l r w c) (branch l' r' w' c') zero a h =
    value_at-SameShape l l' zero a h.0
value_at-SameShape (branch l r w c) (branch l' r' w' c') (suc m) a h =
    ground (arith, value_at-SameShape l l' m a h.0, value_at-SameShape r r' m (a - 2 ^ m) h.1)
value_at-SameShape (leaf w c) (branch l' r' w' c') n a h = absurd h
value_at-SameShape (branch l r w c) (leaf w' c') n a h = absurd h

pub counted-SameShape :
    (t t' : Node) (v : ℕ) (exclude : Bool) (n a : ℕ)
    → SameShape t t'
    → counted t v exclude n a ≡ counted t' v exclude n a
unfolding counted
counted-SameShape (leaf w c) (leaf w' c') v e n a h = rw h
counted-SameShape (branch l r w c) (branch l' r' w' c') v e zero a h =
    counted-SameShape l l' v e zero a h.0
counted-SameShape (branch l r w c) (branch l' r' w' c') v e (suc m) a h =
    ground (arith, counted-SameShape l l' v e m a h.0, counted-SameShape r r' v e m (a - 2 ^ m) h.1)
counted-SameShape (leaf w c) (branch l' r' w' c') v e n a h = absurd h
counted-SameShape (branch l r w c) (leaf w' c') v e n a h = absurd h

pub depth-SameShape : (t t' : Node) → SameShape t t' → depth t ≡ depth t'
unfolding depth
depth-SameShape (leaf w c) (leaf w' c') h = refl
depth-SameShape (branch l r w c) (branch l' r' w' c') h =
    rw (depth-SameShape l l' h.0, depth-SameShape r r' h.1)
depth-SameShape (leaf w c) (branch l' r' w' c') h = absurd h
depth-SameShape (branch l r w c) (leaf w' c') h = absurd h

-- Painting keeps the shape, and leaves each node with its count.
pub count_ips_recurse-SameShape :
    (t : Node) (v size : ℕ) (exclude : Bool)
    → SameShape t (count_ips_recurse t v size true exclude).1
unfolding count_ips_recurse
count_ips_recurse-SameShape (leaf w c) v size exclude = refl
count_ips_recurse-SameShape (branch l r w c) v size exclude = (
  count_ips_recurse-SameShape l v (size / 2) exclude,
  count_ips_recurse-SameShape r v (size / 2) exclude,
)

pub count_ips_recurse-count :
    (t : Node) (v size : ℕ) (exclude : Bool)
    → count (count_ips_recurse t v size true exclude).1
      ≡ (count_ips_recurse t v size true exclude).0
unfolding count_ips_recurse
count_ips_recurse-count (leaf w c) v size exclude = refl
count_ips_recurse-count (branch l r w c) v size exclude = refl

-- The count of the painted tree is that of the addresses below it.
painted_count :
    (t : Node) (v n : ℕ) (exclude : Bool)
    → depth t ≤ n
    → n ≤ 32
    → let p = (count_ips_recurse t v (2 ^ n) true exclude).1 in
      count p ≡ count_below (counted p v exclude n) (2 ^ n)
painted_count t v n exclude hd hn =
    let p = (count_ips_recurse t v (2 ^ n) true exclude).1 in
    count_ips_recurse-count t v (2 ^ n) exclude
    ∙ count_ips_recurse-count_below t v n true exclude hd hn
    ∙ count_below_congr (counted t v exclude n) (counted p v exclude n) (2 ^ n) (λ i _.
      counted-SameShape t p v exclude n i (count_ips_recurse-SameShape t v (2 ^ n) exclude))

pub count_ips_recurse-IsPainted :
    (t : Node) (v n : ℕ) (exclude : Bool)
    → depth t ≤ n
    → n ≤ 32
    → IsPainted (count_ips_recurse t v (2 ^ n) true exclude).1 v exclude n
unfolding depth count_ips_recurse
count_ips_recurse-IsPainted (leaf w c) v n exclude hd hn =
    painted_count (leaf w c) v n exclude hd hn
count_ips_recurse-IsPainted (branch l r w c) v zero exclude hd hn = absurd (omega arith)
count_ips_recurse-IsPainted (branch l r w c) v (suc m) exclude hd hn = (
  painted_count (branch l r w c) v (suc m) exclude hd hn,
  rw (half-size m) (count_ips_recurse-IsPainted l v m exclude (omega arith) (omega arith)),
  rw (half-size m) (count_ips_recurse-IsPainted r v m exclude (omega arith) (omega arith)),
)
