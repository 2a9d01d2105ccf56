-- ===== src/Constraint.antt =====
-- lib/constraint.c: the tree that gives each IPv4 address a value, and the radix array of painted
-- prefixes. A node of the C tree keeps its value and its count also while it has children, and so
-- does a branch here. `assert` and the freeing of subtrees have no counterpart: the trees are
-- values, and the theorems state the asserted conditions as hypotheses.
-- `radix` holds the entries of the C array that are in use, so `radix_len` is its length.
pub mod Tree
pub mod Prefix
pub mod Lookup
pub mod Reduced
pub mod Count
pub mod Paint
pub mod Rank
pub mod Radix
pub mod Block
pub mod Index
pub mod Valid
pub mod Enumerate
use zmap_embedded_ip.Base.{
  ℕ, zero, suc, ◌+◌, ◌-◌, ◌*◌, ◌/◌, ◌%◌, ◌^◌, Bool, true, false, ◌&&◌, not, List, [], ◌∷◌, ◌++◌,
  length, get_or, ltb, leb, ◌==◌, if◌then◌else◌, u32, u64, has_bit, bit_or,
}

pub data Node : Type 0 where
  leaf : ℕ → ℕ → Node
  branch : Node → Node → ℕ → ℕ → Node

abbrev pub radix_length : ℕ
radix_length = 18

-- `1 << (32 - RADIX_LENGTH)`
abbrev pub radix_block : ℕ
radix_block = 2 ^ 14

abbrev pub top_bit : ℕ
top_bit = 0x80000000

abbrev pub is_leaf : Node → Bool
is_leaf (leaf v c) = true
is_leaf (branch l r v c) = false

abbrev pub value : Node → ℕ
value (leaf v c) = v
value (branch l r v c) = v

abbrev pub count : Node → ℕ
count (leaf v c) = c
count (branch l r v c) = c

-- `_create_leaf`; `xmalloc` clears the count.
unfoldable pub create_leaf : ℕ → Node
create_leaf v = leaf v 0

-- The end of `_set_recurse`: two leaves of one value under a node are discarded.
unfoldable pub merge : Node → Node → ℕ → ℕ → Node
merge (leaf a x) (leaf b y) v c = if b == a then leaf a c else branch (leaf a x) (leaf b y) v c
merge (leaf a x) (branch l r b y) v c = branch (leaf a x) (branch l r b y) v c
merge (branch l r a x) right v c = branch (branch l r a x) right v c

-- `_set_recurse`: `len` bits of the prefix are left, and its next bit is the top one.
unfoldable pub set_recurse : Node → ℕ → ℕ → ℕ → Node
unfolding merge create_leaf
set_recurse node prefix zero v = leaf v (count node)
set_recurse (leaf w c) prefix (suc len) v =
    let child = set_recurse (create_leaf w) (u32 (prefix * 2)) len v in
    if w == v
    then leaf w c
    else if has_bit prefix top_bit
    then merge (create_leaf w) child w c
    else merge child (create_leaf w) w c
set_recurse (branch l r w c) prefix (suc len) v = elim (has_bit prefix top_bit) [
  | true ↦ merge l (set_recurse r (u32 (prefix * 2)) len v) w c
  | false ↦ merge (set_recurse l (u32 (prefix * 2)) len v) r w c
]

-- `_lookup_ip` from a node, with the mask of the next bit.
unfoldable pub lookup_ip : Node → ℕ → ℕ → ℕ
lookup_ip (leaf v c) address mask = v
lookup_ip (branch l r v c) address mask = elim (has_bit address mask) [
  | true ↦ lookup_ip r address (mask / 2)
  | false ↦ lookup_ip l address (mask / 2)
]

-- `_lookup_index`: `ip` is the path so far.
unfoldable pub lookup_index : Node → ℕ → ℕ → ℕ → ℕ
lookup_index (leaf v c) n ip mask = u32 (bit_or ip n)
lookup_index (branch l r v c) n ip mask = elim (ltb n (count l)) [
  | true ↦ lookup_index l n ip (mask / 2)
  | false ↦ lookup_index r (n - count l) (bit_or ip mask) (mask / 2)
]

-- The count of a leaf, without the blocks that the radix array holds.
unfoldable pub leaf_count : ℕ → ℕ → ℕ → Bool → ℕ
leaf_count w v size exclude_radix =
    if w == v then (if exclude_radix && leb radix_block size then 0 else size) else 0

-- `node->count = n`, if painting
abbrev pub set_count : Bool → ℕ → Node → Node
set_count false n node = node
set_count true n (leaf v c) = leaf v n
set_count true n (branch l r v c) = branch l r v n

-- `_count_ips_recurse`: the count, and the tree with its counts written if `paint` is set.
unfoldable pub count_ips_recurse : Node → ℕ → ℕ → Bool → Bool → ℕ × Node
unfolding leaf_count
count_ips_recurse (leaf w c) v size paint exclude_radix =
    let n = leaf_count w v size exclude_radix in (n, set_count paint n (leaf w c))
count_ips_recurse (branch l r w c) v size paint exclude_radix =
    let (a, l') = count_ips_recurse l v (size / 2) paint exclude_radix in
    let (b, r') = count_ips_recurse r v (size / 2) paint exclude_radix in
    let n = u64 (a + b) in (n, set_count paint n (branch l' r' w c))

-- `_lookup_node`, with the count of bits left and the mask of the next one.
unfoldable pub lookup_node : Node → ℕ → ℕ → ℕ → Node
lookup_node node prefix zero mask = node
lookup_node (leaf v c) prefix (suc len) mask = leaf v c
lookup_node (branch l r v c) prefix (suc len) mask = elim (has_bit prefix mask) [
  | true ↦ lookup_node r prefix len (mask / 2)
  | false ↦ lookup_node l prefix len (mask / 2)
]

pub record Constraint : Type 0 where
  pub root : Node
  pub radix : List ℕ
  pub painted : Bool
  pub paint_value : ℕ

unfoldable pub constraint_init : ℕ → Constraint
unfolding create_leaf
constraint_init v = record { root = create_leaf v; radix = []; painted = false; paint_value = 0 }

unfoldable pub constraint_set : Constraint → ℕ → ℕ → ℕ → Constraint
constraint_set con prefix len v = record con {
  root = set_recurse con.root prefix len v;
  painted = false;
}

unfoldable pub constraint_lookup_ip : Constraint → ℕ → ℕ
constraint_lookup_ip con address = lookup_ip con.root address top_bit

-- The test of the radix loop for the `i`th prefix.
unfoldable pub is_radix_prefix : Node → ℕ → ℕ → Bool
is_radix_prefix root v i =
    let node = lookup_node root (u32 (i * radix_block)) radix_length top_bit in
    is_leaf node && value node == v

-- The radix loop from `i`, with the rounds left and the entries so far.
unfoldable pub fill_radix : Node → ℕ → ℕ → ℕ → List ℕ → List ℕ
unfolding is_radix_prefix
fill_radix root v zero i radix = radix
fill_radix root v (suc rounds) i radix =
    fill_radix root v rounds (i + 1)
      (if is_radix_prefix root v i then radix ++ u32 (i * radix_block) ∷ [] else radix)

unfoldable pub constraint_paint_value : Constraint → ℕ → Constraint
constraint_paint_value con v =
    let root = (count_ips_recurse con.root v (2 ^ 32) true true).1 in
    record {
      root = root;
      radix = fill_radix root v (2 ^ radix_length) 0 [];
      painted = true;
      paint_value = v;
    }

unfoldable pub is_painted_for : Constraint → ℕ → Bool
is_painted_for con v = con.painted && con.paint_value == v

unfoldable pub constraint_count_ips : Constraint → ℕ → ℕ
unfolding is_painted_for
constraint_count_ips con v =
    if is_painted_for con v
    then u64 (count con.root + length con.radix * radix_block)
    else (count_ips_recurse con.root v (2 ^ 32) false false).0

-- The lookup in a painted constraint: the radix array first, then the tree.
unfoldable pub painted_lookup_index : Constraint → ℕ → ℕ
painted_lookup_index con index =
    let radix_idx = index / radix_block in
    if ltb radix_idx (length con.radix)
    then bit_or (get_or con.radix radix_idx 0) (index % radix_block)
    else lookup_index con.root (index - length con.radix * radix_block) 0 top_bit

-- `constraint_lookup_index` paints the tree first where it is not painted for the value.
unfoldable pub constraint_lookup_index : Constraint → ℕ → ℕ → ℕ × Constraint
unfolding is_painted_for painted_lookup_index
constraint_lookup_index con index v =
    let con' = if is_painted_for con v then con else constraint_paint_value con v in
    (painted_lookup_index con' index, con')
