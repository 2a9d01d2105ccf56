-- ===== src/Constraint/Valid.antt =====
-- lib/constraint.c: the invariant of the whole structure, with the painted counts and the radix
-- array, under every operation; and what counting and painting do to the addresses.
use zmap_embedded_ip.Base.{
  ℕ, [], ◌^◌, ◌≤◌, ◌<◌, ◌≡◌, refl, sym, ap, ◌∙◌, true, false, inl, inr, ◌==◌, Bool-cases, arith,
}
use zmap_embedded_ip.Base.Counting.{count_below, count_below_congr, count_below-le}
use zmap_embedded_ip.Constraint.{
  Node, leaf, branch, Constraint, constraint_init, constraint_set, constraint_paint_value,
  constraint_count_ips, constraint_lookup_ip, is_painted_for, is_radix_prefix, count_ips_recurse,
}
use zmap_embedded_ip.Constraint.Count.{counted-all, count_ips_recurse-count_below}
use zmap_embedded_ip.Constraint.Index.{total-count_below}
use zmap_embedded_ip.Constraint.Lookup.{constraint_lookup_ip-value_at}
use zmap_embedded_ip.Constraint.Paint.{
  SameShape, IsPainted, count_ips_recurse-SameShape, count_ips_recurse-IsPainted,
  value_at-SameShape, depth-SameShape,
}
use zmap_embedded_ip.Constraint.Radix.{IsFilled, fill_radix-IsFilled, empty-IsFilled}
use zmap_embedded_ip.Constraint.Reduced.{
  IsReduced, twins, IsWellFormed, constraint_set-IsWellFormed, constraint_init-IsWellFormed,
}
use zmap_embedded_ip.Constraint.Tree.{value_at}

pub record IsValid (con : Constraint) : Type 0 where
  pub well : IsWellFormed con
  pub counts : con.painted ≡ true → IsPainted con.root con.paint_value true 32
  pub entries :
      con.painted ≡ true → IsFilled (is_radix_prefix con.root con.paint_value) (2 ^ 18) con.radix

pub constraint_init-IsValid : (v : ℕ) → IsValid (constraint_init v)
unfolding constraint_init
constraint_init-IsValid v = record {
  well = constraint_init-IsWellFormed v;
  counts = λ e. cc;
  entries = λ e. cc;
}

-- Setting a prefix of at most 32 bits keeps the invariant.
pub constraint_set-IsValid :
    (con : Constraint) (prefix len v : ℕ)
    → len ≤ 32
    → IsValid con
    → IsValid (constraint_set con prefix len v)
unfolding constraint_set
constraint_set-IsValid con prefix len v h valid = record {
  well = constraint_set-IsWellFormed con prefix len v h valid.well;
  counts = λ e. cc;
  entries = λ e. cc;
}

twins-SameShape : (l r l' r' : Node) → SameShape l l' → SameShape r r' → twins l r ≡ twins l' r'
twins-SameShape (leaf a x) (leaf b y) (leaf a' x') (leaf b' y') h k = rw (h, k)
twins-SameShape (leaf a x) (leaf b y) (leaf a' x') (branch l' r' b' y') h k = absurd k
twins-SameShape (leaf a x) (leaf b y) (branch l' r' b' y') right h k = absurd h
twins-SameShape (leaf a x) (branch l r b y) (leaf a' x') (leaf b' y') h k = absurd k
twins-SameShape (leaf a x) (branch l r b y) (leaf a' x') (branch l' r' b' y') h k = refl
twins-SameShape (leaf a x) (branch l r b y) (branch l' r' b' y') right h k = absurd h
twins-SameShape (branch l r a x) right (leaf a' x') right' h k = absurd h
twins-SameShape (branch l r a x) right (branch l' r' a' x') right' h k = refl

IsReduced-SameShape : (t t' : Node) → SameShape t t' → IsReduced t → IsReduced t'
IsReduced-SameShape (leaf w c) (leaf w' c') h k = tt
IsReduced-SameShape (branch l r w c) (branch l' r' w' c') h k = (
  IsReduced-SameShape l l' h.0 k.0,
  IsReduced-SameShape r r' h.1 k.1,
  sym (twins-SameShape l r l' r' h.0 h.1) ∙ k.2,
)
IsReduced-SameShape (leaf w c) (branch l' r' w' c') h k = absurd h
IsReduced-SameShape (branch l r w c) (leaf w' c') h k = absurd h

painted_root : (con : Constraint) (v : ℕ) → SameShape con.root (constraint_paint_value con v).root
unfolding constraint_paint_value
painted_root con v = count_ips_recurse-SameShape con.root v (2 ^ 32) true

-- Painting, for whatever value, establishes the invariant on a well-formed tree.
pub constraint_paint_value-IsValid :
    (con : Constraint) (v : ℕ) → IsWellFormed con → IsValid (constraint_paint_value con v)
unfolding constraint_paint_value
constraint_paint_value-IsValid con v w =
    let root = (count_ips_recurse con.root v (2 ^ 32) true true).1 in
    record {
      well = record {
        reduced = IsReduced-SameShape con.root root (painted_root con v) w.reduced;
        shallow = rw (← depth-SameShape con.root root (painted_root con v)) w.shallow;
      };
      counts = λ e. count_ips_recurse-IsPainted con.root v 32 true w.shallow (omega arith);
      entries = λ e. fill_radix-IsFilled root v (2 ^ 18) 0 [] (empty-IsFilled _);
    }

-- Painting changes the value of no 32-bit address.
pub constraint_lookup_ip-paint_value :
    (con : Constraint) (v a : ℕ)
    → a < 2 ^ 32
    → constraint_lookup_ip (constraint_paint_value con v) a ≡ constraint_lookup_ip con a
constraint_lookup_ip-paint_value con v a h =
    constraint_lookup_ip-value_at (constraint_paint_value con v) a h
    ∙ sym (value_at-SameShape _ _ 32 a (painted_root con v))
    ∙ sym (constraint_lookup_ip-value_at con a h)

count_values :
    (con : Constraint) (v : ℕ)
    → count_below (λ a. value_at con.root 32 a == v) (2 ^ 32)
      ≡ count_below (λ a. constraint_lookup_ip con a == v) (2 ^ 32)
count_values con v =
    count_below_congr _ _ (2 ^ 32)
      (λ a h. ap (λ x. x == v) (sym (constraint_lookup_ip-value_at con a h)))

pub painted_parts :
    (con : Constraint) (v : ℕ)
    → is_painted_for con v ≡ true
    → (con.painted ≡ true) × (con.paint_value ≡ v)
unfolding is_painted_for
painted_parts con v e = ground arith

module _ (con : Constraint) (v : ℕ) (valid : IsValid con) (e : is_painted_for con v ≡ true) where
  pub painted_counts : IsPainted con.root v true 32
  painted_counts =
      let (is_painted, same) = painted_parts con v e in rw (← same) (valid.counts is_painted)

  pub painted_entries : IsFilled (is_radix_prefix con.root v) (2 ^ 18) con.radix
  painted_entries =
      let (is_painted, same) = painted_parts con v e in rw (← same) (valid.entries is_painted)

-- On a valid constraint `constraint_count_ips` is the number of 32-bit addresses that
-- `constraint_lookup_ip` gives the value, whether the count is read off the painted counts and the
-- radix array or counted anew.
pub constraint_count_ips-count_below :
    (con : Constraint) (v : ℕ)
    → IsValid con
    → constraint_count_ips con v ≡ count_below (λ a. constraint_lookup_ip con a == v) (2 ^ 32)
unfolding constraint_count_ips
constraint_count_ips-count_below con v valid = elim (Bool-cases (is_painted_for con v)) [
  | inl e ↦
      let sum =
        total-count_below con v (painted_counts con v valid e) (painted_entries con v valid e) in
      let bound = count_below-le (λ a. value_at con.root 32 a == v) (2 ^ 32) in
      rw e (omega (arith, sum, bound, count_values con v))
  | inr e ↦ rw e (
      count_ips_recurse-count_below con.root v 32 false false valid.well.shallow (omega arith)
      ∙ count_below_congr _ _ (2 ^ 32) (λ a _. counted-all con.root v 32 a)
      ∙ count_values con v)
]
