-- ===== src/Constraint/Enumerate.antt =====
-- lib/constraint.c: `constraint_lookup_index` enumerates the addresses with a value.
use zmap_embedded_ip.Base.{
  ◌↔◌, ℕ, ◌+◌, ◌*◌, ◌^◌, ◌<◌, ◌≡◌, refl, sym, ap, ◌∙◌, true, inl, inr, ◌==◌, ==_iff, ==_refl,
  if◌then◌else◌, Bool-cases, length,
}
use zmap_embedded_ip.Base.Counting.{count_below_congr}
use zmap_embedded_ip.Constraint.{
  Constraint, constraint_paint_value, constraint_count_ips, constraint_lookup_ip,
  constraint_lookup_index, is_painted_for, is_radix_prefix, count, radix_block,
}
use zmap_embedded_ip.Constraint.Index.{
  total-count_below, Finds, index_of, painted_lookup_index-Finds, painted_lookup_index-index_of,
}
use zmap_embedded_ip.Constraint.Paint.{IsPainted}
use zmap_embedded_ip.Constraint.Radix.{IsFilled}
use zmap_embedded_ip.Constraint.Tree.{value_at}
use zmap_embedded_ip.Constraint.Lookup.{constraint_lookup_ip-value_at}
use zmap_embedded_ip.Constraint.Valid.{
  IsValid, constraint_paint_value-IsValid, constraint_lookup_ip-paint_value,
  constraint_count_ips-count_below, painted_counts, painted_entries,
}

-- The constraint that the lookup reads: painted for the value, at need.
abbrev ready : Constraint → ℕ → Constraint
ready con v = if is_painted_for con v then con else constraint_paint_value con v

ready-IsValid : (con : Constraint) (v : ℕ) → IsValid con → IsValid (ready con v)
ready-IsValid con v valid = elim (Bool-cases (is_painted_for con v)) [
  | inl e ↦ rw e valid
  | inr e ↦ rw e (constraint_paint_value-IsValid con v valid.well)
]

ready_painted : (con : Constraint) (v : ℕ) → is_painted_for (ready con v) v ≡ true
ready_painted con v = elim (Bool-cases (is_painted_for con v)) [
  | inl e ↦ rw e e
  | inr e ↦ rw e (unfold is_painted_for constraint_paint_value in ==_refl v)
]

ready-lookup_ip :
    (con : Constraint) (v a : ℕ)
    → a < 2 ^ 32
    → constraint_lookup_ip (ready con v) a ≡ constraint_lookup_ip con a
ready-lookup_ip con v a h = elim (Bool-cases (is_painted_for con v)) [
  | inl e ↦ rw e refl
  | inr e ↦ rw e (constraint_lookup_ip-paint_value con v a h)
]

-- `constraint_lookup_index` on a valid constraint leaves a valid constraint that is painted for the
-- value and gives each 32-bit address the value that it had.
pub constraint_lookup_index-IsValid :
    (con : Constraint) (index v a : ℕ)
    → IsValid con
    → a < 2 ^ 32
    → let con' = (constraint_lookup_index con index v).1 in
      IsValid con'
      × (is_painted_for con' v ≡ true)
      × (constraint_lookup_ip con' a ≡ constraint_lookup_ip con a)
unfolding constraint_lookup_index
constraint_lookup_index-IsValid con index v a valid h =
    (ready-IsValid con v valid, ready_painted con v, ready-lookup_ip con v a h)

module _ (con : Constraint) (v : ℕ) (valid : IsValid con) where
  abbrev found : ℕ → ℕ
  found index = (constraint_lookup_index con index v).0

  readied : IsValid (ready con v)
  readied = ready-IsValid con v valid

  counts : IsPainted (ready con v).root v true 32
  counts = painted_counts (ready con v) v readied (ready_painted con v)

  entries : IsFilled (is_radix_prefix (ready con v).root v) (2 ^ 18) (ready con v).radix
  entries = painted_entries (ready con v) v readied (ready_painted con v)

  value_ready : (a : ℕ) → a < 2 ^ 32 → value_at (ready con v).root 32 a ≡ constraint_lookup_ip con a
  value_ready a h =
      sym (constraint_lookup_ip-value_at (ready con v) a h) ∙ ready-lookup_ip con v a h

  total_ready :
      count (ready con v).root + length (ready con v).radix * radix_block
      ≡ constraint_count_ips con v
  total_ready =
      total-count_below (ready con v) v counts entries
      ∙ count_below_congr _ _ (2 ^ 32) (λ a h. ap (λ x. x == v) (value_ready a h))
      ∙ sym (constraint_count_ips-count_below con v valid)

  finds :
      (index : ℕ)
      → index < constraint_count_ips con v
      → Finds (ready con v) v counts entries index (found index)
  unfolding constraint_lookup_index
  finds index h = painted_lookup_index-Finds (ready con v) v counts entries index (rw total_ready h)

  -- On a valid constraint, every index below the count of a value finds a 32-bit address with that
  -- value.
  pub constraint_lookup_index-lookup_ip :
      (index : ℕ)
      → index < constraint_count_ips con v
      → (found index < 2 ^ 32) × (constraint_lookup_ip con (found index) ≡ v)
  constraint_lookup_index-lookup_ip index h =
      let f = finds index h in
      (f.bound, sym (value_ready (found index) f.bound) ∙ (==_iff _ v).0 f.valued)

  -- On a valid constraint, no address is found at two indices below the count of the value.
  pub constraint_lookup_index-injective :
      (i j : ℕ)
      → i < constraint_count_ips con v
      → j < constraint_count_ips con v
      → found i ≡ found j
      → i ≡ j
  constraint_lookup_index-injective i j hi hj e =
      sym (finds i hi).indexed
      ∙ ap (index_of (ready con v) v counts entries) e
      ∙ (finds j hj).indexed

  -- On a valid constraint, every 32-bit address with the value is found at some index below the
  -- count of the value.
  pub constraint_lookup_index-surjective :
      (a : ℕ)
      → a < 2 ^ 32
      → constraint_lookup_ip con a ≡ v
      → (i : ℕ) × (i < constraint_count_ips con v) × (found i ≡ a)
  unfolding constraint_lookup_index
  constraint_lookup_index-surjective a h e =
      let valued : (value_at (ready con v).root 32 a == v) ≡ true =
        (==_iff _ v).1 (value_ready a h ∙ e) in
      let (lt, at) = painted_lookup_index-index_of (ready con v) v counts entries a h valued in
      (index_of (ready con v) v counts entries a, rw (← total_ready) lt, at)

  -- On a valid constraint, every index below the count of a value finds a 32-bit address with that
  -- value, and two such indices find the same address exactly if they are equal.
  pub constraint_lookup_index-enumerates :
      (i j : ℕ)
      → i < constraint_count_ips con v
      → j < constraint_count_ips con v
      → (found i < 2 ^ 32)
        × (constraint_lookup_ip con (found i) ≡ v)
        × ((found i ≡ found j) ↔ (i ≡ j))
  constraint_lookup_index-enumerates i j hi hj =
      let (bound, value) = constraint_lookup_index-lookup_ip i hi in
      (bound, value, (constraint_lookup_index-injective i j hi hj, λ e. ap found e))
