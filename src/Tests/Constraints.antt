-- ===== src/Tests/Constraints.antt =====
-- lib/constraint.c at concrete inputs: a tree that allows 10.0.0.0/24 and 10.0.0.128/25 of it not.
use zmap_embedded_ip.Base.{ℕ, ◌/◌, ◌^◌, ◌<◌, ◌≡◌, refl, ◌==◌, has_bit, if◌then◌else◌, arith, ◌↔◌}
use zmap_embedded_ip.Base.Counting.{count_below}
use zmap_embedded_ip.Constraint.{
  Constraint, constraint_init, constraint_set, constraint_lookup_ip, constraint_count_ips,
  constraint_lookup_index, count_ips_recurse, set_recurse, lookup_ip,
}
use zmap_embedded_ip.Constraint.Lookup.{constraint_lookup_ip-set}
use zmap_embedded_ip.Constraint.Reduced.{IsWellFormed, constraint_set-IsWellFormed}
use zmap_embedded_ip.Constraint.Valid.{
  IsValid, constraint_init-IsValid, constraint_set-IsValid, constraint_count_ips-count_below,
}
use zmap_embedded_ip.Constraint.Enumerate.{
  constraint_lookup_index-enumerates, constraint_lookup_index-surjective,
}

-- 10.0.0.0 is 167772160.
abbrev block : Constraint
block = constraint_set (constraint_init 0) 167772160 24 1

abbrev half_block : Constraint
half_block = constraint_set block 167772288 25 0

block-IsValid : IsValid block
block-IsValid =
    constraint_set-IsValid (constraint_init 0) 167772160 24 1 (omega arith)
      (constraint_init-IsValid 0)

half_block-IsValid : IsValid half_block
half_block-IsValid = constraint_set-IsValid block 167772288 25 0 (omega arith) block-IsValid

block_count : constraint_count_ips half_block 1 ≡ 128
unfolding constraint_count_ips constraint_set count_ips_recurse set_recurse constraint_init has_bit
block_count = refl

block_value : constraint_lookup_ip half_block 167772163 ≡ 1
unfolding constraint_lookup_ip lookup_ip constraint_set set_recurse constraint_init has_bit
block_value = refl

constraint_lookup_ip-set_example :
    constraint_lookup_ip half_block 167772290
    ≡ (if 167772290 / 2 ^ 7 == 167772288 / 2 ^ 7 then 0 else constraint_lookup_ip block 167772290)
constraint_lookup_ip-set_example =
    constraint_lookup_ip-set block 167772288 25 0 167772290 (omega arith) (omega arith)
      (omega arith)

constraint_set-IsWellFormed_example : IsWellFormed half_block
constraint_set-IsWellFormed_example =
    constraint_set-IsWellFormed block 167772288 25 0 (omega arith) block-IsValid.well

constraint_count_ips-count_below_example :
    constraint_count_ips half_block 1
    ≡ count_below (λ a. constraint_lookup_ip half_block a == 1) (2 ^ 32)
constraint_count_ips-count_below_example =
    constraint_count_ips-count_below half_block 1 half_block-IsValid

constraint_lookup_index-surjective_example :
    (i : ℕ) × (i < constraint_count_ips half_block 1)
    × ((constraint_lookup_index half_block i 1).0 ≡ 167772163)
constraint_lookup_index-surjective_example =
    constraint_lookup_index-surjective half_block 1 half_block-IsValid 167772163 (omega arith)
      block_value

constraint_lookup_index-enumerates_example :
    ((constraint_lookup_index half_block 3 1).0 < 2 ^ 32)
    × (constraint_lookup_ip half_block (constraint_lookup_index half_block 3 1).0 ≡ 1)
    × (((constraint_lookup_index half_block 3 1).0 ≡ (constraint_lookup_index half_block 5 1).0)
        ↔ (◌≡◌ {A = ℕ} 3 5))
constraint_lookup_index-enumerates_example =
    constraint_lookup_index-enumerates half_block 1 half_block-IsValid 3 5
      (omega (arith, block_count)) (omega (arith, block_count))
