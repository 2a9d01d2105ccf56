-- ===== src/Tests/Shards.antt =====
-- src/shard.c and src/cyclic.c at concrete inputs: a group of prime 5, shared out to two threads.
use zmap_embedded_ip.Base.{
  ℕ, zero, suc, ◌+◌, ◌%◌, ◌^◌, ◌<◌, ◌≡◌, ◌≢◌, refl, sym, ap, ◌∙◌, some, [], ◌∷◌, map, filter_by,
  ◌==◌, if◌then◌else◌, arith,
}
use zmap_embedded_ip.Cyclic.{CyclicGroup, get_group, groups, find_primroot, is_root}
use zmap_embedded_ip.Cyclic.Groups.{get_group-IsSmallest, IsSmallest}
use zmap_embedded_ip.Cyclic.Search.{Finds, find_primroot-Finds}
use zmap_embedded_ip.Shard.{ShardState, Shard, Scan, is_target, target_of, init_shard}
use zmap_embedded_ip.Shard.Trail.{remaining, remaining-Trail, Trail}
use zmap_embedded_ip.Shard.Power.{IsGenerator, exponents}
use zmap_embedded_ip.Shard.Range.{width}
use zmap_embedded_ip.Shard.Walk.{init_shard-Trail, cycle}

abbrev powm : ℕ → ℕ → ℕ → ℕ
powm b e m = b ^ e % m

abbrev five : CyclicGroup
five = record { prime = 5; known_primroot = 2; prime_factors = 2 ∷ [] }

abbrev state : ShardState
state = record {
  packets_sent = 0;
  targets_scanned = 0;
  max_targets = 0;
  max_packets = 0;
  packets_failed = 0;
  first_scanned = 0;
}

-- A shard that stands at 2 and walks through 4 and 3 before its last element 1.
abbrev shard : Shard
shard = record {
  state = state;
  params = record { first = 2; last = 1; factor = 2; modulus = 5 };
  current = 2;
  iterations = 0;
  thread_id = 0;
  bits_for_port = 0;
}

abbrev scan : Scan
scan = record { max_index = 3; port_count = 1; ports = 80 ∷ []; lookup_index = λ i. i + 100 }

five-IsGenerator : IsGenerator 2 5
five-IsGenerator = record {
  above_one = omega arith;
  cycles = refl;
  nonzero = nonzero;
  distinct = distinct;
}
  where
    nonzero : (i : ℕ) → i < 4 → 2 ^ i % 5 ≢ 0
    nonzero zero h e = omega (arith, e)
    nonzero (suc zero) h e = omega (arith, e)
    nonzero (suc (suc zero)) h e = omega (arith, e)
    nonzero (suc (suc (suc zero))) h e = omega (arith, e)
    nonzero (suc (suc (suc (suc i)))) h e = omega (arith, h)

    log : ℕ → ℕ
    log x = if x == 1 then 0 else if x == 2 then 1 else if x == 4 then 2 else 3

    log-power : (i : ℕ) → i < 4 → log (2 ^ i % 5) ≡ i
    log-power zero h = refl
    log-power (suc zero) h = refl
    log-power (suc (suc zero)) h = refl
    log-power (suc (suc (suc zero))) h = refl
    log-power (suc (suc (suc (suc i)))) h = absurd (omega (arith, h))

    distinct : (i j : ℕ) → i < 4 → j < 4 → 2 ^ i % 5 ≡ 2 ^ j % 5 → i ≡ j
    distinct i j hi hj e = sym (log-power i hi) ∙ ap log e ∙ log-power j hj

get_group-IsSmallest_example :
    (g : CyclicGroup) × (get_group 65537 ≡ some g) × (65537 < g.prime) × IsSmallest 65537 g groups
get_group-IsSmallest_example = get_group-IsSmallest 65537 (omega arith)

find_primroot-Finds_example : Finds powm five (omega arith) (find_primroot powm five 6 77)
unfolding is_root
find_primroot-Finds_example =
    find_primroot-Finds powm five (omega arith) 2 77 5 (omega arith) (omega arith) refl
      (omega arith)

remaining-Trail_example :
    remaining scan 3 3 shard
    ≡ some (map (target_of scan 0) (filter_by (is_target scan 0) (4 ∷ 3 ∷ [])))
remaining-Trail_example =
    remaining-Trail scan 3 3 shard (4 ∷ 3 ∷ []) (omega arith) (omega arith) (omega arith)
      (refl, omega arith, omega arith, (refl, omega arith, omega arith, refl))

init_shard-Trail_example :
    let s = init_shard powm shard 0 1 1 2 0 0 (
      cycle powm
        (λ b e m. refl)
        five
        2
        3
        five-IsGenerator
        (omega arith)
        (omega arith)
        (omega arith)) in
    (s.current ≡ 2 ^ 1 % 5) × Trail s.params s.current (map (λ e. 2 ^ e % 5) (exponents 4 1 1))
unfolding width
init_shard-Trail_example =
    init_shard-Trail powm (λ b e m. refl) five 2 3 five-IsGenerator (omega arith) (omega arith)
      (omega arith) shard 0 1 1 2 0 0 (omega arith) (omega arith)

-- A step of the group of the prime 281474976710677 by the root 4194303.
abbrev far : Shard
far = record shard {
  current = 4398050000000;
  params = record { first = 1; last = 1; factor = 4194303; modulus = 281474976710677 };
}
