-- ===== src/Shard/Walk.antt =====
-- src/shard.c: what `shard_init` sets a shard to walk through.
use zmap_embedded_ip.Base.{
  ℕ, suc, ◌+◌, ◌-◌, ◌*◌, ◌/◌, ◌%◌, ◌^◌, ◌≤◌, ◌<◌, ◌≡◌, ◌⊎◌, inl, inr, sym, ap, ◌∙◌, map, ltb,
  ltb→lt, ltb→le, ◌==◌, ==_iff, Bool-cases, u32, u64, arith,
}
use zmap_embedded_ip.Cyclic.{Cycle, CyclicGroup}
use zmap_embedded_ip.Shard.{
  Shard, ShardParams, exponent_begin, exponent_end, init_shard, subshards, sub_index,
}
use zmap_embedded_ip.Shard.Power.{IsGenerator, exponents, element-Trail}
use zmap_embedded_ip.Shard.Range.{width, start, start-le}
use zmap_embedded_ip.Shard.Trail.{Trail}
use native.Mathlib.Nat.{
  mod_self, add-mod_right, div-mul-le_self, mul-le-mul_left, mod-lt, mod-eq_of_lt, mod-eq-sub-mod,
  mod-add-mod, le-div_iff_mul-le,
}

-- A sum against its remainder, one turn of the cycle at most.
turn : (x w q : ℕ) → 0 < q → w ≤ q → (x % q + w ≡ (x + w) % q) ⊎ (x % q + w ≡ (x + w) % q + q)
turn x w q pos le =
    let z = x % q + w in
    let e : z % q ≡ (x + w) % q = mod-add-mod x q w in
    elim (Bool-cases (ltb z q)) [
      | inl h ↦ inl (sym (mod-eq_of_lt (ltb→lt _ _ h)) ∙ e)
      | inr h ↦
          let past = ltb→le z q h in
          let r : z - q < q = omega (arith, mod-lt x pos) in
          let f : z % q ≡ z - q = mod-eq-sub-mod past ∙ mod-eq_of_lt r in inr (omega arith)
    ]

module _ (order n offset i : ℕ) (pos : 0 < n) (few : n < 2 ^ 32) (le : n ≤ order) (own : i < n)
    (small : order < 2 ^ 62) (off : offset < 2 ^ 62) where
  exact : (k : ℕ) → k ≤ n → u64 (u64 (order / n * k) + offset) ≡ start order n k + offset
  exact k hk = omega (arith, mul-le-mul_left (order / n) hk, div-mul-le_self order n)

  exponent_begin-eq : exponent_begin order n offset i ≡ (start order n i + offset) % order
  unfolding exponent_begin
  exponent_begin-eq = ap (λ t. t % order) (exact i (omega arith))

  pub width_pos : 0 < width order n i
  unfolding width
  width_pos =
      let f : 0 < order / n = (le-div_iff_mul-le pos).1 (omega arith) in
      let room : order / n * (i + 1) ≤ order / n * n = mul-le-mul_left (order / n) (omega arith) in
      ground (arith, div-mul-le_self order n)

  pub width-le : width order n i ≤ order
  unfolding width
  width-le =
      let room : order / n * 1 ≤ order / n * n = mul-le-mul_left (order / n) (omega arith) in
      ground (arith, div-mul-le_self order n)

  -- The last exponent of a subshard is the first of the next, and that of the last subshard is
  -- the first of all, one turn later.
  exponent_end-eq :
      exponent_end order n offset i ≡ (start order n i + offset + width order n i) % order
  unfolding exponent_end width
  exponent_end-eq =
      let next : u32 (i + 1) ≡ i + 1 = omega arith in
      elim (Bool-cases (i + 1 == n)) [
        | inl e ↦
            let last : i + 1 ≡ n = (==_iff _ _).0 e in
            let turned : order / n * i + offset + (order - order / n * i) ≡ offset + order =
              omega (arith, start-le order n i (omega arith)) in
            rw
              (next, e, turned, last, mod_self n, exact 0 (omega arith), add-mod_right offset order)
              (ap (λ t. t % order) (omega arith))
        | inr e ↦
            let inside : i + 1 < n = ground arith in
            rw (next, e, mod-eq_of_lt inside, exact (i + 1) (omega arith))
              (ap (λ t. t % order) (omega arith))
      ]

-- The exponent at which a subshard starts, with the cycle's offset.
abbrev pub begin : ℕ → ℕ → ℕ → ℕ → ℕ
begin order n offset i = (start order n i + offset) % order

module _ (ps : ShardParams) (gen : IsGenerator ps.factor ps.modulus)
    (fits : ps.factor * ps.modulus ≤ 2 ^ 64) (word : ps.modulus ≤ 2 ^ 62) where
  abbrev element : ℕ → ℕ
  element e = ps.factor ^ e % ps.modulus

  range-Trail :
      (n offset i : ℕ)
      → i < n
      → n < 2 ^ 32
      → n ≤ ps.modulus - 1
      → offset < ps.modulus
      → ps.last ≡ element (exponent_end (ps.modulus - 1) n offset i)
      → Trail ps (element (exponent_begin (ps.modulus - 1) n offset i)) (
          map element (
            exponents
              (ps.modulus - 1)
              (begin (ps.modulus - 1) n offset i)
              (width (ps.modulus - 1) n i - 1)))
  range-Trail n offset i own few le off e =
      let order : ℕ = ps.modulus - 1 in
      let one = gen.above_one in
      let pos : 0 < n = omega arith in
      let small : order < 2 ^ 62 = omega arith in
      let off' : offset < 2 ^ 62 = omega arith in
      let w = width_pos order n offset i pos few le own small off' in
      let w' = width-le order n offset i pos few le own small off' in
      let b = exponent_begin-eq order n offset i pos few le own small off' in
      let s = exponent_end-eq order n offset i pos few le own small off' in
      let full : suc (width order n i - 1) ≡ width order n i = omega arith in
      rw b (
        element-Trail ps gen fits (width order n i - 1) (begin order n offset i)
          ((start order n i + offset + width order n i) % order) (mod-lt _ (omega arith))
          (mod-lt _ (omega arith)) (omega arith)
          (rw full (turn (start order n i + offset) (width order n i) order (omega arith) w'))
          (e ∙ ap element s))

module _ (powm : ℕ → ℕ → ℕ → ℕ) (powm_lem : (b e m : ℕ) → powm b e m ≡ b ^ e % m)
    (group : CyclicGroup) (generator offset : ℕ) (gen : IsGenerator generator group.prime)
    (fits : generator * group.prime ≤ 2 ^ 64) (word : group.prime ≤ 2 ^ 62)
    (off : offset < group.prime) where
  -- A cycle as `make_cycle` makes it.
  abbrev pub cycle : Cycle
  cycle = record { group = group; generator = generator; order = group.prime - 1; offset = offset }

  abbrev power : ℕ → ℕ
  power e = generator ^ e % group.prime

  powm_word : (e : ℕ) → u64 (powm generator e group.prime) ≡ power e
  powm_word e =
      let lt = mod-lt (generator ^ e) {m = group.prime} (omega (arith, gen.above_one)) in
      rw (powm_lem generator e group.prime) (mod-eq_of_lt (omega arith))

  -- For a generator of a group of prime at most 2^62, whose product with the prime is at most 2^64,
  -- and a subshard index below the number of subshards, which is at most the order: a new shard
  -- stands at the power of the first exponent of its range, its steps go through the powers of
  -- the other exponents of the range in order, and it meets its last element only after them.
  pub init_shard-Trail :
      (previous : Shard) (shard_idx num_shards thread_idx num_threads max_total bits : ℕ)
      → let order = group.prime - 1 in
        let n = subshards num_shards num_threads in
        let i = sub_index shard_idx num_threads thread_idx in
        let s =
          init_shard powm previous shard_idx num_shards thread_idx num_threads max_total bits
            cycle in
        i < n
        → n ≤ order
        → (s.current ≡ power (begin order n offset i))
          × Trail s.params s.current
              (map power (exponents order (begin order n offset i) (width order n i - 1)))
  unfolding init_shard
  init_shard-Trail previous shard_idx num_shards thread_idx num_threads max_total bits own le =
      let order : ℕ = group.prime - 1 in
      let n = subshards num_shards num_threads in
      let i = sub_index shard_idx num_threads thread_idx in
      let ps : ShardParams = record {
        first = u64 (powm generator (exponent_begin order n offset i) group.prime);
        last = u64 (powm generator (exponent_end order n offset i) group.prime);
        factor = generator;
        modulus = group.prime;
      } in
      let one = gen.above_one in
      let few : n < 2 ^ 32 = omega arith in
      let b =
        exponent_begin-eq order n offset i (omega arith) few le own (omega arith) (omega arith) in
      let first = powm_word (exponent_begin order n offset i) in
      (
        first ∙ ap power b,
        rw first (
            range-Trail ps gen fits word n offset i own few le off
              (powm_word (exponent_end order n offset i))),
      )
