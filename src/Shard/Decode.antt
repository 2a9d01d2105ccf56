-- ===== src/Shard/Decode.antt =====
-- src/shard.c: where an element of the group is decoded, and where the arithmetic of a step fits
-- 64 bits.
use zmap_embedded_ip.Base.{
  ℕ, zero, suc, inl, inr, Bool-cases, ltb→lt, ltb→le, ◌+◌, ◌-◌, ◌*◌, ◌%◌, ◌^◌, ◌≤◌, ◌<◌, ◌≡◌, ◌≢◌,
  refl, sym, ap, ◌∙◌, ltb, u64, bit_and-mask, arith,
}
use zmap_embedded_ip.Constraint.Tree.{pow-pos}
use zmap_embedded_ip.Shard.{
  minus_one, Scan, extract_port, extract_ip, target_of, is_target, Shard, shard_get_next_elem,
}
use native.Mathlib.Nat.{
  add-mod, add-mul-div_right, add-mul-mod_self_right, div-eq_of_lt, mod-eq_of_lt, mod-lt, mod-zero,
  mod-eq-sub-mod, mul-le-mul_right,
}

extract_ip-wraps : (v bits : ℕ) → extract_ip (v + 2 ^ 32 * 2 ^ bits) bits ≡ extract_ip v bits
unfolding extract_ip
extract_ip-wraps v bits = rw (add-mul-div_right v (2 ^ 32) (pow-pos bits)) (omega arith)

extract_port-wraps : (v bits : ℕ) → extract_port (v + 2 ^ 32 * 2 ^ bits) bits ≡ extract_port v bits
unfolding extract_port
extract_port-wraps v bits =
    rw
      (
        bit_and-mask bits (v + 2 ^ 32 * 2 ^ bits),
        bit_and-mask bits v,
        add-mul-mod_self_right v (2 ^ 32) (2 ^ bits),
      )
      refl

-- Two elements of a group that differ by `2 ^ 32` times the number of port codes stand for the
-- same target: the address index is cut to 32 bits before it is tested.
pub target_of-wraps :
    (scan : Scan) (bits x : ℕ)
    → 1 ≤ x
    → x + 2 ^ 32 * 2 ^ bits ≤ 2 ^ 64
    → (is_target scan bits (x + 2 ^ 32 * 2 ^ bits) ≡ is_target scan bits x)
      × (target_of scan bits (x + 2 ^ 32 * 2 ^ bits) ≡ target_of scan bits x)
unfolding is_target target_of
target_of-wraps scan bits x pos small =
    let e : minus_one (x + 2 ^ 32 * 2 ^ bits) ≡ minus_one x + 2 ^ 32 * 2 ^ bits = omega arith in
    (
      rw (e, extract_ip-wraps (minus_one x) bits, extract_port-wraps (minus_one x) bits) refl,
      rw (e, extract_ip-wraps (minus_one x) bits, extract_port-wraps (minus_one x) bits) refl,
    )

-- An address index and a port code below the bounds, packed as one element.
abbrev pub pack : ℕ → ℕ → ℕ → ℕ
pack bits index code = index * 2 ^ bits + code + 1

-- For at most 16 port bits, a 32-bit index and a code of that many bits, decoding gives back the
-- address index and the port code that an element packs.
pub extract-pack :
    (bits index code : ℕ)
    → bits ≤ 16
    → index < 2 ^ 32
    → code < 2 ^ bits
    → code < 2 ^ 16
    → (extract_ip (pack bits index code - 1) bits ≡ index)
      × (extract_port (pack bits index code - 1) bits ≡ code)
unfolding extract_ip extract_port
extract-pack bits index code hb hi hc hw =
    let e : pack bits index code - 1 ≡ code + index * 2 ^ bits = omega arith in
    (
      rw (e, add-mul-div_right code index (pow-pos bits), div-eq_of_lt hc) (omega arith),
      rw
          (
            e,
            bit_and-mask bits (code + index * 2 ^ bits),
            add-mul-mod_self_right code index (2 ^ bits),
            mod-eq_of_lt hc,
          )
          (mod-eq_of_lt hw),
    )

-- The largest root and a prime of at most `2 ^ 42` leave room for every product of a step.
pub step_fits : (root prime : ℕ) → root ≤ 2 ^ 22 → prime ≤ 2 ^ 42 → root * prime ≤ 2 ^ 64
step_fits root prime hr hp = omega (arith, mul-le-mul_right prime hr)

-- A number that leaves a remainder unchanged has remainder 0.
mod_cancel : (y m p : ℕ) → (y + m) % p ≡ y % p → m % p ≡ 0
mod_cancel y m zero e = omega (arith, mod-zero (y + m), mod-zero y, mod-zero m)
mod_cancel y m (suc p) e =
    let r = y % suc p + m % suc p in
    let sum : r % suc p ≡ y % suc p = sym (add-mod y m (suc p)) ∙ e in
    let hy = mod-lt y {m = suc p} (omega arith) in
    let hm = mod-lt m {m = suc p} (omega arith) in
    elim (Bool-cases (ltb r (suc p))) [
      | inl h ↦ omega (arith, mod-eq_of_lt (ltb→lt _ _ h))
      | inr h ↦
          let past = ltb→le _ _ h in
          let back : r % suc p ≡ r - suc p = mod-eq-sub-mod past ∙ mod-eq_of_lt (omega arith) in
          absurd (omega arith)
    ]

-- Where the product of the current element and the factor is at least `2 ^ 64` and below twice
-- that, and the modulus does not divide `2 ^ 64`, the step does not give the product modulo the
-- modulus.
pub shard_get_next_elem-overflow :
    (s : Shard)
    → 2 ^ 64 ≤ s.current * s.params.factor
    → s.current * s.params.factor < 2 * 2 ^ 64
    → 2 ^ 64 % s.params.modulus ≢ 0
    → (shard_get_next_elem s).current ≢ s.current * s.params.factor % s.params.modulus
unfolding shard_get_next_elem
shard_get_next_elem-overflow s low high apart same =
    let y = s.current * s.params.factor - 2 ^ 64 in
    let whole : s.current * s.params.factor ≡ y + 2 ^ 64 = omega arith in
    let cut : u64 (s.current * s.params.factor) ≡ y = omega arith in
    apart (
      mod_cancel y (2 ^ 64) s.params.modulus (
        ap (λ t. t % s.params.modulus) (sym whole) ∙ sym same ∙ ap (λ t. t % s.params.modulus) cut))
