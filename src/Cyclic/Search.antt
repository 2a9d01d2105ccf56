-- ===== src/Cyclic/Search.antt =====
-- src/cyclic.c: the search of `find_primroot` ends, and what it finds.
use zmap_embedded_ip.Base.{
  ℕ, zero, suc, ◌+◌, ◌-◌, ◌%◌, ◌≤◌, ◌<◌, ◌≡◌, ◌≢◌, refl, ap, ◌∙◌, Bool, true, inl, inr, Option,
  some, ltb, ltb→lt, ltb→le, ◌==◌, if◌then◌else◌, Bool-cases, Bool-clash, u32, arith,
}
use zmap_embedded_ip.Cyclic.{
  CyclicGroup, max_root, is_root, next_candidate, root_loop, find_primroot,
}
use native.Mathlib.Nat.{mod-lt, mod-eq_of_lt, mod_self}
use Prim.Native.Nat.{min}

-- The candidates are the numbers below this bound.
abbrev pub bound : ℕ → ℕ
bound p = min p max_root

next_candidate-lt : (p c : ℕ) → 1 < p → next_candidate p c < bound p
unfolding next_candidate
next_candidate-lt p c h = omega (arith, mod-lt (u32 (c + 1)) {m = p} (omega arith))

next_candidate-eq :
    (p c : ℕ) → 1 < p → c < bound p → next_candidate p c ≡ (if c + 1 == bound p then 0 else c + 1)
unfolding next_candidate
next_candidate-eq p c h hc =
    let exact : u32 (c + 1) ≡ c + 1 = omega arith in
    rw exact (elim (Bool-cases (ltb (c + 1) p)) [
      | inl e ↦
          let same : (c + 1) % p ≡ c + 1 = mod-eq_of_lt (ltb→lt (c + 1) p e) in
          rw same (ground arith)
      | inr e ↦
          let top : c + 1 ≡ p = omega (arith, ltb→le (c + 1) p e) in
          let none_left : (c + 1) % p ≡ 0 = rw top (mod_self p) in rw none_left (ground arith)
    ])

-- How many rounds the candidate `r` is away from `c`.
rounds : ℕ → ℕ → ℕ → ℕ
rounds n c r = if ltb c r then r - c else n - c + r

rounds-next :
    (n c r fuel : ℕ)
    → c < n
    → 0 < r
    → r < n
    → (if c + 1 == n then 0 else c + 1) ≢ r
    → rounds n c r ≤ suc fuel
    → rounds n (if c + 1 == n then 0 else c + 1) r ≤ fuel
unfolding rounds
rounds-next n c r fuel hc pos lt other enough = ground arith

rounds-some : (n c r : ℕ) → c < n → ¬ (rounds n c r ≤ 0)
unfolding rounds
rounds-some n c r hc h = ground arith

rounds-le : (n c r fuel : ℕ) → r < n → c < n → n ≤ fuel → rounds n c r ≤ fuel
unfolding rounds
rounds-le n c r fuel hr hc h = ground arith

module _ (powm : ℕ → ℕ → ℕ → ℕ) (g : CyclicGroup) (one : 1 < g.prime) where
  abbrev passes : ℕ → Bool
  passes c = is_root powm g.prime g.prime_factors c

  -- What the search gives.
  pub record Finds (result : Option ℕ) : Type 0 where
    pub root : ℕ
    pub returned : result ≡ some root
    pub positive : 0 < root
    pub below : root < bound g.prime
    pub passed : is_root powm g.prime g.prime_factors root ≡ true

  root_loop-Finds :
      (r : ℕ)
      → 0 < r
      → r < bound g.prime
      → passes r ≡ true
      → (fuel c : ℕ) → c < bound g.prime
      → rounds (bound g.prime) c r ≤ fuel
      → Finds (root_loop powm g fuel c)
  unfolding root_loop
  root_loop-Finds r pos lt pass zero c hc enough =
      absurd (rounds-some (bound g.prime) c r hc enough)
  root_loop-Finds r pos lt pass (suc fuel) c hc enough =
      let c' = next_candidate g.prime c in
      let step = next_candidate-eq g.prime c one hc in
      let lt' = next_candidate-lt g.prime c one in
      let closer : c' ≢ r → rounds (bound g.prime) c' r ≤ fuel = λ other.
        rw step
          (rounds-next (bound g.prime) c r fuel hc pos lt (λ same. other (step ∙ same)) enough) in
      elim (Bool-cases (c' == 0)) [
        | inl e ↦ rw e (root_loop-Finds r pos lt pass fuel c' lt' (closer (λ same. ground arith)))
        | inr e ↦ elim (Bool-cases (passes c')) [
          | inl ok ↦
              rw (e, ok)
                (record {
                  root = c';
                  returned = refl;
                  positive = ground arith;
                  below = lt';
                  passed = ok;
                })
          | inr bad ↦
              rw (e, bad)
                (root_loop-Finds r pos lt pass fuel c' lt'
                  (closer (λ same. Bool-clash (ap passes same ∙ pass) bad)))
        ]
      ]

  -- When some number between 1 and the smaller of the prime and 2^22 passes the test of
  -- `find_primroot`, then one round more than that bound is enough fuel: whatever word the
  -- generator of random words gives, the search returns a number in that range that passes.
  pub find_primroot-Finds :
      (r word fuel : ℕ)
      → 0 < r
      → r < bound g.prime
      → passes r ≡ true
      → bound g.prime ≤ fuel
      → Finds (find_primroot powm g (suc fuel) word)
  unfolding find_primroot root_loop
  find_primroot-Finds r word fuel pos lt pass enough =
      let c' = next_candidate g.prime (u32 (u32 word % g.prime)) in
      let lt' : c' < bound g.prime = next_candidate-lt g.prime _ one in
      let rest : Finds (root_loop powm g fuel c') =
        root_loop-Finds r pos lt pass fuel c' lt'
          (rounds-le (bound g.prime) c' r fuel lt lt' enough) in
      elim (Bool-cases (c' == 0)) [
        | inl e ↦ rw e rest
        | inr e ↦ elim (Bool-cases (passes c')) [
          | inl ok ↦
              rw (e, ok)
                (record {
                  root = c';
                  returned = refl;
                  positive = ground arith;
                  below = lt';
                  passed = ok;
                })
          | inr bad ↦ rw (e, bad) rest
        ]
      ]
