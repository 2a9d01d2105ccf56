-- ===== src/Cyclic.antt =====
-- src/cyclic.c, src/cyclic.h: the groups of integers modulo a prime, the choice of a group and of
-- a random generator. `aesrand_getword` enters by the words that it returns, GMP's `mpz_powm` as
-- the function `powm`.
pub mod Groups
pub mod Search
use zmap_embedded_ip.Base.{
  ℕ, zero, suc, ◌+◌, ◌-◌, ◌/◌, ◌%◌, ◌^◌, Bool, true, false, ◌&&◌, not, Option, none, some, List, [],
  ◌∷◌, ltb, ◌==◌, if◌then◌else◌, u32,
}

pub record CyclicGroup : Type 0 where
  pub prime : ℕ
  pub known_primroot : ℕ
  pub prime_factors : List ℕ

abbrev group : ℕ → ℕ → List ℕ → CyclicGroup
group p g factors = record { prime = p; known_primroot = g; prime_factors = factors }

unfoldable pub groups : List CyclicGroup
groups =
    group 257 3 (2 ∷ [])
    ∷ group 65537 3 (2 ∷ [])
    ∷ group 16777259 2 (2 ∷ 23 ∷ 103 ∷ 3541 ∷ [])
    ∷ group 268435459 2 (2 ∷ 3 ∷ 19 ∷ 87211 ∷ [])
    ∷ group 4294967311 3 (2 ∷ 3 ∷ 5 ∷ 131 ∷ 364289 ∷ [])
    ∷ group 8589934609 19 (2 ∷ 3 ∷ 59 ∷ 3033169 ∷ [])
    ∷ group 17179869209 3 (2 ∷ 83 ∷ 1277 ∷ 20261 ∷ [])
    ∷ group 68719476767 5 (2 ∷ 163 ∷ 883 ∷ 238727 ∷ [])
    ∷ group 1099511627791 3 (2 ∷ 3 ∷ 5 ∷ 36650387593 ∷ [])
    ∷ group 17592186044423 5 (2 ∷ 11 ∷ 53 ∷ 97 ∷ 155542661 ∷ [])
    ∷ group 281474976710677 6 (2 ∷ 3 ∷ 7 ∷ 1361 ∷ 2462081249 ∷ [])
    ∷ []

-- The loop of `get_group`. `none` stands for a read past the table: its bound is `sizeof(groups)`,
-- the size in bytes, so the loop does not stop at the last group.
unfoldable pub first_group : List CyclicGroup → ℕ → Option CyclicGroup
first_group [] min_size = none
first_group (g ∷ rest) min_size = if ltb min_size g.prime then some g else first_group rest min_size

unfoldable pub get_group : ℕ → Option CyclicGroup
unfolding first_group groups
get_group min_size = first_group groups min_size

pub record Cycle : Type 0 where
  pub group : CyclicGroup
  pub generator : ℕ
  pub order : ℕ
  pub offset : ℕ

abbrev pub max_root : ℕ
max_root = 2 ^ 22

-- The loop over the prime factors of `p - 1`: `ok` stays set while no power is 1.
unfoldable pub is_root : (ℕ → ℕ → ℕ → ℕ) → ℕ → List ℕ → ℕ → Bool
is_root powm p [] candidate = true
is_root powm p (q ∷ factors) candidate =
    not (powm candidate ((p - 1) / q) p == 1) && is_root powm p factors candidate

-- The candidate of the next round.
unfoldable pub next_candidate : ℕ → ℕ → ℕ
next_candidate p candidate = u32 (u32 (candidate + 1) % p) % max_root

-- The loop of `find_primroot`. Out of fuel it gives `none`.
unfoldable pub root_loop : (ℕ → ℕ → ℕ → ℕ) → CyclicGroup → ℕ → ℕ → Option ℕ
unfolding is_root next_candidate
root_loop powm g zero candidate = none
root_loop powm g (suc fuel) candidate =
    let c = next_candidate g.prime candidate in
    let rest = root_loop powm g fuel c in
    if c == 0 then rest else if is_root powm g.prime g.prime_factors c then some c else rest

unfoldable pub find_primroot : (ℕ → ℕ → ℕ → ℕ) → CyclicGroup → ℕ → ℕ → Option ℕ
unfolding root_loop
find_primroot powm g fuel word = root_loop powm g fuel (u32 (u32 word % g.prime))

-- `make_cycle` draws one word for the generator and one for the offset.
unfoldable pub make_cycle : (ℕ → ℕ → ℕ → ℕ) → CyclicGroup → ℕ → ℕ → ℕ → Option Cycle
unfolding find_primroot
make_cycle powm g fuel word₁ word₂ = elim (find_primroot powm g fuel word₁) [
  | none ↦ none
  | some root ↦
      some
        (record { group = g; generator = root; order = g.prime - 1; offset = u32 word₂ % g.prime })
]
