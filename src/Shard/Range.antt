-- ===== src/Shard/Range.antt =====
-- src/shard.c: how `shard_init` cuts the exponents and the targets among the subshards.
use zmap_embedded_ip.Base.{
  ℕ, zero, suc, ◌+◌, ◌-◌, ◌*◌, ◌/◌, ◌%◌, ◌^◌, ◌≤◌, ◌<◌, ◌≡◌, inl, inr, refl, ltb, ltb→lt, ltb→le,
  leb, ◌==◌, if◌then◌else◌, Bool-cases, u32, arith,
}
use zmap_embedded_ip.Shard.{max_targets_of}
use native.Mathlib.Nat.{
  le-div_iff_mul-le, div-lt_iff_lt-mul, div-le_self, div-add-mod, mod-lt, mod-eq_of_lt,
  div-mul-le_self, mul-le-mul_left,
}

-- The exponents of the subshard `i`: the last one takes what the division leaves over.
unfoldable pub width : ℕ → ℕ → ℕ → ℕ
width order n i = if i + 1 == n then order - order / n * i else order / n

pub total_targets : ℕ → ℕ → ℕ → ℕ
total_targets max_total n zero = 0
total_targets max_total n (suc i) = total_targets max_total n i + max_targets_of max_total n i

share_bound : (m n : ℕ) → 0 < n → m < 2 ^ 32 → m / n < 2 ^ 32
share_bound m n pos h = omega (arith, div-le_self m n)

share_room : (m n i : ℕ) → i < m % n → 0 < n → m < 2 ^ 32 → m / n + 1 < 2 ^ 32
share_room m n i h pos bound =
    let two : 2 ≤ n = omega (arith, mod-lt m pos) in
    let half : m / n * 2 ≤ m / n * n = mul-le-mul_left (m / n) two in
    omega (arith, div-mul-le_self m n)

max_targets_of-share :
    (m n i : ℕ)
    → 0 < n
    → m < 2 ^ 32
    → max_targets_of m n i ≡ (if ltb i (m % n) then m / n + 1 else m / n)
unfolding max_targets_of
max_targets_of-share m n i pos h =
    let small : u32 (m / n) ≡ m / n = mod-eq_of_lt (share_bound m n pos h) in
    elim (Bool-cases (ltb i (m % n))) [
      | inl e ↦ rw (small, e) (mod-eq_of_lt (share_room m n i (ltb→lt _ _ e) pos h))
      | inr e ↦ rw (small, e) refl
    ]

-- The first `i` subshards together scan `i` equal shares and one more target for each of the
-- first `max_total % n`.
total_targets-share :
    (m n i : ℕ)
    → 0 < n
    → m < 2 ^ 32
    → total_targets m n i ≡ m / n * i + (if leb i (m % n) then i else m % n)
unfolding total_targets
total_targets-share m n zero pos h = ground arith
total_targets-share m n (suc i) pos h =
    ground (arith, total_targets-share m n i pos h, max_targets_of-share m n i pos h)

-- The shares of all subshards add up to the targets asked for, if that is a 32-bit number.
pub total_targets-eq :
    (max_total n : ℕ) → 0 < n → max_total < 2 ^ 32 → total_targets max_total n n ≡ max_total
total_targets-eq m n pos h =
    ground (arith, total_targets-share m n n pos h, mod-lt m pos, div-add-mod m n)

-- Where the exponents of the subshard `i` begin, before the offset.
abbrev pub start : ℕ → ℕ → ℕ → ℕ
start order n i = order / n * i

pub start-le : (order n i : ℕ) → i ≤ n → start order n i ≤ order
start-le order n i h = omega (arith, mul-le-mul_left (order / n) h, div-mul-le_self order n)

-- The subshard that an exponent belongs to.
pub owner : ℕ → ℕ → ℕ → ℕ
owner order n y = if ltb (y / (order / n)) n then y / (order / n) else n - 1

module _ (order n y : ℕ) (pos : 0 < n) (le : n ≤ order) (h : y < order) where
  abbrev step : ℕ
  step = order / n

  abbrev quotient : ℕ
  quotient = y / step

  step_pos : 0 < step
  step_pos = (le-div_iff_mul-le pos).1 (omega arith)

  quotient-le : step * quotient ≤ y
  quotient-le = omega (arith, div-mul-le_self y step)

  lt-quotient : y < step * quotient + step
  lt-quotient = omega (arith, div-add-mod y step, mod-lt y step_pos)

  quotient-max : (i : ℕ) → start order n i ≤ y → i ≤ quotient
  quotient-max i hi = (le-div_iff_mul-le step_pos).1 (omega arith)

  quotient-min : (i : ℕ) → y < start order n i + step → quotient ≤ i
  quotient-min i hi =
      let b : quotient < i + 1 = (div-lt_iff_lt-mul step_pos).1 (omega arith) in omega arith

  abbrev Owns : ℕ → Type 0
  Owns i = (i < n) × (start order n i ≤ y) × (y < start order n i + width order n i)

  owner-Owns : Owns (owner order n y)
  unfolding owner width
  owner-Owns = elim (Bool-cases (ltb quotient n)) [
    | inl e ↦ rw e (
      ltb→lt _ _ e,
      quotient-le,
      ground (
        arith,
        lt-quotient,
        quotient-le,
        start-le order n quotient (omega (arith, ltb→lt _ _ e)),
      ),
    )
    | inr e ↦
        let back : step * (n - 1) ≤ step * quotient =
          mul-le-mul_left step (omega (arith, ltb→le _ _ e)) in
        rw e (
          omega arith,
          omega (arith, back, quotient-le),
          ground (arith, start-le order n (n - 1) (omega arith)),
        )
  ]

  Owns-owner : (i : ℕ) → Owns i → i ≡ owner order n y
  unfolding owner width
  Owns-owner i o = elim (Bool-cases (i + 1 == n)) [
    | inl e ↦ ground (arith, quotient-max i o.1)
    | inr e ↦
        let inside : y < start order n i + step = rw e at (o.2) in
        ground (arith, quotient-max i o.1, quotient-min i inside)
  ]

-- Each exponent below the order lies in the range of exactly one subshard.
pub owner_unique :
    (order n y : ℕ)
    → 0 < n
    → n ≤ order
    → y < order
    → (owner order n y < n)
      × (start order n (owner order n y) ≤ y)
      × (y < start order n (owner order n y) + width order n (owner order n y))
      × ((i : ℕ)
          → i < n
          → start order n i ≤ y
          → y < start order n i + width order n i
          → i ≡ owner order n y)
owner_unique order n y pos le h =
    let o = owner-Owns order n y pos le h in
    (o.0, o.1, o.2, λ i a b c. Owns-owner order n y pos le h i (a, b, c))
