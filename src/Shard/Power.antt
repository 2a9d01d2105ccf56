-- ===== src/Shard/Power.antt =====
-- src/shard.c, src/cyclic.c: the elements that a shard visits are powers of the generator.
use zmap_embedded_ip.Base.{
  ℕ, zero, suc, ◌+◌, ◌-◌, ◌*◌, ◌/◌, ◌%◌, ◌^◌, ◌≤◌, ◌<◌, ◌≡◌, ◌≢◌, ◌⊎◌, inl, inr, refl, sym, ap, ◌∙◌,
  List, [], ◌∷◌, map, ◌==◌, ==_iff, if◌then◌else◌, Bool-cases, u64, arith,
}
use zmap_embedded_ip.Shard.{ShardParams}
use zmap_embedded_ip.Shard.Trail.{next_elem, Trail}
use native.Mathlib.Nat.{
  pow-suc, pow-zero, div-add-mod, mul-add-mod_self_left, mul-le-mul_right, mod-eq_of_lt, mod-lt,
}

-- The powers `g ^ 0 … g ^ (p - 2)` are the elements of the group, each once.
pub record IsGenerator (g p : ℕ) : Type 0 where
  pub above_one : 1 < p
  pub cycles : g ^ (p - 1) % p ≡ 1
  pub nonzero : (i : ℕ) → i < p - 1 → g ^ i % p ≢ 0
  pub distinct : (i j : ℕ) → i < p - 1 → j < p - 1 → g ^ i % p ≡ g ^ j % p → i ≡ j

-- The exponent after `i` in a cycle of `order` exponents.
pub next_exponent : ℕ → ℕ → ℕ
next_exponent order i = if i + 1 == order then 0 else i + 1

pub exponents : ℕ → ℕ → ℕ → List ℕ
exponents order i zero = []
exponents order i (suc n) = next_exponent order i ∷ exponents order (next_exponent order i) n

mod_mul : (a g p : ℕ) → a % p * g % p ≡ a * g % p
mod_mul a g p =
    let whole : a * g ≡ p * (a / p * g) + a % p * g =
      omega (arith, ap (λ (t : ℕ). t * g) (div-add-mod a p)) in
    sym (mul-add-mod_self_left p (a / p * g) (a % p * g)) ∙ ap (λ t. t % p) (sym whole)

product_bound : (x g p m : ℕ) → x < p → g * p ≤ m → 0 < m → x * g < m
product_bound x zero p m hx hm pos = omega arith
product_bound x (suc g) p m hx hm pos =
    let le : x * suc g ≤ (p - 1) * suc g = mul-le-mul_right (suc g) (omega arith) in
    let e : p ≡ (p - 1) + 1 = omega arith in
    let e' : suc g * p ≡ (p - 1) * suc g + suc g = ap (λ t. suc g * t) e ∙ omega arith in
    omega arith

pub element_step : (g p i : ℕ) → 1 < p → g * p ≤ 2 ^ 64 → u64 (g ^ i % p * g) % p ≡ g ^ (i + 1) % p
element_step g p i one fits =
    let exact : u64 (g ^ i % p * g) ≡ g ^ i % p * g =
      mod-eq_of_lt (
        product_bound (g ^ i % p) g p (2 ^ 64) (mod-lt (g ^ i) (omega arith)) fits (omega arith)) in
    let e : i + 1 ≡ suc i = omega arith in rw (exact, mod_mul (g ^ i) g p, e, pow-suc g i) refl

module _ (ps : ShardParams) (gen : IsGenerator ps.factor ps.modulus)
    (fits : ps.factor * ps.modulus ≤ 2 ^ 64) where
  abbrev pub order : ℕ
  order = ps.modulus - 1

  abbrev pub element : ℕ → ℕ
  element i = ps.factor ^ i % ps.modulus

  -- The product does not wrap, so a step multiplies in the group.
  next_elem-element : (i : ℕ) → i < order → next_elem ps (element i) ≡ element (i + 1)
  next_elem-element i h = element_step ps.factor ps.modulus i gen.above_one fits

  next_elem-next_exponent :
      (i : ℕ) → i < order → next_elem ps (element i) ≡ element (next_exponent order i)
  unfolding next_exponent
  next_elem-next_exponent i h = elim (Bool-cases (i + 1 == order)) [
    | inl e ↦
        let wrap : i + 1 ≡ order = (==_iff _ _).0 e in
        rw (next_elem-element i h, e, wrap, gen.cycles)
          (sym (rw (pow-zero ps.factor) (mod-eq_of_lt gen.above_one)))
    | inr e ↦ rw (next_elem-element i h, e) refl
  ]

  next_exponent-lt : (i : ℕ) → i < order → next_exponent order i < order
  unfolding next_exponent
  next_exponent-lt i h = ground arith

  abbrev pub Gap : ℕ → ℕ → ℕ → Type 0
  Gap n i stop = (i + suc n ≡ stop) ⊎ (i + suc n ≡ stop + order)

  next_stop : (i stop : ℕ) → i < order → stop < order → Gap 0 i stop → next_exponent order i ≡ stop
  unfolding next_exponent
  next_stop i stop hi hs gap = ground arith

  next-Gap :
      (n i stop : ℕ)
      → i < order
      → stop < order
      → Gap (suc n) i stop
      → Gap n (next_exponent order i) stop
  unfolding next_exponent
  next-Gap n i stop hi hs gap = elim (Bool-cases (i + 1 == order)) [
    | inl e ↦
        let wrap : i + 1 ≡ order = (==_iff _ _).0 e in
        rw e (elim gap [ inl g ↦ absurd (omega arith) | inr g ↦ inl (omega arith) ])
    | inr e ↦ rw e (elim gap [ inl g ↦ inl (omega arith) | inr g ↦ inr (omega arith) ])
  ]

  apart : (n i stop : ℕ) → suc (suc n) ≤ order → Gap n i stop → i ≢ stop
  apart n i stop h (inl e) same = absurd (omega arith)
  apart n i stop h (inr e) same = absurd (omega arith)

  -- The walk from the exponent `i` to the exponent `stop`, with `n` exponents between them.
  pub element-Trail :
      (n i stop : ℕ)
      → i < order
      → stop < order
      → suc n ≤ order
      → Gap n i stop
      → ps.last ≡ element stop
      → Trail ps (element i) (map element (exponents order i n))
  unfolding exponents
  element-Trail zero i stop hi hs hn gap e =
      next_elem-next_exponent i hi ∙ ap element (next_stop i stop hi hs gap) ∙ sym e
  element-Trail (suc n) i stop hi hs hn gap e =
      let i' = next_exponent order i in
      let hi' = next_exponent-lt i hi in
      let gap' = next-Gap n i stop hi hs gap in
      (
        next_elem-next_exponent i hi,
        (λ same. apart n i' stop hn gap' (gen.distinct i' stop hi' hs (same ∙ e))),
        gen.nonzero i' hi',
        element-Trail n i' stop hi' hs (omega arith) gap' e,
      )
