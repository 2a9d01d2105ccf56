-- ===== src/Cyclic/Groups.antt =====
-- src/cyclic.c: the table of groups, and `get_group`.
use zmap_embedded_ip.Base.{
  ℕ, ◌^◌, ◌≤◌, ◌<◌, ◌≡◌, refl, Option-cases, sym, ◌∙◌, inl, inr, none, some, List, [], ◌∷◌, ltb,
  ltb→lt, ltb→le, Bool-cases, arith,
}
use mathlib.Core.Option.{some-injective}
use mathlib.Core.Path.{subst}
use native.Mathlib.Nat.{le_refl}
use zmap_embedded_ip.Cyclic.{CyclicGroup, groups, first_group, get_group}

abbrev pub All {ℓ κ} : {A : Type ℓ} → (A → Type κ) → List A → Type κ
All P [] = Unit
All P (x ∷ xs) = P x × All P xs

abbrev pub IsSorted : List CyclicGroup → Type 0
IsSorted [] = Unit
IsSorted (g ∷ rest) = All (λ h. g.prime ≤ h.prime) rest × IsSorted rest

groups-IsSorted : IsSorted groups
unfolding groups
groups-IsSorted = omega arith

-- No group of the list with a larger prime than `n` has a smaller prime than `g`.
abbrev pub IsSmallest : ℕ → CyclicGroup → List CyclicGroup → Type 0
IsSmallest n g = All (λ h. (n < h.prime → g.prime ≤ h.prime))

IsSmallest-sorted :
    (n : ℕ) (g : CyclicGroup) (gs : List CyclicGroup)
    → All (λ h. g.prime ≤ h.prime) gs
    → IsSmallest n g gs
IsSmallest-sorted n g [] h = tt
IsSmallest-sorted n g (x ∷ gs) h = ((λ _. h.0), IsSmallest-sorted n g gs h.1)

first_group-IsSmallest :
    (gs : List CyclicGroup) (n : ℕ) (g : CyclicGroup)
    → IsSorted gs
    → first_group gs n ≡ some g
    → (n < g.prime) × IsSmallest n g gs
unfolding first_group
first_group-IsSmallest [] n g s e = cc
first_group-IsSmallest (x ∷ gs) n g s e = elim (Bool-cases (ltb n x.prime)) [
  | inl h ↦
      let hit : first_group (x ∷ gs) n ≡ some x = rw (first_group, h) refl in
      let same : x ≡ g = some-injective x g (sym hit ∙ e) in
      let lt = ltb→lt n x.prime h in
      subst (λ y. (n < y.prime) × IsSmallest n y (x ∷ gs)) same
        (lt, ((λ _. le_refl x.prime), IsSmallest-sorted n x gs s.0))
  | inr h ↦
      let miss : first_group (x ∷ gs) n ≡ first_group gs n = rw (first_group, h) refl in
      let (lt, rest) = first_group-IsSmallest gs n g s.1 (sym miss ∙ e) in
      (lt, ((λ l. absurd (omega (arith, ltb→le n x.prime h))), rest))
]

first_group-none :
    (gs : List CyclicGroup) (n : ℕ) → first_group gs n ≡ none → All (λ h. h.prime ≤ n) gs
unfolding first_group
first_group-none [] n e = tt
first_group-none (x ∷ gs) n e = elim (Bool-cases (ltb n x.prime)) [
  | inl h ↦
      let hit : first_group (x ∷ gs) n ≡ some x = rw (first_group, h) refl in
      absurd (clash (sym hit ∙ e))
  | inr h ↦
      let miss : first_group (x ∷ gs) n ≡ first_group gs n = rw (first_group, h) refl in
      (ltb→le n x.prime h, first_group-none gs n (sym miss ∙ e))
]
  where
    clash : some x ≡ none → ⊥
    clash c = cc

-- For every size up to `2 ^ 48`, `get_group` finds a group of the table whose prime is above the
-- size, and no group of the table with a prime above the size has a smaller one.
pub get_group-IsSmallest :
    (min_size : ℕ)
    → min_size ≤ 2 ^ 48
    → (g : CyclicGroup) × (get_group min_size ≡ some g)
      × (min_size < g.prime)
      × IsSmallest min_size g groups
unfolding get_group
get_group-IsSmallest n h = elim (Option-cases (first_group groups n)) [
  | inl e ↦ absurd (large n h (first_group-none groups n e))
  | inr (g, e) ↦
      let (lt, smallest) = first_group-IsSmallest groups n g groups-IsSorted e in
      (g, e, lt, smallest)
]
  where
    large : (m : ℕ) → m ≤ 2 ^ 48 → All (λ (x : CyclicGroup). x.prime ≤ m) groups → ⊥
    large m l a = omega arith
