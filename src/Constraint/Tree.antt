-- ===== src/Constraint/Tree.antt =====
-- lib/constraint.c: the meaning of a tree without masks. With `n` bits left, a node gives a value
-- to each of the `2 ^ n` addresses below it.
use zmap_embedded_ip.Base.{
  ℕ, zero, suc, ◌+◌, ◌-◌, ◌*◌, ◌/◌, ◌%◌, ◌^◌, ◌≤◌, ◌<◌, ◌≡◌, refl, true, false, inl, inr, leb,
  le→leb, lt→leb, Bool-cases, has_bit-half, has_bit-zero, half-pow, mod_double, arith,
}
use zmap_embedded_ip.Constraint.{Node, leaf, branch, lookup_ip}
use native.Mathlib.Nat.{one-le-pow, mod-lt}
use Prim.Native.Nat.{max}

unfoldable pub value_at : Node → ℕ → ℕ → ℕ
value_at (leaf v c) n a = v
value_at (branch l r v c) zero a = value_at l zero a
value_at (branch l r v c) (suc m) a = elim (leb (2 ^ m) a) [
  | true ↦ value_at r m (a - 2 ^ m)
  | false ↦ value_at l m a
]

module _ (l r : Node) (v c m a : ℕ) where
  pub value_at-high : 2 ^ m ≤ a → value_at (branch l r v c) (suc m) a ≡ value_at r m (a - 2 ^ m)
  unfolding value_at
  value_at-high h = rw (value_at, le→leb _ _ h) refl

  pub value_at-low : a < 2 ^ m → value_at (branch l r v c) (suc m) a ≡ value_at l m a
  unfolding value_at
  value_at-low h = rw (value_at, lt→leb _ _ h) refl

unfoldable pub depth : Node → ℕ
depth (leaf v c) = 0
depth (branch l r v c) = suc (max (depth l) (depth r))

-- The mask of the next of `n` bits.
abbrev pub mask_of : ℕ → ℕ
mask_of zero = 0
mask_of (suc m) = 2 ^ m

pub mask_of-half : (n : ℕ) → mask_of (suc n) / 2 ≡ mask_of n
mask_of-half zero = refl
mask_of-half (suc n) = rw (half-pow n) (omega arith)

pub pow-pos : (n : ℕ) → 0 < 2 ^ n
pow-pos n = one-le-pow n 2 (omega arith)

-- The remainder by the next power of two, on each side of its top bit.
pub mod-low : (m a : ℕ) → leb (2 ^ m) (a % 2 ^ suc m) ≡ false → a % 2 ^ m ≡ a % 2 ^ suc m
mod-low m a h =
    let e = half-pow m in
    let d = mod_double a (2 ^ m) (pow-pos m) in
    let d' : a % 2 ^ suc m ≡ a / 2 ^ m % 2 * 2 ^ m + a % 2 ^ m = rw e d in grind arith

pub mod-high : (m a : ℕ) → leb (2 ^ m) (a % 2 ^ suc m) ≡ true → a % 2 ^ m ≡ a % 2 ^ suc m - 2 ^ m
mod-high m a h =
    let e = half-pow m in
    let d = mod_double a (2 ^ m) (pow-pos m) in
    let d' : a % 2 ^ suc m ≡ a / 2 ^ m % 2 * 2 ^ m + a % 2 ^ m = rw e d in
    grind (arith, mod-lt a (pow-pos m))

-- The C lookup reads exactly the low `n` bits of the address.
pub lookup_ip-value_at : (t : Node) (n a : ℕ) → lookup_ip t a (mask_of n) ≡ value_at t n (a % 2 ^ n)
unfolding lookup_ip value_at
lookup_ip-value_at (leaf v c) n a = refl
lookup_ip-value_at (branch l r v c) zero a =
    rw (has_bit-zero a, lookup_ip) (lookup_ip-value_at l zero a)
lookup_ip-value_at (branch l r v c) (suc m) a = elim (Bool-cases (leb (2 ^ m) (a % 2 ^ suc m))) [
  | inl h ↦
      rw (has_bit-half m a, h, lookup_ip, value_at, mask_of-half m, ← mod-high m a h)
        (lookup_ip-value_at r m a)
  | inr h ↦
      rw (has_bit-half m a, h, lookup_ip, value_at, mask_of-half m, ← mod-low m a h)
        (lookup_ip-value_at l m a)
]
