-- ===== src/Base/Counting.antt =====
-- How many numbers of a range pass a test, and the numbers that do in order.
use Prim.Native.Nat.{ℕ, zero, suc, ◌+◌, ◌-◌, ◌*◌, ◌≤◌, ◌<◌}
use mathlib.Core.Path.{◌≡◌, refl, ◌∙◌}
use mathlib.Core.Bool.{Bool, true, false}
use native.Mathlib.Omega.{arith}
use native.Mathlib.Nat.{add-zero}
use zmap_embedded_ip.Base.Tests.{to_nat, if◌then◌else◌}

-- The number of `i < n` with `p i`.
unfoldable pub count_below : (ℕ → Bool) → ℕ → ℕ
count_below p zero = 0
count_below p (suc n) = count_below p n + to_nat (p n)

to_nat-le : (b : Bool) → to_nat b ≤ 1
to_nat-le true = omega arith
to_nat-le false = omega arith

pub count_below-le : (p : ℕ → Bool) (n : ℕ) → count_below p n ≤ n
unfolding count_below
count_below-le p zero = omega arith
count_below-le p (suc n) = omega (arith, count_below-le p n, to_nat-le (p n))

pub count_below-add :
    (p : ℕ → Bool) (m k : ℕ)
    → count_below p (m + k) ≡ count_below p m + count_below (λ i. p (m + i)) k
unfolding count_below
count_below-add p m zero = rw (add-zero m) (omega arith)
count_below-add p m (suc k) =
    let e : m + suc k ≡ suc (m + k) = omega arith in rw e (omega (arith, count_below-add p m k))

pub count_below_congr :
    (p q : ℕ → Bool) (n : ℕ) → ((i : ℕ) → i < n → p i ≡ q i) → count_below p n ≡ count_below q n
unfolding count_below
count_below_congr p q zero h = refl
count_below_congr p q (suc n) h =
    rw (h n (omega arith), count_below_congr p q n (λ i l. h i (omega arith)))

pub count_below_const : (b : Bool) (n : ℕ) → count_below (λ _. b) n ≡ (if b then n else 0)
unfolding count_below
count_below_const true zero = refl
count_below_const false zero = refl
count_below_const true (suc n) = omega (arith, count_below_const true n)
count_below_const false (suc n) = omega (arith, count_below_const false n)

pub count_below_mono : (p : ℕ → Bool) (a b : ℕ) → a ≤ b → count_below p a ≤ count_below p b
count_below_mono p a b h =
    let e : b ≡ a + (b - a) = omega arith in rw (e, count_below-add p a (b - a)) (omega arith)

-- A number that passes is counted above itself.
pub count_below-lt :
    (p : ℕ → Bool) (a b : ℕ) → a < b → p a ≡ true → count_below p a < count_below p b
unfolding count_below
count_below-lt p a b h e =
    let step : count_below p (suc a) ≡ count_below p a + to_nat (p a) = refl in
    let one : to_nat (p a) ≡ 1 = rw e in omega (arith, count_below_mono p (suc a) b h)

-- So the rank tells apart the numbers that pass.
pub count_below_injective :
    (p : ℕ → Bool) (a b : ℕ) → p a ≡ true → p b ≡ true → count_below p a ≡ count_below p b → a ≡ b
count_below_injective p a b ha hb e = grind (arith, count_below-lt p a b, count_below-lt p b a)

-- A test that is constant on blocks of `size` numbers counts whole blocks.
pub count_below-blocks :
    (p q : ℕ → Bool) (size n : ℕ)
    → ((i r : ℕ) → i < n → r < size → p (i * size + r) ≡ q i)
    → count_below p (n * size) ≡ count_below q n * size
unfolding count_below
count_below-blocks p q size zero h = let e : 0 * size ≡ 0 = omega arith in rw e (omega arith)
count_below-blocks p q size (suc n) h =
    let e : suc n * size ≡ n * size + size = omega arith in
    let block =
      count_below_congr (λ r. p (n * size + r)) (λ _. q n) size (λ r hr. h n r (omega arith) hr)
      ∙ count_below_const (q n) size in
    rw
      (
        e,
        count_below-add p (n * size) size,
        block,
        count_below-blocks p q size n (λ i r hi hr. h i r (omega arith) hr),
      )
      (last (q n))
  where
    last :
        (b : Bool)
        → count_below q n * size + (if b then size else 0) ≡ (count_below q n + to_nat b) * size
    last true = omega arith
    last false = omega arith

-- A range splits by a second test.
pub count_below-split :
    (p q r : ℕ → Bool) (n : ℕ)
    → ((i : ℕ) → to_nat (p i) ≡ to_nat (q i) + to_nat (r i))
    → count_below p n ≡ count_below q n + count_below r n
unfolding count_below
count_below-split p q r zero h = omega arith
count_below-split p q r (suc n) h = omega (arith, h n, count_below-split p q r n h)
