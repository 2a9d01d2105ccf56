-- ===== src/Ports/Bitmap.antt =====
-- lib/pbm.c: the flat and the paged bitmap are sets of 16-bit and of 32-bit numbers.
use zmap_embedded_ip.Base.{
  ℕ, zero, suc, ◌*◌, ◌/◌, ◌%◌, ◌^◌, ◌<◌, ◌≡◌, ◌≢◌, refl, sym, ap, ◌∙◌, inl, inr, false, ◌||◌,
  Option, none, some, List, length, get_or, set, replicate, length-set, length-replicate,
  get_or-set_self, get_or-set_ne, Bool-cases, Option-cases, ◌==◌, ==_iff, if◌then◌else◌, u8,
  has_bit, has_bit-pow, half-pow, bit_or, bit_or-zero, bit_or_step, arith,
}
use native.Mathlib.Nat.{div-div-eq-div-mul, zero-div}
use mathlib.Core.Option.{some-injective}
use zmap_embedded_ip.Ports.{
  bm_init, bm_check, bm_set, pbm_init, page_check, pbm_check, page_for, pbm_set,
}

-- The bits of a number with one more bit set.
bit_or-digit : (k j x : ℕ) → bit_or x (2 ^ k) / 2 ^ j % 2 ≡ (if j == k then 1 else x / 2 ^ j % 2)
bit_or-digit zero zero x = omega (arith, bit_or_step x 1, bit_or-zero (x / 2))
bit_or-digit zero (suc j) x =
    let same : bit_or x 1 / 2 ≡ x / 2 = omega (arith, bit_or_step x 1, bit_or-zero (x / 2)) in
    rw
      (
        half-pow j,
        ← div-div-eq-div-mul (bit_or x 1) 2 (2 ^ j),
        same,
        div-div-eq-div-mul x 2 (2 ^ j),
      )
      (ground arith)
bit_or-digit (suc k) zero x =
    let e : bit_or x (2 * 2 ^ k) % 2 ≡ x % 2 = omega (arith, bit_or_step x (2 * 2 ^ k)) in
    rw (half-pow k) (ground arith)
bit_or-digit (suc k) (suc j) x =
    let half : bit_or x (2 * 2 ^ k) / 2 ≡ bit_or (x / 2) (2 * 2 ^ k / 2) =
      omega (arith, bit_or_step x (2 * 2 ^ k)) in
    let back : 2 * 2 ^ k / 2 ≡ 2 ^ k = omega arith in
    rw
      (
        half-pow k,
        half-pow j,
        ← div-div-eq-div-mul (bit_or x (2 * 2 ^ k)) 2 (2 ^ j),
        half,
        back,
        ← div-div-eq-div-mul x 2 (2 ^ j),
        bit_or-digit k j (x / 2),
      )
      (ground arith)

byte-digit : (j x : ℕ) → j < 8 → x % 2 ^ 8 / 2 ^ j % 2 ≡ x / 2 ^ j % 2
byte-digit zero x h = omega arith
byte-digit (suc zero) x h = omega arith
byte-digit (suc (suc zero)) x h = omega arith
byte-digit (suc (suc (suc zero))) x h = omega arith
byte-digit (suc (suc (suc (suc zero)))) x h = omega arith
byte-digit (suc (suc (suc (suc (suc zero))))) x h = omega arith
byte-digit (suc (suc (suc (suc (suc (suc zero)))))) x h = omega arith
byte-digit (suc (suc (suc (suc (suc (suc (suc zero))))))) x h = omega arith
byte-digit (suc (suc (suc (suc (suc (suc (suc (suc j)))))))) x h = absurd (omega arith)

-- A byte with one more bit set.
has_bit-set :
    (x k j : ℕ) → j < 8 → has_bit (u8 (bit_or x (2 ^ k))) (2 ^ j) ≡ (j == k || has_bit x (2 ^ j))
has_bit-set x k j h =
    rw
      (
        has_bit-pow j (u8 (bit_or x (2 ^ k))),
        has_bit-pow j x,
        byte-digit j (bit_or x (2 ^ k)) h,
        bit_or-digit k j x,
      )
      (ground arith)

-- Setting a number of a bitmap adds it to the numbers that `bm_check` finds, and no other.
pub bm_check-set :
    (bm : List ℕ) (v w : ℕ)
    → v / 8 < length bm
    → bm_check (bm_set bm v) w ≡ (w == v || bm_check bm w)
unfolding bm_check bm_set
bm_check-set bm v w h = elim (Bool-cases (w / 8 == v / 8)) [
  | inl e ↦
      let same : w / 8 ≡ v / 8 = (==_iff _ _).0 e in
      rw
        (
          same,
          get_or-set_self bm (v / 8) (u8 (bit_or (get_or bm (v / 8) 0) (2 ^ (v % 8)))) 0 h,
          has_bit-set (get_or bm (v / 8) 0) (v % 8) (w % 8) (omega arith),
        )
        (ground arith)
  | inr e ↦
      let other : v / 8 ≢ w / 8 = ground arith in
      rw
        (get_or-set_ne bm (v / 8) (w / 8) (u8 (bit_or (get_or bm (v / 8) 0) (2 ^ (v % 8)))) 0 other)
        (ground arith)
]

get_or-replicate {ℓ} : {A : Type ℓ} (n i : ℕ) (a : A) → get_or (replicate n a) i a ≡ a
get_or-replicate zero i a = refl
get_or-replicate (suc n) zero a = refl
get_or-replicate (suc n) (suc i) a = get_or-replicate n i a

bm_check-init : (v : ℕ) → bm_check bm_init v ≡ false
unfolding bm_check bm_init
bm_check-init v =
    rw (get_or-replicate {A = ℕ} 8192 (v / 8) 0, has_bit-pow (v % 8) 0, zero-div (2 ^ (v % 8))) refl

pbm_init-get : (i : ℕ) → get_or pbm_init i none ≡ none
unfolding pbm_init
pbm_init-get i = get_or-replicate {A = Option (List ℕ)} 65536 i none

pbm_init-length : length pbm_init ≡ 65536
unfolding pbm_init
pbm_init-length = length-replicate {A = Option (List ℕ)} 65536 none

-- The pages of a paged bitmap are those of `bm_init` in length, and there are 2^16 of them.
pub record IsPaged (b : List (Option (List ℕ))) : Type 0 where
  pub pages : length b ≡ 65536
  pub bytes : (i : ℕ) (page : List ℕ) → get_or b i none ≡ some page → length page ≡ 8192

pub pbm_init-IsPaged : IsPaged pbm_init
pbm_init-IsPaged = record { pages = pbm_init-length; bytes = λ i page h. cc (pbm_init-get i) }

pub bm_init-length : length bm_init ≡ 8192
unfolding bm_init
bm_init-length = length-replicate {A = ℕ} 8192 0

-- No number is in a new paged bitmap.
pub pbm_check-init : (v : ℕ) → pbm_check pbm_init v ≡ false
unfolding pbm_check page_check
pbm_check-init v = ap (λ o. page_check o (v % 2 ^ 16)) (pbm_init-get (v / 2 ^ 16))

pub bm_set-length : (bm : List ℕ) (v : ℕ) → length (bm_set bm v) ≡ length bm
unfolding bm_set
bm_set-length bm v = length-set bm (v / 8) (u8 (bit_or (get_or bm (v / 8) 0) (2 ^ (v % 8))))

page_for-length :
    (b : List (Option (List ℕ))) (i : ℕ) → IsPaged b → length (page_for (get_or b i none)) ≡ 8192
unfolding page_for
page_for-length b i paged = elim (Option-cases (get_or b i none)) [
  | inl e ↦ rw e bm_init-length
  | inr (page, e) ↦ rw e (paged.bytes i page e)
]

pub pbm_set-IsPaged :
    (b : List (Option (List ℕ))) (v : ℕ) → v < 2 ^ 32 → IsPaged b → IsPaged (pbm_set b v)
unfolding pbm_set
pbm_set-IsPaged b v h paged =
    let top = v / 2 ^ 16 in
    let page = bm_set (page_for (get_or b top none)) (v % 2 ^ 16) in
    let inside : top < length b = omega (arith, paged.pages) in
    let full : length page ≡ 8192 =
      bm_set-length (page_for (get_or b top none)) (v % 2 ^ 16) ∙ page_for-length b top paged in
    record {
      pages = length-set b top (some page) ∙ paged.pages;
      bytes = λ i p e. elim (Bool-cases (i == top)) [
        | inl same ↦
            let hit : get_or (set b top (some page)) i none ≡ some page =
              ap (λ j. get_or (set b top (some page)) j none) ((==_iff i top).0 same)
              ∙ get_or-set_self b top (some page) none inside in
            ap length (sym (some-injective page p (sym hit ∙ e))) ∙ full
        | inr other ↦
            let ne : top ≢ i = ground arith in
            paged.bytes i p (sym (get_or-set_ne b top i (some page) none ne) ∙ e)
      ];
    }

bm_check-page_for : (o : Option (List ℕ)) (x : ℕ) → bm_check (page_for o) x ≡ page_check o x
unfolding page_for page_check
bm_check-page_for none x = bm_check-init x
bm_check-page_for (some page) x = refl

page_check-some : (page : List ℕ) (x : ℕ) → page_check (some page) x ≡ bm_check page x
unfolding page_check
page_check-some page x = refl

-- Setting a 32-bit number of a paged bitmap adds it to the numbers that `pbm_check` finds, and no
-- other.
pub pbm_check-set :
    (b : List (Option (List ℕ))) (v w : ℕ)
    → v < 2 ^ 32
    → IsPaged b
    → pbm_check (pbm_set b v) w ≡ (w == v || pbm_check b w)
unfolding pbm_check pbm_set
pbm_check-set b v w h paged =
    let top = v / 2 ^ 16 in
    let page = page_for (get_or b top none) in
    let page' = bm_set page (v % 2 ^ 16) in
    let inside : top < length b = omega (arith, paged.pages) in
    let full = page_for-length b top paged in
    elim (Bool-cases (w / 2 ^ 16 == top)) [
      | inl e ↦
          let same : w / 2 ^ 16 ≡ top = (==_iff _ _).0 e in
          let split : (w % 2 ^ 16 == v % 2 ^ 16) ≡ (w == v) = ground arith in
          ap (λ i. page_check (get_or (set b top (some page')) i none) (w % 2 ^ 16)) same
          ∙ ap (λ o. page_check o (w % 2 ^ 16)) (get_or-set_self b top (some page') none inside)
          ∙ page_check-some page' (w % 2 ^ 16)
          ∙ bm_check-set page (v % 2 ^ 16) (w % 2 ^ 16) (omega (arith, full))
          ∙ ap (λ c. c || bm_check page (w % 2 ^ 16)) split
          ∙ ap (λ c. (w == v) || c)
              (bm_check-page_for (get_or b top none) (w % 2 ^ 16)
                ∙ ap (λ i. page_check (get_or b i none) (w % 2 ^ 16)) (sym same))
      | inr e ↦
          let other : top ≢ w / 2 ^ 16 = ground arith in
          let differ : (w == v) ≡ false = ground arith in
          ap (λ o. page_check o (w % 2 ^ 16))
            (get_or-set_ne b top (w / 2 ^ 16) (some page') none other)
          ∙ ap (λ c. c || pbm_check b w) (sym differ)
    ]
