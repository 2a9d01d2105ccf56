-- ===== src/Constraint/Radix.antt =====
-- lib/constraint.c: the radix array. It holds, in order, the first address of each block of
-- `2 ^ 14` whose leaf covers at least the block and has the painted value.
use zmap_embedded_ip.Base.{
  ℕ, zero, suc, ◌+◌, ◌*◌, ◌<◌, ◌≡◌, refl, ◌∙◌, Bool, true, inl, inr, List, [], ◌∷◌, ◌++◌, leb,
  leb→le, leb→lt, if◌then◌else◌, Bool-cases, length, length-append, get_or, get_or-append_left,
  get_or-append_last, u32, arith,
}
use zmap_embedded_ip.Base.Counting.{count_below}
use zmap_embedded_ip.Constraint.{Node, is_radix_prefix, fill_radix, radix_block}

-- `radix` lists the indices below `i` that pass, as addresses.
pub record IsFilled (p : ℕ → Bool) (i : ℕ) (radix : List ℕ) : Type 0 where
  pub size : length radix ≡ count_below p i
  pub entry :
      (j : ℕ)
      → j < length radix
      → (k : ℕ) × (k < i)
        × (p k ≡ true)
        × (count_below p k ≡ j)
        × (get_or radix j 0 ≡ u32 (k * radix_block))

IsFilled-add :
    (p : ℕ → Bool) (i : ℕ) (radix : List ℕ)
    → IsFilled p i radix
    → IsFilled p (suc i) (if p i then radix ++ u32 (i * radix_block) ∷ [] else radix)
unfolding count_below
IsFilled-add p i radix f = elim (Bool-cases (p i)) [
  | inl e ↦ rw e (record {
    size = rw (length-append radix (u32 (i * radix_block) ∷ []), e) (omega (arith, f.size));
    entry = λ j hj. elim (Bool-cases (leb (length radix) j)) [
      | inl last ↦
          let at_end : j ≡ length radix =
            omega (arith, leb→le _ _ last, length-append radix (u32 (i * radix_block) ∷ [])) in
          (
            i,
            omega arith,
            e,
            omega (arith, f.size),
            rw at_end (get_or-append_last radix (u32 (i * radix_block)) 0),
          )
      | inr inside ↦
          let h = leb→lt _ _ inside in
          let (k, below, passes, rank, found) = f.entry j h in
          (
            k,
            omega arith,
            passes,
            rank,
            get_or-append_left radix (u32 (i * radix_block) ∷ []) j 0 h ∙ found,
          )
    ];
  })
  | inr e ↦ rw e (record {
    size = rw e (omega (arith, f.size));
    entry = λ j hj.
        let (k, below, passes, rank, found) = f.entry j hj in (k, omega arith, passes, rank, found);
  })
]

pub fill_radix-IsFilled :
    (root : Node) (v rounds i : ℕ) (radix : List ℕ)
    → IsFilled (is_radix_prefix root v) i radix
    → IsFilled (is_radix_prefix root v) (i + rounds) (fill_radix root v rounds i radix)
unfolding fill_radix
fill_radix-IsFilled root v zero i radix f = let e : i + 0 ≡ i = omega arith in rw e f
fill_radix-IsFilled root v (suc rounds) i radix f =
    let e : i + suc rounds ≡ suc i + rounds = omega arith in
    let e' : i + 1 ≡ suc i = omega arith in
    rw (e, e')
      (fill_radix-IsFilled root v rounds (suc i) _
        (IsFilled-add (is_radix_prefix root v) i radix f))

pub empty-IsFilled : (p : ℕ → Bool) → IsFilled p 0 []
unfolding count_below
empty-IsFilled p = record { size = refl; entry = λ j hj. absurd (omega arith) }
