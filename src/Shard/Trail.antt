-- ===== src/Shard/Trail.antt =====
-- src/shard.c: `shard_get_next_target` against the list of the elements that are left to visit.
use zmap_embedded_ip.Base.{
  ℕ, zero, suc, ◌+◌, ◌*◌, ◌%◌, ◌<◌, ◌≡◌, ◌≢◌, refl, sym, ◌∙◌, false, inl, inr, Option, none, some,
  List, [], ◌∷◌, map, ◌==◌, ==_iff, if◌then◌else◌, Bool-cases, Option-cases, length, filter_by,
  search_by, filter_by-none, filter_by-some, u64, arith,
}
use mathlib.Core.Path.{subst₂}
use zmap_embedded_ip.Shard.{
  Shard, ShardParams, Target, Scan, target_of, is_target, done_target, shard_done, next_loop,
  shard_get_next_elem, shard_get_next_target,
}

abbrev pub next_elem : ShardParams → ℕ → ℕ
next_elem ps c = u64 (c * ps.factor) % ps.modulus

-- From the element `c` the walk visits `xs`, none of which is the last element or the mark of a
-- finished shard, and then comes to the last element.
abbrev pub Trail : ShardParams → ℕ → List ℕ → Type 0
Trail ps c [] = next_elem ps c ≡ ps.last
Trail ps c (x ∷ xs) = (next_elem ps c ≡ x) × (x ≢ ps.last) × (x ≢ shard_done) × Trail ps x xs

==_ne : (a b : ℕ) → a ≢ b → (a == b) ≡ false
==_ne a b h = ground arith

some_pair {ℓ κ} :
    {A : Type ℓ} {B : Type κ} (a c : A) (b d : B)
    → ◌≡◌ {A = Option (A × B)} (some (a, b)) (some (c, d))
    → (a ≡ c) × (b ≡ d)
some_pair a c b d h = ground arith

none_ne_some {ℓ} : {A : Type ℓ} {a : A} → some a ≡ none → ⊥
none_ne_some h = cc

module _ (scan : Scan) where
  abbrev pub finished : Shard → Shard
  finished s = record s { current = shard_done; iterations = u64 (s.iterations + 1) }

  abbrev pub arrived : Shard → ℕ → Shard
  arrived s x = record s { current = x; iterations = u64 (s.iterations + 1) }

  next_loop-finished :
      (xs : List ℕ) (fuel : ℕ) (s : Shard)
      → length xs < fuel
      → Trail s.params s.current xs
      → search_by (is_target scan s.bits_for_port) xs ≡ none
      → next_loop scan fuel s ≡ some (done_target, finished s)
  unfolding next_loop shard_get_next_elem
  next_loop-finished xs zero s h t e = absurd (omega arith)
  next_loop-finished [] (suc fuel) s h t e =
      rw (t, (==_iff s.params.last s.params.last).1 refl) refl
  next_loop-finished (x ∷ xs) (suc fuel) s h t e =
      elim (Bool-cases (is_target scan s.bits_for_port x)) [
        | inl e₁ ↦ absurd (none_ne_some (rw e₁ at e))
        | inr e₁ ↦
            rw (t.0, ==_ne x s.params.last t.1, e₁)
              (next_loop-finished xs fuel (record s { current = x }) (omega arith) t.3 (rw e₁ at e))
      ]

  next_loop-arrived :
      (xs : List ℕ) (fuel : ℕ) (s : Shard) (x : ℕ) (rest : List ℕ)
      → length xs < fuel
      → Trail s.params s.current xs
      → search_by (is_target scan s.bits_for_port) xs ≡ some (x, rest)
      → (next_loop scan fuel s ≡ some (target_of scan s.bits_for_port x, arrived s x))
        × (x ≢ shard_done)
        × Trail s.params x rest
  unfolding next_loop shard_get_next_elem
  next_loop-arrived xs zero s x rest h t e = absurd (omega arith)
  next_loop-arrived [] (suc fuel) s x rest h t e = cc
  next_loop-arrived (y ∷ xs) (suc fuel) s x rest h t e =
      elim (Bool-cases (is_target scan s.bits_for_port y)) [
        | inl e₁ ↦
            let hit : search_by (is_target scan s.bits_for_port) (y ∷ xs) ≡ some (y, xs) =
              rw e₁ refl in
            let (same, tail) = some_pair y x xs rest (sym hit ∙ e) in
            rw (t.0, ==_ne y s.params.last t.1, e₁)
              (subst₂
                (λ a b.
                  (◌≡◌ {A = Option (Target × Shard)}
                    (some (target_of scan s.bits_for_port y, arrived s y))
                    (some (target_of scan s.bits_for_port a, arrived s a)))
                  × (a ≢ shard_done)
                  × Trail s.params a b)
                same tail (refl, t.2, t.3))
        | inr e₁ ↦
            rw (t.0, ==_ne y s.params.last t.1, e₁)
              (next_loop-arrived xs fuel (record s { current = y }) x rest (omega arith) t.3
                (rw e₁ at e))
      ]

  -- The targets that a sender gets after its first: calls until the shard is done.
  pub remaining : ℕ → ℕ → Shard → Option (List Target)
  remaining fuel zero s = none
  remaining fuel (suc calls) s = elim (shard_get_next_target scan fuel s) [
    | none ↦ none
    | some (t, s') ↦
        let rest = remaining fuel calls s' in
        if t.status == shard_done
        then some []
        else (elim rest [ none ↦ none | some ts ↦ some (t ∷ ts) ])
  ]

  next_target :
      (fuel : ℕ) (s : Shard)
      → s.current ≢ shard_done
      → shard_get_next_target scan fuel s ≡ next_loop scan fuel s
  unfolding shard_get_next_target
  next_target fuel s h = rw (==_ne s.current shard_done h)

  -- When the elements `xs` are left between the current element and the last one, and both fuel and
  -- calls are more than their number, repeated calls of `shard_get_next_target` end and return
  -- exactly the targets of the elements of `xs` that stand for targets, in order.
  pub remaining-Trail :
      (fuel calls : ℕ) (s : Shard) (xs : List ℕ)
      → length xs < fuel
      → length xs < calls
      → s.current ≢ shard_done
      → Trail s.params s.current xs
      → remaining fuel calls s
        ≡ some
            (map (target_of scan s.bits_for_port) (filter_by (is_target scan s.bits_for_port) xs))
  unfolding remaining
  remaining-Trail fuel zero s xs hf hc hs t = absurd (omega arith)
  remaining-Trail fuel (suc calls) s xs hf hc hs t =
      elim (Option-cases (search_by (is_target scan s.bits_for_port) xs)) [
        | inl e ↦
            rw
              (
                remaining,
                next_target fuel s hs,
                next_loop-finished xs fuel s hf t e,
                filter_by-none (is_target scan s.bits_for_port) xs e,
              )
              refl
        | inr ((x, rest), e) ↦
            let (run, going, t') = next_loop-arrived xs fuel s x rest hf t e in
            let (split, shorter) = filter_by-some (is_target scan s.bits_for_port) xs x rest e in
            rw
              (
                remaining,
                next_target fuel s hs,
                run,
                remaining-Trail fuel calls (arrived s x) rest (omega arith) (omega arith) going t',
                split,
              )
              (unfold target_of in refl)
      ]
