-- ===== src/Iterator/Tally.antt =====
-- src/iterator.c: the threads complete in any order, and `zsend` adds up their counters.
use zmap_embedded_ip.Base.{
  ℕ, zero, suc, ◌+◌, ◌≤◌, ◌<◌, ◌≡◌, refl, ◌∙◌, inl, inr, Bool, true, false, ◌||◌, some, List, [],
  ◌∷◌, length, length-set, get_elem?, get_or, set, Option-cases, lt→ltb, ◌==◌, if◌then◌else◌, u32,
  u64, arith,
}
use zmap_embedded_ip.Shard.{Shard}
use zmap_embedded_ip.Iterator.{
  Iterator, Send, all_complete, shard_complete, mark_complete, add_counters,
}

-- How many threads have completed.
abbrev pub completions : List Bool → ℕ
completions [] = 0
completions (c ∷ rest) = (if c then 1 else 0) + completions rest

-- The counters of the shards whose threads have completed.
abbrev pub completed_sum : (Shard → ℕ) → List Bool → List Shard → ℕ
completed_sum f [] shards = 0
completed_sum f (c ∷ rest) [] = 0
completed_sum f (c ∷ rest) (s ∷ shards) = (if c then f s else 0) + completed_sum f rest shards

pub completions-le : (l : List Bool) → completions l ≤ length l
completions-le [] = omega arith
completions-le (c ∷ rest) = ground (arith, completions-le rest)

all_complete-completions : (l : List Bool) → all_complete l ≡ (completions l == length l)
unfolding all_complete
all_complete-completions [] = refl
all_complete-completions (c ∷ rest) =
    ground (arith, completions-le rest, all_complete-completions rest)

completions-set :
    (l : List Bool) (i : ℕ)
    → get_or l i true ≡ false
    → completions (set l i true) ≡ completions l + 1
completions-set [] i h = cc
completions-set (c ∷ rest) zero h = ground arith
completions-set (c ∷ rest) (suc i) h = omega (arith, completions-set rest i h)

completed_sum-set :
    (f : Shard → ℕ) (l : List Bool) (shards : List Shard) (i : ℕ) (s : Shard)
    → get_or l i true ≡ false
    → get_elem? shards i ≡ some s
    → completed_sum f (set l i true) shards ≡ completed_sum f l shards + f s
completed_sum-set f [] shards i s h e = cc
completed_sum-set f (c ∷ rest) [] i s h e = cc
completed_sum-set f (c ∷ rest) (x ∷ shards) zero s h e =
    let same : x ≡ s = cc in rw (h, same) (omega arith)
completed_sum-set f (c ∷ rest) (x ∷ shards) (suc i) s h e =
    omega (arith, completed_sum-set f rest shards i s h e)

-- The counters after some threads, in whatever order, have completed.
pub record Tally (it : Iterator) (zsend : Send) : Type 0 where
  pub few : it.num_threads < 256
  pub flags : length it.complete ≡ it.num_threads
  pub shards : length it.thread_shards ≡ it.num_threads
  pub running : it.curr_threads + completions it.complete ≡ it.num_threads
  pub finished : zsend.complete ≡ (completions it.complete == it.num_threads)
  pub sent :
      zsend.packets_sent
      ≡ u64 (completed_sum (λ s. s.state.packets_sent) it.complete it.thread_shards)
  pub scanned :
      zsend.targets_scanned
      ≡ u64 (completed_sum (λ s. s.state.targets_scanned) it.complete it.thread_shards)
  pub failed :
      zsend.sendto_failures
      ≡ u32 (completed_sum (λ s. s.state.packets_failed) it.complete it.thread_shards)

-- One call by a thread that has not completed.
pub record Completes (it : Iterator) (zsend : Send) (i : ℕ) (it' : Iterator) (zsend' : Send)
    : Type 0 where
  pub now : ℕ
  pub first_call : get_or it.complete i true ≡ false
  pub returned : shard_complete now i it zsend ≡ some (it', zsend')

get_elem?-some {ℓ} :
    {A : Type ℓ} (l : List A) (i : ℕ) → i < length l → (a : A) × (get_elem? l i ≡ some a)
get_elem?-some [] i h = absurd (omega arith)
get_elem?-some (x ∷ l) zero h = (x, refl)
get_elem?-some (x ∷ l) (suc i) h = get_elem?-some l i (omega arith)

-- A thread's first call returns.
pub shard_complete_returns :
    (now i : ℕ) (it : Iterator) (zsend : Send)
    → Tally it zsend
    → i < it.num_threads
    → (it' : Iterator) × (zsend' : Send) × (shard_complete now i it zsend ≡ some (it', zsend'))
unfolding shard_complete
shard_complete_returns now i it zsend t h =
    let (s, at) = get_elem?-some it.thread_shards i (omega (arith, t.shards)) in
    let (first, at₀) = get_elem?-some it.thread_shards 0 (omega (arith, t.shards)) in
    (
      mark_complete i it,
      add_counters now (all_complete (mark_complete i it).complete) s first zsend,
      rw (lt→ltb i it.num_threads h, at, at₀, shard_complete) refl,
    )

-- What a call that returned did.
pub record Returned (now i : ℕ) (it it' : Iterator) (zsend zsend' : Send) : Type 0 where
  pub inside : i < it.num_threads
  pub shard : Shard
  pub first : Shard
  pub at : get_elem? it.thread_shards i ≡ some shard
  pub marked : it' ≡ mark_complete i it
  pub added :
      zsend' ≡ add_counters now (all_complete (mark_complete i it).complete) shard first zsend

pub shard_complete-Returned :
    (now i : ℕ) (it it' : Iterator) (zsend zsend' : Send)
    → shard_complete now i it zsend ≡ some (it', zsend')
    → Returned now i it it' zsend zsend'
unfolding shard_complete
shard_complete-Returned now i it it' zsend zsend' h =
    elim (Option-cases (get_elem? it.thread_shards i)) [
      | inl e ↦ ground arith
      | inr (s, e) ↦ elim (Option-cases (get_elem? it.thread_shards 0)) [
        | inl e₀ ↦ ground arith
        | inr (first, e₀) ↦ record {
          inside = ground arith;
          shard = s;
          first = first;
          at = e;
          marked = ground arith;
          added = ground arith;
        }
      ]
    ]

-- The fields that `add_counters` writes whether or not all threads are done.
module _ (now : ℕ) (s first : Shard) (zsend : Send) where
  added_sent :
      (done : Bool)
      → (add_counters now done s first zsend).packets_sent
        ≡ u64 (zsend.packets_sent + s.state.packets_sent)
  unfolding add_counters
  added_sent true = refl
  added_sent false = refl

  added_scanned :
      (done : Bool)
      → (add_counters now done s first zsend).targets_scanned
        ≡ u64 (zsend.targets_scanned + s.state.targets_scanned)
  unfolding add_counters
  added_scanned true = refl
  added_scanned false = refl

  added_failed :
      (done : Bool)
      → (add_counters now done s first zsend).sendto_failures
        ≡ u32 (zsend.sendto_failures + s.state.packets_failed)
  unfolding add_counters
  added_failed true = refl
  added_failed false = refl

  added_complete :
      (done : Bool) → (add_counters now done s first zsend).complete ≡ (done || zsend.complete)
  unfolding add_counters
  added_complete true = refl
  added_complete false = refl

-- A first call keeps the tally, with one more thread completed.
pub Completes-Tally :
    (it it' : Iterator) (zsend zsend' : Send) (i : ℕ)
    → Completes it zsend i it' zsend'
    → Tally it zsend
    → Tally it' zsend' × (completions it'.complete ≡ completions it.complete + 1)
unfolding mark_complete
Completes-Tally it it' zsend zsend' i c t =
    let r = shard_complete-Returned c.now i it it' zsend zsend' c.returned in
    let more = completions-set it.complete i c.first_call in
    let all = all_complete-completions (set it.complete i true) in
    let same_length = length-set it.complete i true in
    let add = λ (f : Shard → ℕ).
      completed_sum-set f it.complete it.thread_shards i r.shard c.first_call r.at in
    let add₁ = add (λ s. s.state.packets_sent) in
    let add₂ = add (λ s. s.state.targets_scanned) in
    let add₃ = add (λ s. s.state.packets_failed) in
    let done = all_complete (set it.complete i true) in
    let bound = completions-le (set it.complete i true) in
    rw (r.marked, r.added)
      (
        record {
          few = t.few;
          flags = same_length ∙ t.flags;
          shards = t.shards;
          running = omega (arith, more, bound, same_length, t.running, t.flags, t.few);
          finished =
              added_complete c.now r.shard r.first zsend done
              ∙ (ground (arith, t.finished, more, bound, same_length, t.flags, all));
          sent = added_sent c.now r.shard r.first zsend done ∙ (omega (arith, t.sent, add₁));
          scanned =
              added_scanned c.now r.shard r.first zsend done ∙ (omega (arith, t.scanned, add₂));
          failed = added_failed c.now r.shard r.first zsend done ∙ (omega (arith, t.failed, add₃));
        },
        more,
      )
