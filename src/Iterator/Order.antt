-- ===== src/Iterator/Order.antt =====
-- src/iterator.c: whatever the order in which the threads end, the last one ends the scan.
use zmap_embedded_ip.Base.{
  ℕ, zero, suc, ◌+◌, ◌^◌, ◌<◌, ◌≡◌, refl, ap, ◌∙◌, Bool, true, false, Option, none, some, List, [],
  ◌∷◌, length, length-replicate, get_or, set, replicate, ◌==◌, u64, arith,
}
use zmap_embedded_ip.Shard.{Shard}
use zmap_embedded_ip.Iterator.{
  Iterator, Send, shard_complete, mark_complete, sum_by, iterator_get_sent,
}
use zmap_embedded_ip.Iterator.Tally.{
  Tally, completions, completions-le, completed_sum, shard_complete_returns, Completes-Tally,
  Completes, shard_complete-Returned,
}

-- The calls of the threads `ids`, in this order; `now` is the time of each call.
pub complete_all : (ℕ → ℕ) → List ℕ → Iterator → Send → Option (Iterator × Send)
complete_all now [] it zsend = some (it, zsend)
complete_all now (i ∷ ids) it zsend = elim (shard_complete (now i) i it zsend) [
  | none ↦ none
  | some (it', zsend') ↦ complete_all now ids it' zsend'
]

complete_all-step :
    (now : ℕ → ℕ) (i : ℕ) (ids : List ℕ) (it mid : Iterator) (zsend zmid : Send)
    → shard_complete (now i) i it zsend ≡ some (mid, zmid)
    → complete_all now (i ∷ ids) it zsend ≡ complete_all now ids mid zmid
unfolding complete_all
complete_all-step now i ids it mid zsend zmid h = rw (h, complete_all) refl

-- Each of the threads is there, and none calls twice or has called before.
abbrev pub EachOnce : List Bool → List ℕ → Type 0
EachOnce flags [] = Unit {0}
EachOnce flags (i ∷ ids) = (get_or flags i true ≡ false) × EachOnce (set flags i true) ids

get_or-lt : (l : List Bool) (i : ℕ) → get_or l i true ≡ false → i < length l
get_or-lt [] i h = cc
get_or-lt (c ∷ l) zero h = omega arith
get_or-lt (c ∷ l) (suc i) h = omega (arith, get_or-lt l i h)

-- The state after all calls of a list.
pub record Ended (it : Iterator) (ids : List ℕ) (it' : Iterator) (zsend' : Send) : Type 0 where
  pub tally : Tally it' zsend'
  pub counted : completions it'.complete ≡ completions it.complete + length ids
  pub same_threads : it'.num_threads ≡ it.num_threads
  pub same_shards : it'.thread_shards ≡ it.thread_shards

marked-complete : (i : ℕ) (it : Iterator) → (mark_complete i it).complete ≡ set it.complete i true
unfolding mark_complete
marked-complete i it = refl

marked-threads : (i : ℕ) (it : Iterator) → (mark_complete i it).num_threads ≡ it.num_threads
unfolding mark_complete
marked-threads i it = refl

marked-shards : (i : ℕ) (it : Iterator) → (mark_complete i it).thread_shards ≡ it.thread_shards
unfolding mark_complete
marked-shards i it = refl

complete_all-Ended :
    (now : ℕ → ℕ) (ids : List ℕ) (it : Iterator) (zsend : Send)
    → Tally it zsend
    → EachOnce it.complete ids
    → (it' : Iterator) × (zsend' : Send) × ((complete_all now ids it zsend ≡ some (it', zsend'))
        × Ended it ids it' zsend')
unfolding complete_all
complete_all-Ended now [] it zsend t once = (
  it,
  zsend,
  (refl, record { tally = t; counted = omega arith; same_threads = refl; same_shards = refl }),
)
complete_all-Ended now (i ∷ ids) it zsend t once =
    let inside : i < it.num_threads = omega (arith, get_or-lt it.complete i once.0, t.flags) in
    let (mid, zmid, returned) = shard_complete_returns (now i) i it zsend t inside in
    let call : Completes it zsend i mid zmid = record {
      now = now i;
      first_call = once.0;
      returned = returned;
    } in
    let (t', more) = Completes-Tally it mid zsend zmid i call t in
    let marked : mid ≡ mark_complete i it =
      (shard_complete-Returned (now i) i it mid zsend zmid returned).marked in
    let flags : mid.complete ≡ set it.complete i true =
      ap (λ (x : Iterator). x.complete) marked ∙ marked-complete i it in
    let (it', zsend', (run, e)) = complete_all-Ended now ids mid zmid t' (rw flags once.1) in
    (
      it',
      zsend',
      (
        complete_all-step now i ids it mid zsend zmid returned ∙ run,
        record {
          tally = e.tally;
          counted = omega (arith, e.counted, more);
          same_threads =
              e.same_threads ∙ ap (λ (x : Iterator). x.num_threads) marked ∙ marked-threads i it;
          same_shards =
              e.same_shards ∙ ap (λ (x : Iterator). x.thread_shards) marked ∙ marked-shards i it;
        },
      ),
    )

total : (Shard → ℕ) → List Shard → ℕ
total f [] = 0
total f (s ∷ shards) = f s + total f shards

sum_by-total :
    (f : Shard → ℕ) (sum : ℕ) (shards : List Shard)
    → sum < 2 ^ 64
    → sum_by f sum shards ≡ u64 (sum + total f shards)
unfolding sum_by total
sum_by-total f sum [] h = omega arith
sum_by-total f sum (s ∷ shards) h =
    omega (arith, sum_by-total f (u64 (sum + f s)) shards (omega arith))

completed_sum-total :
    (f : Shard → ℕ) (l : List Bool) (shards : List Shard)
    → completions l ≡ length l
    → length shards ≡ length l
    → completed_sum f l shards ≡ total f shards
unfolding total
completed_sum-total f [] [] h e = refl
completed_sum-total f [] (s ∷ shards) h e = absurd (omega arith)
completed_sum-total f (c ∷ l) [] h e = absurd (omega arith)
completed_sum-total f (c ∷ l) (s ∷ shards) h e =
    ground (arith, completions-le l, completed_sum-total f l shards)

none_complete : (n : ℕ) → completions (replicate n false) ≡ 0
none_complete zero = refl
none_complete (suc n) = omega (arith, none_complete n)

none_summed :
    (f : Shard → ℕ) (n : ℕ) (shards : List Shard) → completed_sum f (replicate n false) shards ≡ 0
none_summed f zero shards = refl
none_summed f (suc n) [] = refl
none_summed f (suc n) (s ∷ shards) = omega (arith, none_summed f n shards)

-- An iterator as `iterator_init` leaves it, and `zsend` before any thread has ended.
pub record IsFresh (it : Iterator) (zsend : Send) : Type 0 where
  pub few : it.num_threads < 256
  pub some_thread : 0 < it.num_threads
  pub flags : it.complete ≡ replicate it.num_threads false
  pub shards : length it.thread_shards ≡ it.num_threads
  pub running : it.curr_threads ≡ it.num_threads
  pub unfinished : zsend.complete ≡ false
  pub no_sent : zsend.packets_sent ≡ 0
  pub no_scanned : zsend.targets_scanned ≡ 0
  pub no_failed : zsend.sendto_failures ≡ 0

IsFresh-Tally : (it : Iterator) (zsend : Send) → IsFresh it zsend → Tally it zsend
IsFresh-Tally it zsend fresh =
    let zero_done : completions it.complete ≡ 0 = rw fresh.flags (none_complete it.num_threads) in
    let zero_sum : (f : Shard → ℕ) → completed_sum f it.complete it.thread_shards ≡ 0 =
      λ f. rw fresh.flags (none_summed f it.num_threads it.thread_shards) in
    record {
      few = fresh.few;
      flags = rw fresh.flags (length-replicate it.num_threads false);
      shards = fresh.shards;
      running = omega (arith, zero_done, fresh.running);
      finished = ground (arith, zero_done, fresh.unfinished, fresh.some_thread);
      sent = omega (arith, zero_sum (λ s. s.state.packets_sent), fresh.no_sent);
      scanned = omega (arith, zero_sum (λ s. s.state.targets_scanned), fresh.no_scanned);
      failed = omega (arith, zero_sum (λ s. s.state.packets_failed), fresh.no_failed);
    }

-- In whatever order the threads of a fresh iterator end, each once, all calls of `shard_complete`
-- return; `complete` is set exactly if all threads have ended, the count of running threads is
-- that of the others, and once all have ended `packets_sent` is what `iterator_get_sent` adds up.
pub complete_all_lem :
    (now : ℕ → ℕ) (ids : List ℕ) (it : Iterator) (zsend : Send)
    → IsFresh it zsend
    → EachOnce it.complete ids
    → (it' : Iterator) × (zsend' : Send) × ((complete_all now ids it zsend ≡ some (it', zsend'))
        × (zsend'.complete ≡ (length ids == it.num_threads))
        × (it'.curr_threads + length ids ≡ it.num_threads)
        × (length ids ≡ it.num_threads → zsend'.packets_sent ≡ iterator_get_sent it))
unfolding iterator_get_sent
complete_all_lem now ids it zsend fresh once =
    let (it', zsend', (run, e)) =
      complete_all-Ended now ids it zsend (IsFresh-Tally it zsend fresh) once in
    let zero_done : completions it.complete ≡ 0 = rw fresh.flags (none_complete it.num_threads) in
    let counted : completions it'.complete ≡ length ids = omega (arith, e.counted, zero_done) in
    (
      it',
      zsend',
      (
        run,
        e.tally.finished ∙ (ground (arith, counted, e.same_threads)),
        omega (arith, e.tally.running, counted, e.same_threads),
        λ h.
            let f : Shard → ℕ = λ s. s.state.packets_sent in
            let all =
              completed_sum-total f it'.complete it'.thread_shards
                (omega (arith, counted, e.tally.flags, e.same_threads))
                (omega (arith, e.tally.shards, e.tally.flags)) in
            omega (
              arith,
              e.tally.sent,
              all,
              ap (total f) e.same_shards,
              sum_by-total f 0 it.thread_shards (omega arith),
            ),
      ),
    )
