-- ===== src/Iterator.antt =====
-- src/iterator.c: the iterator over all shards of a scan, and the counters of its threads.
-- The lock is held for the whole of `shard_complete`, so that it is one step of the state here.
pub mod Complete
pub mod Order
pub mod Tally
use zmap_embedded_ip.Base.{
  ℕ, zero, suc, ◌+◌, ◌-◌, ◌*◌, ◌/◌, ◌%◌, ◌^◌, Bool, true, false, ◌&&◌, Option, none, some, List, [],
  ◌∷◌, length, get_elem?, set, replicate, ltb, ◌==◌, if◌then◌else◌, u8, u16, u32, u64,
}
use zmap_embedded_ip.Cyclic.{Cycle, get_group, make_cycle}
use zmap_embedded_ip.Shard.{Shard, Scan, shard_init}

-- The counters of `zsend` that the iterator writes.
pub record Send : Type 0 where
  pub packets_sent : ℕ
  pub targets_scanned : ℕ
  pub sendto_failures : ℕ
  pub finish : ℕ
  pub complete : Bool
  pub first_scanned : ℕ

pub record Iterator : Type 0 where
  pub cycle : Cycle
  pub num_threads : ℕ
  pub thread_shards : List Shard
  pub complete : List Bool
  pub curr_threads : ℕ

-- The loop `done = done && it->complete[i]`.
unfoldable pub all_complete : List Bool → Bool
all_complete [] = true
all_complete (c ∷ rest) = c && all_complete rest

-- What `shard_complete` writes into the iterator.
unfoldable pub mark_complete : ℕ → Iterator → Iterator
mark_complete thread_id it = record it {
  complete = set it.complete thread_id true;
  curr_threads = u32 (it.curr_threads + 2 ^ 32 - 1);
}

-- What it writes into `zsend`, for the thread's shard and the first one.
unfoldable pub add_counters : ℕ → Bool → Shard → Shard → Send → Send
add_counters now done s first zsend =
    let summed : Send = record zsend {
      packets_sent = u64 (zsend.packets_sent + s.state.packets_sent);
      targets_scanned = u64 (zsend.targets_scanned + s.state.targets_scanned);
      sendto_failures = u32 (zsend.sendto_failures + s.state.packets_failed);
    } in
    if done
    then record summed { finish = now; complete = true; first_scanned = first.state.first_scanned }
    else summed

-- `shard_complete`; `now` is what `now()` returns. A failed assertion or a read outside of the
-- array is `none`.
unfoldable pub shard_complete : ℕ → ℕ → Iterator → Send → Option (Iterator × Send)
unfolding all_complete mark_complete add_counters
shard_complete now thread_id it zsend =
    let it' = mark_complete thread_id it in
    let done = all_complete it'.complete in
    if ltb thread_id it.num_threads
    then elim (get_elem? it.thread_shards thread_id) [
      | none ↦ none
      | some s ↦ elim (get_elem? it.thread_shards 0) [
        | none ↦ none
        | some first ↦ some (it', add_counters now done s first zsend)
      ]
    ]
    else none

-- The loop of `bits_needed`. A 64-bit number is 0 after 64 halvings.
unfoldable pub bits_loop : ℕ → ℕ → ℕ → ℕ
bits_loop zero n r = r
bits_loop (suc fuel) n r = let rest = bits_loop fuel (n / 2) (r + 1) in if n == 0 then r else rest

unfoldable pub bits_needed : ℕ → ℕ
unfolding bits_loop
bits_needed n = bits_loop 64 ((n + 2 ^ 64 - 1) % 2 ^ 64) 0

-- The loop of `iterator_init` over the threads from `i` on.
unfoldable pub init_shards : (ℕ → Option Shard) → ℕ → ℕ → Option (List Shard)
init_shards init zero i = some []
init_shards init (suc rest) i =
    let later = init_shards init rest (suc i) in
    elim (init i) [
      | none ↦ none
      | some s ↦ elim later [ none ↦ none | some shards ↦ some (s ∷ shards) ]
    ]

-- What `iterator_init` writes into `zsend.max_index`.
unfoldable pub max_index_of : ℕ → ℕ
max_index_of num_addrs = if ltb (2 ^ 32) num_addrs then 2 ^ 32 - 1 else u32 num_addrs

-- `iterator_init`: `fuel` is for the search of a generator and of each first target, `word₁` and
-- `word₂` are the random words, `fresh` is a zeroed shard, and `scan` is made from `max_index`.
unfoldable pub iterator_init :
    (ℕ → ℕ → ℕ → ℕ) → (ℕ → Scan) → ℕ → ℕ → ℕ → Shard → ℕ → ℕ → ℕ → ℕ → ℕ → ℕ → Option (ℕ × Iterator)
unfolding bits_needed init_shards max_index_of get_group make_cycle shard_init
iterator_init powm scan fuel word₁ word₂ fresh max_targets num_threads shard num_shards num_addrs
      num_ports =
    let bits_for_ip = u8 (bits_needed num_addrs) in
    let bits_for_port = u8 (bits_needed num_ports) in
    let max_index = max_index_of num_addrs in
    let init : Cycle → ℕ → Option Shard = λ cycle i.
      shard_init powm (scan max_index) fuel fresh shard num_shards i num_threads max_targets
        bits_for_port cycle in
    elim (get_group (u64 (2 ^ (bits_for_ip + bits_for_port)))) [
      | none ↦ none
      | some g ↦ elim (make_cycle powm g fuel word₁ word₂) [
        | none ↦ none
        | some cycle ↦ elim (init_shards (init cycle) num_threads 0) [
          | none ↦ none
          | some shards ↦ some (
            max_index,
            record {
              cycle = cycle;
              num_threads = num_threads;
              thread_shards = shards;
              complete = replicate num_threads false;
              curr_threads = num_threads;
            },
          )
        ]
      ]
    ]

-- The loop of the counters: 64-bit sums.
unfoldable pub sum_by : (Shard → ℕ) → ℕ → List Shard → ℕ
sum_by f sum [] = sum
sum_by f sum (s ∷ shards) = sum_by f (u64 (sum + f s)) shards

unfoldable pub iterator_get_sent : Iterator → ℕ
unfolding sum_by
iterator_get_sent it = sum_by (λ s. s.state.packets_sent) 0 it.thread_shards

unfoldable pub iterator_get_iterations : Iterator → ℕ
unfolding sum_by
iterator_get_iterations it = sum_by (λ s. s.iterations) 0 it.thread_shards

unfoldable pub iterator_get_fail : Iterator → ℕ
unfolding sum_by
iterator_get_fail it = u32 (sum_by (λ s. s.state.packets_failed) 0 it.thread_shards)

unfoldable pub get_shard : Iterator → ℕ → Option Shard
get_shard it thread_id =
    if ltb thread_id it.num_threads then get_elem? it.thread_shards thread_id else none

unfoldable pub iterator_get_curr_send_threads : Iterator → ℕ
iterator_get_curr_send_threads it = it.curr_threads
