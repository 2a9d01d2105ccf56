-- ===== src/Shard.antt =====
-- src/shard.c: the walk of one sender thread through its part of the cycle.
-- `max_index` is `zsend.max_index`, `ports` and `port_count` are those of `zconf.ports`, and
-- `lookup_index` is `blocklist_lookup_index` over the painted constraint. `powm` is GMP's
-- `mpz_powm`, which the source only calls. The callback and its argument are not part of a shard
-- here: this file passes them on and never calls them.
pub mod Trail
pub mod Walk
pub mod Power
pub mod Range
pub mod Decode
use zmap_embedded_ip.Base.{
  ℕ, zero, suc, ◌+◌, ◌-◌, ◌*◌, ◌/◌, ◌%◌, ◌^◌, Bool, true, false, ◌&&◌, ◌||◌, not, Option, none,
  some, List, get_or, ltb, leb, ◌==◌, if◌then◌else◌, u8, u16, u32, u64, bit_and,
}
use zmap_embedded_ip.Cyclic.{Cycle}

pub record ShardState : Type 0 where
  pub packets_sent : ℕ
  pub targets_scanned : ℕ
  pub max_targets : ℕ
  pub max_packets : ℕ
  pub packets_failed : ℕ
  pub first_scanned : ℕ

pub record ShardParams : Type 0 where
  pub first : ℕ
  pub last : ℕ
  pub factor : ℕ
  pub modulus : ℕ

pub record Shard : Type 0 where
  pub state : ShardState
  pub params : ShardParams
  pub current : ℕ
  pub iterations : ℕ
  pub thread_id : ℕ
  pub bits_for_port : ℕ

pub record Target : Type 0 where
  pub ip : ℕ
  pub port : ℕ
  pub status : ℕ

abbrev pub shard_done : ℕ
shard_done = 0

abbrev pub shard_ok : ℕ
shard_ok = 1

-- What the targets are decoded with.
pub record Scan : Type 0 where
  pub max_index : ℕ
  pub port_count : ℕ
  pub ports : List ℕ
  pub lookup_index : ℕ → ℕ

unfoldable pub extract_port : ℕ → ℕ → ℕ
extract_port v bits = u16 (bit_and v (2 ^ bits - 1))

unfoldable pub extract_ip : ℕ → ℕ → ℕ
extract_ip v bits = u32 (v / 2 ^ bits)

abbrev pub done_target : Target
done_target = record { ip = 0; port = 0; status = shard_done }

-- `- 1` on a `uint64_t`.
abbrev pub minus_one : ℕ → ℕ
minus_one n = u64 (n + (2 ^ 64 - 1))

-- The target that an element of the group stands for, in `shard_get_next_target`.
unfoldable pub target_of : Scan → ℕ → ℕ → Target
target_of scan bits candidate = record {
  ip = u32 (scan.lookup_index (extract_ip (minus_one candidate) bits));
  port = get_or scan.ports (extract_port (minus_one candidate) bits) 0;
  status = shard_ok;
}

-- Whether an element stands for a target.
unfoldable pub is_target : Scan → ℕ → ℕ → Bool
is_target scan bits candidate =
    ltb (extract_ip (minus_one candidate) bits) scan.max_index
    && ltb (extract_port (minus_one candidate) bits) scan.port_count

unfoldable pub shard_get_cur_target : Scan → Shard → Target
unfolding target_of
shard_get_cur_target scan s =
    if s.current == shard_done then done_target else target_of scan s.bits_for_port s.current

unfoldable pub shard_get_next_elem : Shard → Shard
shard_get_next_elem s = record s { current = u64 (s.current * s.params.factor) % s.params.modulus }

-- The loop of `shard_get_next_target`. Out of fuel it gives `none`.
unfoldable pub next_loop : Scan → ℕ → Shard → Option (Target × Shard)
unfolding shard_get_next_elem is_target target_of
next_loop scan zero s = none
next_loop scan (suc fuel) s =
    let s' = shard_get_next_elem s in
    let candidate = s'.current in
    let rest = next_loop scan fuel s' in
    if candidate == s.params.last
    then some
        (done_target, record s' { current = shard_done; iterations = u64 (s'.iterations + 1) })
    else if is_target scan s.bits_for_port candidate
    then some (
      target_of scan s.bits_for_port candidate,
      record s' { iterations = u64 (s'.iterations + 1) },
    )
    else rest

unfoldable pub shard_get_next_target : Scan → ℕ → Shard → Option (Target × Shard)
unfolding next_loop
shard_get_next_target scan fuel s =
    let searched = next_loop scan fuel s in
    if s.current == shard_done then some (done_target, s) else searched

-- Here the index is not cut to 32 bits before the test.
unfoldable pub shard_roll_to_valid : Scan → ℕ → Shard → Option Shard
unfolding shard_get_next_target
shard_roll_to_valid scan fuel s =
    let current_ip_index = (minus_one s.current) / 2 ^ s.bits_for_port in
    let candidate_port = extract_port (minus_one s.current) s.bits_for_port in
    let rolled : Option Shard = elim (shard_get_next_target scan fuel s) [
      | none ↦ none
      | some (t, s') ↦ some s'
    ] in
    if ltb current_ip_index scan.max_index && ltb candidate_port scan.port_count
    then some s
    else rolled

-- `num_subshards`, and the index of the subshard of a thread.
abbrev pub subshards : ℕ → ℕ → ℕ
subshards num_shards num_threads = u32 (num_shards * num_threads)

abbrev pub sub_index : ℕ → ℕ → ℕ → ℕ
sub_index shard_idx num_threads thread_idx = u32 (shard_idx * num_threads + thread_idx)

unfoldable pub exponent_begin : ℕ → ℕ → ℕ → ℕ → ℕ
exponent_begin num_elts num_subshards offset sub_idx =
    u64 (u64 (num_elts / num_subshards * sub_idx) + offset) % num_elts

unfoldable pub exponent_end : ℕ → ℕ → ℕ → ℕ → ℕ
exponent_end num_elts num_subshards offset sub_idx =
    u64 (u64 (num_elts / num_subshards * (u32 (sub_idx + 1) % num_subshards)) + offset) % num_elts

unfoldable pub max_targets_of : ℕ → ℕ → ℕ → ℕ
max_targets_of max_total num_subshards sub_idx =
    let share = u32 (max_total / num_subshards) in
    if ltb sub_idx (max_total % num_subshards) then u32 (share + 1) else share

-- The assertions of `shard_init`.
unfoldable pub init_args_ok : ℕ → ℕ → ℕ → ℕ → ℕ → ℕ → Bool
init_args_ok shard_idx num_shards thread_idx num_threads max_total num_elts =
    let n = subshards num_shards num_threads in
    ltb 0 num_shards
    && ltb 0 num_threads
    && ltb shard_idx num_shards
    && ltb thread_idx num_threads
    && ltb n num_elts
    && (max_total == 0 || leb n max_total)

-- `shard_init` up to the search for the first target; `previous` is the shard's memory.
unfoldable pub init_shard : (ℕ → ℕ → ℕ → ℕ) → Shard → ℕ → ℕ → ℕ → ℕ → ℕ → ℕ → Cycle → Shard
unfolding exponent_begin exponent_end max_targets_of
init_shard powm previous shard_idx num_shards thread_idx num_threads max_total bits cycle =
    let n = subshards num_shards num_threads in
    let sub_idx = sub_index shard_idx num_threads thread_idx in
    let p = cycle.group.prime in
    let first = u64 (powm cycle.generator (exponent_begin cycle.order n cycle.offset sub_idx) p) in
    let last = u64 (powm cycle.generator (exponent_end cycle.order n cycle.offset sub_idx) p) in
    let max_targets =
      if ltb 0 max_total then max_targets_of max_total n sub_idx else previous.state.max_targets in
    record previous {
      params = record { first = first; last = last; factor = cycle.generator; modulus = p };
      bits_for_port = bits;
      current = first;
      thread_id = thread_idx;
      state = record (previous.state) { max_targets = max_targets };
    }

-- `shard_init`; a failed assertion is `none` too.
unfoldable pub shard_init :
    (ℕ → ℕ → ℕ → ℕ) → Scan → ℕ → Shard → ℕ → ℕ → ℕ → ℕ → ℕ → ℕ → Cycle → Option Shard
unfolding init_args_ok init_shard shard_roll_to_valid
shard_init powm scan fuel previous shard_idx num_shards thread_idx num_threads max_total bits
      cycle =
    let s =
      init_shard powm previous shard_idx num_shards thread_idx num_threads max_total bits cycle in
    if init_args_ok shard_idx num_shards thread_idx num_threads max_total cycle.order
    then shard_roll_to_valid scan fuel s
    else none
