-- ===== src/Send.antt =====
-- src/send.c, src/send-linux.c: a sender thread in IPv4 mode, its batches of packets, and the rate.
-- The network and the state of the scan are parameters: what `sendmmsg` returns at each call, attempts after an error included, and
-- whether the receiver or the clock has ended the scan at a round. Delays have no counterpart. A probe
-- is recorded by what `make_packet` is called with. `none` is an exhausted fuel or a `log_fatal`.
pub mod Moves
pub mod Account
pub mod Rounds
pub mod Limits
pub mod First
use zmap_embedded_ip.Base.{
  ℕ, zero, suc, ◌+◌, ◌-◌, ◌*◌, ◌/◌, ◌%◌, ◌^◌, Bool, true, false, ◌&&◌, ◌||◌, not, Option, none,
  some, List, [], ◌∷◌, ◌++◌, length, get_or, take, ltb, leb, ◌==◌, if◌then◌else◌, ◌>>=◌, u16, u32,
  u64,
}
use zmap_embedded_ip.Shard.{
  Shard, Target, Scan, shard_done, shard_get_cur_target, shard_get_next_target,
}
use zmap_embedded_ip.Ports.{pbm_check}
use zmap_embedded_ip.Packet.{ByteOrder}

-- A probe for an address and a port, the `stream`-th for this target.
pub record Probe : Type 0 where
  pub src_ip : ℕ
  pub ip : ℕ
  pub port : ℕ
  pub stream : ℕ

-- The loop of `send_batch` over the attempts that are left: `sendmmsg` gives for their number, an
-- offset in the batch and a number of messages how many of them it sent, `none` for an error, so a
-- call that is made again may end in another way. The result is the number of messages sent, the
-- first ones of the batch.
unfoldable pub send_attempts : (ℕ → ℕ → ℕ → Option ℕ) → ℕ → ℕ → ℕ → ℕ
send_attempts sendmmsg zero sent len = sent
send_attempts sendmmsg (suc retries) sent len = elim (sendmmsg retries sent (len - sent)) [
  | none ↦ send_attempts sendmmsg retries sent len
  | some rv ↦
      let more = send_attempts sendmmsg retries (sent + rv) len in
      if rv == len - sent then sent + rv else more
]

unfoldable pub send_batch : (ℕ → ℕ → ℕ → Option ℕ) → ℕ → List Probe → ℕ
unfolding send_attempts
send_batch sendmmsg retries batch =
    let sent = send_attempts sendmmsg retries 0 (length batch) in
    if length batch == 0 then 0 else sent

-- What `zconf` and `zsend` say.
pub record Conf : Type 0 where
  pub order : ByteOrder
  pub source_ip_addresses : List ℕ
  pub packet_streams : ℕ
  pub retries : ℕ
  pub capacity : ℕ
  pub scan : Scan
  pub fuel : ℕ
  -- `zsend.list_of_ips_pbm` if a list was given.
  pub list_of_ips : Option (List (Option (List ℕ)))

-- `sendmmsg` at the n-th batch and with a number of attempts left, and whether the scan has ended at the n-th round.
pub record World : Type 0 where
  pub sendmmsg : ℕ → ℕ → ℕ → ℕ → Option ℕ
  pub ended : ℕ → Bool

-- A thread: its shard and local variables, and for the record the probes made and transmitted so
-- far, in order, and the number of batches.
pub record Sender : Type 0 where
  pub shard : Shard
  pub current : Target
  pub current_ip : ℕ
  pub current_port : ℕ
  pub batch : List Probe
  pub made : List Probe
  pub transmitted : List Probe
  pub batches : ℕ

unfoldable pub get_src_ip : Conf → ℕ → ℕ → ℕ
get_src_ip conf dst local_offset =
    let n = length conf.source_ip_addresses in
    if n == 1
    then get_or conf.source_ip_addresses 0 0
    else get_or conf.source_ip_addresses (u32 (conf.order.ntohl dst + local_offset) % n) 0

-- Hands the batch to the network.
unfoldable pub transmit : Conf → World → Sender → Sender × ℕ
unfolding send_batch
transmit conf world t =
    let rc = send_batch (world.sendmmsg t.batches) (conf.retries + 1) t.batch in
    (record t { transmitted = t.transmitted ++ take rc t.batch; batches = t.batches + 1 }, rc)

-- A full batch is sent, the packets that were not are counted, and the batch starts again.
unfoldable pub flush_full : Conf → World → Sender → Sender
unfolding transmit
flush_full conf world t =
    let (t', rc) = transmit conf world t in
    let failed = u32 (t'.shard.state.packets_failed + (length t.batch - rc)) in
    let flushed : Sender = record t' {
      batch = [];
      shard = record t'.shard { state = record t'.shard.state { packets_failed = failed } };
    } in
    if length t.batch == conf.capacity then flushed else t

-- The body of the loop over the streams.
unfoldable pub send_stream : Conf → World → ℕ → Sender → Sender
unfolding get_src_ip flush_full
send_stream conf world i t =
    let probe : Probe = record {
      src_ip = get_src_ip conf t.current_ip i;
      ip = t.current_ip;
      port = t.current_port;
      stream = i;
    } in
    let added : Sender = record t { batch = t.batch ++ probe ∷ []; made = t.made ++ probe ∷ [] } in
    let t' = flush_full conf world added in
    record t' {
      shard = record t'.shard {
        state = record t'.shard.state { packets_sent = u64 (t'.shard.state.packets_sent + 1) };
      };
    }

-- The loop: `left` streams from `i` on.
unfoldable pub send_streams : Conf → World → ℕ → ℕ → Sender → Sender
unfolding send_stream
send_streams conf world zero i t = t
send_streams conf world (suc left) i t =
    send_streams conf world left (i + 1) (send_stream conf world i t)

-- The inner loop for a list of addresses: on until the current address is on the list. It does not
-- set `current_port`. The flag tells that the shard was depleted.
unfoldable pub skip_unlisted : Conf → List (Option (List ℕ)) → ℕ → Sender → Option (Bool × Sender)
unfolding pbm_check shard_get_next_target
skip_unlisted conf listed zero t = none
skip_unlisted conf listed (suc fuel) t = elim (pbm_check listed t.current_ip) [
  | true ↦ some (false, t)
  | false ↦ elim (shard_get_next_target conf.scan conf.fuel t.shard) [
    | none ↦ none
    | some (next, shard) ↦
        let t' : Sender = record t { shard = shard; current = next; current_ip = next.ip } in
        elim (next.status == shard_done) [
          | true ↦ some (true, t')
          | false ↦ skip_unlisted conf listed fuel t'
        ]
  ]
]

-- The next target. The flag tells that the thread is done.
unfoldable pub next_target : Conf → Sender → Option (Bool × Sender)
unfolding shard_get_next_target skip_unlisted
next_target conf t = elim (shard_get_next_target conf.scan conf.fuel t.shard) [
  | none ↦ none
  | some (next, shard) ↦
      let t' : Sender = record t {
        shard = shard;
        current = next;
        current_ip = next.ip;
        current_port = next.port;
      } in
      elim conf.list_of_ips [
        | none ↦ some (false, t')
        | some listed ↦
            if next.status == shard_done
            then some (false, t')
            else skip_unlisted conf listed conf.fuel t'
      ]
]

-- The tests at the head of the loop.
unfoldable pub is_finished : World → ℕ → Sender → Bool
is_finished world round t =
    let state = t.shard.state in
    world.ended round
    || not (state.max_targets == 0) && leb state.max_targets state.targets_scanned
    || not (state.max_packets == 0) && leb state.max_packets state.packets_sent
    || t.current.status == shard_done

-- The probes for the current target.
unfoldable pub send_target : Conf → World → Sender → Sender
unfolding send_streams
send_target conf world t =
    let t' = send_streams conf world conf.packet_streams 0 t in
    record t' {
      shard = record t'.shard {
        state = record t'.shard.state {
          targets_scanned = u64 (t'.shard.state.targets_scanned + 1);
        };
      };
    }

-- The loop of `send_run` from a round on.
unfoldable pub send_loop : Conf → World → ℕ → ℕ → Sender → Option Sender
unfolding is_finished send_target next_target
send_loop conf world zero round t = none
send_loop conf world (suc fuel) round t = elim (is_finished world round t) [
  | true ↦ some t
  | false ↦ elim (next_target conf (send_target conf world t)) [
    | none ↦ none
    | some (done, t') ↦ elim done [
      | true ↦ some t'
      | false ↦ send_loop conf world fuel (round + 1) t'
    ]
  ]
]

-- The loop that looks for the first listed address. The flag tells that there was none.
unfoldable pub first_listed : Conf → List (Option (List ℕ)) → ℕ → Sender → Option (Bool × Sender)
unfolding pbm_check shard_get_next_target
first_listed conf listed zero t = none
first_listed conf listed (suc fuel) t = elim (pbm_check listed t.current_ip) [
  | true ↦ some (false, t)
  | false ↦ elim (shard_get_next_target conf.scan conf.fuel t.shard) [
    | none ↦ none
    | some (next, shard) ↦
        let t' : Sender = record t {
          shard = shard;
          current = next;
          current_ip = next.ip;
          current_port = next.port;
        } in
        elim (next.status == shard_done) [
          | true ↦ some (true, t')
          | false ↦ first_listed conf listed fuel t'
        ]
  ]
]

-- The variables when the loop is reached: the current target is the shard's, the address and the
-- port are still 0.
unfoldable pub sender_init : Conf → Shard → Sender
unfolding shard_get_cur_target
sender_init conf s = record {
  shard = s;
  current = shard_get_cur_target conf.scan s;
  current_ip = 0;
  current_port = 0;
  batch = [];
  made = [];
  transmitted = [];
  batches = 0;
}

unfoldable pub send_start : Conf → Shard → Option (Bool × Sender)
unfolding sender_init first_listed
send_start conf s = elim conf.list_of_ips [
  | none ↦ some (false, sender_init conf s)
  | some listed ↦ first_listed conf listed conf.fuel (sender_init conf s)
]

-- What is left in the batch is sent; failures are only logged. The callback at the end,
-- `shard_complete`, is modelled in Iterator.antt.
unfoldable pub cleanup : Conf → World → Sender → Sender
unfolding transmit
cleanup conf world t = (transmit conf world t).0

unfoldable pub send_run : Conf → World → ℕ → Shard → Option Sender
unfolding send_start send_loop cleanup
send_run conf world fuel s = elim (send_start conf s) [
  | none ↦ none
  | some (done, t) ↦ elim done [
    | true ↦ some (cleanup conf world t)
    | false ↦ elim (send_loop conf world fuel 0 t) [
      | none ↦ none
      | some t' ↦ some (cleanup conf world t')
    ]
  ]
]

-- `send_init`: the packets per second for a bandwidth in bits per second, above 0. A value from 2^31 on is
-- negative in an `int`: -1 stands for the default, `none` for a fatal error.
unfoldable pub rate_of_bandwidth : ℕ → ℕ → Option ℕ
rate_of_bandwidth max_packet_length bandwidth =
    let bits = max_packet_length * 8 + 8 * 24 in
    let pkt_len = if ltb bits (84 * 8) then 84 * 8 else bits in
    let rate = bandwidth / pkt_len in
    if ltb (2 ^ 32 - 1) rate
    then some 0
    else if rate == 0
    then some 1
    else if ltb rate (2 ^ 31)
    then some rate
    else if rate == 2 ^ 32 - 1
    then some 10000
    else none
