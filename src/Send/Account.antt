-- ===== src/Send/Account.antt =====
-- src/send.c: every probe that a thread makes is transmitted, counted as failed or still in the batch.
use zmap_embedded_ip.Base.{
  ℕ, zero, suc, ◌+◌, ◌-◌, ◌%◌, ◌^◌, ◌≤◌, ◌<◌, ◌≡◌, refl, ap, ◌∙◌, inl, inr, Option, some, List, [],
  ◌∷◌, ◌++◌, length, length-append, length-take, take, Bool-cases, Option-cases, ◌==◌, u64, arith,
}
use zmap_embedded_ip.Send.Moves.{Moved}
use zmap_embedded_ip.Send.{
  Probe, Conf, World, Sender, get_src_ip, send_attempts, send_batch, transmit, flush_full,
  send_stream, send_streams, send_target,
}

-- `sendmmsg` sends at most the messages that it is given, as its manual says.
abbrev pub IsNetwork : (ℕ → ℕ → ℕ → Option ℕ) → Type 0
IsNetwork sendmmsg = (attempts at n rv : ℕ) → sendmmsg attempts at n ≡ some rv → rv ≤ n

send_attempts-le :
    (sendmmsg : ℕ → ℕ → ℕ → Option ℕ) (retries sent len : ℕ)
    → IsNetwork sendmmsg
    → sent ≤ len
    → send_attempts sendmmsg retries sent len ≤ len
unfolding send_attempts
send_attempts-le sendmmsg zero sent len law h = h
send_attempts-le sendmmsg (suc retries) sent len law h =
    elim (Option-cases (sendmmsg retries sent (len - sent))) [
      | inl e ↦ rw (send_attempts, e) (send_attempts-le sendmmsg retries sent len law h)
      | inr (rv, e) ↦
          let few : rv ≤ len - sent = law retries sent (len - sent) rv e in
          let more = send_attempts-le sendmmsg retries (sent + rv) len law (omega arith) in
          rw (send_attempts, e) (ground (arith, more))
    ]

-- No more packets are reported as sent than the batch holds.
pub send_batch-le :
    (sendmmsg : ℕ → ℕ → ℕ → Option ℕ) (retries : ℕ) (batch : List Probe)
    → IsNetwork sendmmsg
    → send_batch sendmmsg retries batch ≤ length batch
unfolding send_batch
send_batch-le sendmmsg retries batch law =
    ground (arith, send_attempts-le sendmmsg retries 0 (length batch) law (omega arith))

-- The batch has room, and the probes made are those transmitted, failed or waiting.
pub record IsAccounted (conf : Conf) (t : Sender) : Type 0 where
  pub room : length t.batch < conf.capacity
  pub sent : t.shard.state.packets_sent ≡ u64 (length t.made)
  pub kept :
      (length t.transmitted + t.shard.state.packets_failed + length t.batch) % 2 ^ 32
      ≡ length t.made % 2 ^ 32

abbrev pub IsWorld : World → Type 0
IsWorld world = (k : ℕ) → IsNetwork (world.sendmmsg k)

-- What `flush_full` needs and keeps: the batch may be full here.
record IsFull (conf : Conf) (t : Sender) : Type 0 where
  filled : length t.batch ≤ conf.capacity
  kept :
      (length t.transmitted + t.shard.state.packets_failed + length t.batch) % 2 ^ 32
      ≡ length t.made % 2 ^ 32

record IsFlushed (conf : Conf) (t t' : Sender) : Type 0 where
  room : length t'.batch < conf.capacity
  kept :
      (length t'.transmitted + t'.shard.state.packets_failed + length t'.batch) % 2 ^ 32
      ≡ length t'.made % 2 ^ 32
  made : t'.made ≡ t.made
  packets_sent : t'.shard.state.packets_sent ≡ t.shard.state.packets_sent

flush_full-IsFlushed :
    (conf : Conf) (world : World) (t : Sender)
    → 0 < conf.capacity
    → IsWorld world
    → IsFull conf t
    → IsFlushed conf t (flush_full conf world t)
unfolding flush_full transmit
flush_full-IsFlushed conf world t one law f = elim (Bool-cases (length t.batch == conf.capacity)) [
  | inr e ↦
      rw (flush_full, e)
        (record {
          room = ground (arith, f.filled, e);
          kept = f.kept;
          made = refl;
          packets_sent = refl;
        })
  | inl e ↦
      let rc = send_batch (world.sendmmsg t.batches) (conf.retries + 1) t.batch in
      let le : rc ≤ length t.batch =
        send_batch-le (world.sendmmsg t.batches) (conf.retries + 1) t.batch (law t.batches) in
      let len : length (t.transmitted ++ take rc t.batch) ≡ length t.transmitted + rc =
        length-append t.transmitted (take rc t.batch)
        ∙ ap (λ n. length t.transmitted + n) (length-take rc t.batch le) in
      rw (flush_full, e)
        (record {
          room = one;
          kept = omega (arith, len, le, f.kept);
          made = refl;
          packets_sent = refl;
        })
]

-- One more probe in a batch that has room, and what sending it keeps.
send_stream-IsAccounted :
    (conf : Conf) (world : World) (i : ℕ) (t : Sender)
    → 0 < conf.capacity
    → IsWorld world
    → IsAccounted conf t
    → IsAccounted conf (send_stream conf world i t)
unfolding send_stream
send_stream-IsAccounted conf world i t one law a =
    let probe : Probe = record {
      src_ip = get_src_ip conf t.current_ip i;
      ip = t.current_ip;
      port = t.current_port;
      stream = i;
    } in
    let added : Sender = record t { batch = t.batch ++ probe ∷ []; made = t.made ++ probe ∷ [] } in
    let len_batch : length added.batch ≡ length t.batch + 1 = length-append t.batch (probe ∷ []) in
    let len_made : length added.made ≡ length t.made + 1 = length-append t.made (probe ∷ []) in
    let filled : IsFull conf added = record {
      filled = omega (arith, len_batch, a.room);
      kept = omega (arith, len_batch, len_made, a.kept);
    } in
    let done = flush_full-IsFlushed conf world added one law filled in
    let made : length (flush_full conf world added).made ≡ length t.made + 1 =
      ap length done.made ∙ len_made in
    record {
      room = done.room;
      sent = omega (arith, done.packets_sent, made, a.sent);
      kept = done.kept;
    }

send_streams-IsAccounted :
    (conf : Conf) (world : World) (left i : ℕ) (t : Sender)
    → 0 < conf.capacity
    → IsWorld world
    → IsAccounted conf t
    → IsAccounted conf (send_streams conf world left i t)
unfolding send_streams
send_streams-IsAccounted conf world zero i t one law a = a
send_streams-IsAccounted conf world (suc left) i t one law a =
    send_streams-IsAccounted conf world left (i + 1) (send_stream conf world i t) one law
      (send_stream-IsAccounted conf world i t one law a)

pub send_target-IsAccounted :
    (conf : Conf) (world : World) (t : Sender)
    → 0 < conf.capacity
    → IsWorld world
    → IsAccounted conf t
    → IsAccounted conf (send_target conf world t)
unfolding send_target
send_target-IsAccounted conf world t one law a =
    let b = send_streams-IsAccounted conf world conf.packet_streams 0 t one law a in
    record { room = b.room; sent = b.sent; kept = b.kept }

pub Moved-IsAccounted :
    (conf : Conf) (t t' : Sender) → Moved t t' → IsAccounted conf t → IsAccounted conf t'
Moved-IsAccounted conf t t' m a = record {
  room = rw m.batch a.room;
  sent = rw (m.made, m.state) a.sent;
  kept = rw (m.made, m.state, m.batch, m.transmitted) a.kept;
}
