-- ===== src/Send/Limits.antt =====
-- src/send.c: how many targets a thread scans, and which probes it makes for them.
use zmap_embedded_ip.Base.{
  ℕ, zero, suc, ◌+◌, ◌^◌, ◌≤◌, ◌<◌, ◌≡◌, sym, ap, ◌∙◌, true, false, some, List, [], ◌++◌, arith,
}
use mathlib.Core.List.{append_assoc, append-nil}
use zmap_embedded_ip.Shard.{ShardState}
use zmap_embedded_ip.Send.Moves.{Moved, next_target-Moved}
use zmap_embedded_ip.Send.Account.{IsAccounted, IsWorld, send_target-IsAccounted, Moved-IsAccounted}
use zmap_embedded_ip.Send.{Probe, Conf, World, Sender, send_target, is_finished, send_loop}
use zmap_embedded_ip.Send.Rounds.{
  ends, last, goes_on, send_loop-none, send_loop-Turn, send_target-made, send_target-scanned,
}

-- For a batch of at least one packet and a network that reports no more packets than it is given,
-- however many rounds the loop of `send_run` makes: the batch never reaches its capacity between
-- probes, `packets_sent` is the number of the probes made, and modulo 2^32 these are the packets
-- transmitted, those in `packets_failed` and those in the batch.
pub send_loop-IsAccounted :
    (conf : Conf) (world : World) (fuel round : ℕ) (t t' : Sender)
    → 0 < conf.capacity
    → IsWorld world
    → IsAccounted conf t
    → send_loop conf world fuel round t ≡ some t'
    → IsAccounted conf t'
send_loop-IsAccounted conf world zero round t t' one law a h =
    send_loop-none conf world round t t' h
send_loop-IsAccounted conf world (suc fuel) round t t' one law a h =
    let b = send_target-IsAccounted conf world t one law a in
    elim (send_loop-Turn conf world fuel round t t' h) [
      | ends f e ↦ rw e a
      | last e g ↦
          Moved-IsAccounted conf _ t' (next_target-Moved conf (send_target conf world t) t' true g)
            b
      | goes_on u e g run ↦
          let c =
            Moved-IsAccounted conf _ u (next_target-Moved conf (send_target conf world t) u false g)
              b in
          send_loop-IsAccounted conf world fuel (round + 1) u t' one law c run
    ]

-- Whether a limit is kept.
pub record IsLimited (max : ℕ) (t : Sender) : Type 0 where
  pub limit : t.shard.state.max_targets ≡ max
  pub within : t.shard.state.targets_scanned ≤ max

below_limit :
    (world : World) (round : ℕ) (max : ℕ) (t : Sender)
    → 0 < max
    → t.shard.state.max_targets ≡ max
    → is_finished world round t ≡ false
    → t.shard.state.targets_scanned < max
unfolding is_finished
below_limit world round max t pos limit h = ground (arith, h, limit)

scanned-IsLimited :
    (conf : Conf) (world : World) (max : ℕ) (t u : Sender)
    → max < 2 ^ 64
    → t.shard.state.targets_scanned < max
    → t.shard.state.max_targets ≡ max
    → Moved (send_target conf world t) u
    → IsLimited max u
scanned-IsLimited conf world max t u small below limit m =
    let (scanned, kept) = send_target-scanned conf world t in
    record {
      limit = ap (λ (s : ShardState). s.max_targets) m.state ∙ kept ∙ limit;
      within = omega (arith, ap (λ (s : ShardState). s.targets_scanned) m.state, scanned);
    }

-- A thread with a limit on its targets never scans more of them, however long it runs.
pub send_loop-IsLimited :
    (conf : Conf) (world : World) (fuel round max : ℕ) (t t' : Sender)
    → 0 < max
    → max < 2 ^ 64
    → IsLimited max t
    → send_loop conf world fuel round t ≡ some t'
    → IsLimited max t'
send_loop-IsLimited conf world zero round max t t' pos small k h =
    send_loop-none conf world round t t' h
send_loop-IsLimited conf world (suc fuel) round max t t' pos small k h =
    elim (send_loop-Turn conf world fuel round t t' h) [
      | ends f e ↦ rw e k
      | last e g ↦
          scanned-IsLimited conf world max t t' small (below_limit world round max t pos k.limit e)
            k.limit (next_target-Moved conf (send_target conf world t) t' true g)
      | goes_on u e g run ↦
          send_loop-IsLimited conf world fuel (round + 1) max u t' pos small
            (scanned-IsLimited conf world max t u small
              (below_limit world round max t pos k.limit e) k.limit
              (next_target-Moved conf (send_target conf world t) u false g))
            run
    ]

-- The probes made later come behind.
pub send_loop-made :
    (conf : Conf) (world : World) (fuel round : ℕ) (t t' : Sender)
    → send_loop conf world fuel round t ≡ some t'
    → (more : List Probe) × (t'.made ≡ t.made ++ more)
send_loop-made conf world zero round t t' h = send_loop-none conf world round t t' h
send_loop-made conf world (suc fuel) round t t' h =
    elim (send_loop-Turn conf world fuel round t t' h) [
      | ends f e ↦ ([], rw e (sym (append-nil t.made)))
      | last e g ↦ (
        _,
        (next_target-Moved conf (send_target conf world t) t' true g).made
            ∙ send_target-made conf world t,
      )
      | goes_on u e g run ↦
          let (more, later) = send_loop-made conf world fuel (round + 1) u t' run in
          let here =
            (next_target-Moved conf (send_target conf world t) u false g).made
            ∙ send_target-made conf world t in
          (_, later ∙ ap (λ l. l ++ more) here ∙ append_assoc t.made _ more)
    ]
