-- ===== src/Send/First.antt =====
-- src/send.c: the first probes of a thread do not go to its first target.
use zmap_embedded_ip.Base.{
  ℕ, zero, suc, ◌≡◌, refl, sym, ap, ◌∙◌, inl, inr, true, false, none, some, List, [], ◌++◌,
  Option-cases, Bool-clash,
}
use mathlib.Core.Option.{some-injective}
use mathlib.Core.List.{append-nil}
use zmap_embedded_ip.Shard.{Shard}
use zmap_embedded_ip.Send.{
  Probe, Conf, World, Sender, send_target, is_finished, send_loop, sender_init, send_start, cleanup,
  transmit, send_run,
}
use zmap_embedded_ip.Send.Moves.{next_target-Moved}
use zmap_embedded_ip.Send.Limits.{send_loop-made}
use zmap_embedded_ip.Send.Rounds.{
  ends, last, goes_on, probes_for, send_loop-none, send_loop-Turn, send_target-made,
}

sent_first :
    (conf : Conf) (world : World) (fuel : ℕ) (s : Shard) (t' : Sender)
    → is_finished world 0 (sender_init conf s) ≡ false
    → send_loop conf world fuel 0 (sender_init conf s) ≡ some t'
    → (more : List Probe) × (t'.made ≡ probes_for conf 0 0 0 conf.packet_streams ++ more)
unfolding sender_init
sent_first conf world zero s t' go h = send_loop-none conf world 0 (sender_init conf s) t' h
sent_first conf world (suc fuel) s t' go h =
    let t = sender_init conf s in
    elim (send_loop-Turn conf world fuel 0 t t' h) [
      | ends f e ↦ Bool-clash f go
      | last e g ↦ (
        [],
        (next_target-Moved conf (send_target conf world t) t' true g).made
            ∙ send_target-made conf world t
            ∙ sym (append-nil _),
      )
      | goes_on u e g run ↦
          let (more, later) = send_loop-made conf world fuel 1 u t' run in
          let here =
            (next_target-Moved conf (send_target conf world t) u false g).made
            ∙ send_target-made conf world t in
          (more, later ∙ ap (λ l. l ++ more) here)
    ]

-- Without a list of addresses, and unless the thread ends at once, its first probes go to address 0
-- and port 0, whatever the first target of its shard is.
pub send_run-first :
    (conf : Conf) (world : World) (fuel : ℕ) (s : Shard) (t' : Sender)
    → conf.list_of_ips ≡ none
    → is_finished world 0 (sender_init conf s) ≡ false
    → send_run conf world fuel s ≡ some t'
    → (more : List Probe) × (t'.made ≡ probes_for conf 0 0 0 conf.packet_streams ++ more)
unfolding send_run send_start cleanup transmit
send_run-first conf world fuel s t' unlisted go h =
    elim (Option-cases (send_loop conf world fuel 0 (sender_init conf s))) [
      | inl e ↦
          let run : send_run conf world fuel s ≡ none =
            rw (send_run, send_start, unlisted, e) refl in
          cc
      | inr (t, e) ↦
          let run : send_run conf world fuel s ≡ some (cleanup conf world t) =
            rw (send_run, send_start, unlisted, e) refl in
          let same : t' ≡ cleanup conf world t =
            some-injective t' (cleanup conf world t) (sym h ∙ run) in
          let (more, made) = sent_first conf world fuel s t go e in
          (more, ap (λ (x : Sender). x.made) same ∙ made)
    ]
