-- ===== src/Send/Rounds.antt =====
-- src/send.c: a round of the loop of `send_run`, and the probes that it makes.
use zmap_embedded_ip.Base.{
  ℕ, zero, suc, ◌+◌, ◌≡◌, refl, sym, ap, ◌∙◌, inl, inr, true, false, none, some, List, [], ◌∷◌,
  ◌++◌, length, Bool-cases, Option-cases, ◌==◌, u64,
}
use mathlib.Core.Option.{some-injective}
use mathlib.Core.List.{append_assoc, append-nil}
use zmap_embedded_ip.Send.{
  Probe, Conf, World, Sender, get_src_ip, flush_full, send_stream, send_streams, send_target,
  is_finished, next_target, send_loop, transmit,
}

-- The probes for one target: a source address for each stream.
unfoldable pub probes_for : Conf → ℕ → ℕ → ℕ → ℕ → List Probe
unfolding get_src_ip
probes_for conf ip port i zero = []
probes_for conf ip port i (suc left) =
    record { src_ip = get_src_ip conf ip i; ip = ip; port = port; stream = i }
    ∷ probes_for conf ip port (i + 1) left

-- What sending does not change, and the probes it makes.
record Sends (t t' : Sender) (probes : List Probe) : Type 0 where
  ip : t'.current_ip ≡ t.current_ip
  port : t'.current_port ≡ t.current_port
  made : t'.made ≡ t.made ++ probes
  scanned : t'.shard.state.targets_scanned ≡ t.shard.state.targets_scanned
  max_targets : t'.shard.state.max_targets ≡ t.shard.state.max_targets

flush_full-Sends : (conf : Conf) (world : World) (t : Sender) → Sends t (flush_full conf world t) []
unfolding flush_full transmit
flush_full-Sends conf world t = elim (Bool-cases (length t.batch == conf.capacity)) [
  | inl e ↦
      rw (flush_full, e)
        (record {
          ip = refl;
          port = refl;
          made = sym (append-nil t.made);
          scanned = refl;
          max_targets = refl;
        })
  | inr e ↦
      rw (flush_full, e)
        (record {
          ip = refl;
          port = refl;
          made = sym (append-nil t.made);
          scanned = refl;
          max_targets = refl;
        })
]

Sends-trans :
    {t u v : Sender} {xs ys : List Probe} → Sends t u xs → Sends u v ys → Sends t v (xs ++ ys)
Sends-trans {t = t} {u = u} {v = v} {xs = xs} {ys = ys} m n = record {
  ip = n.ip ∙ m.ip;
  port = n.port ∙ m.port;
  made = n.made ∙ ap (λ l. l ++ ys) m.made ∙ append_assoc t.made xs ys;
  scanned = n.scanned ∙ m.scanned;
  max_targets = n.max_targets ∙ m.max_targets;
}

send_stream-Sends :
    (conf : Conf) (world : World) (i : ℕ) (t : Sender)
    → Sends t (send_stream conf world i t) (probes_for conf t.current_ip t.current_port i 1)
unfolding send_stream probes_for
send_stream-Sends conf world i t =
    let probe : Probe = record {
      src_ip = get_src_ip conf t.current_ip i;
      ip = t.current_ip;
      port = t.current_port;
      stream = i;
    } in
    let added : Sender = record t { batch = t.batch ++ probe ∷ []; made = t.made ++ probe ∷ [] } in
    let f = flush_full-Sends conf world added in
    record {
      ip = f.ip;
      port = f.port;
      made = f.made ∙ append-nil (t.made ++ probe ∷ []);
      scanned = f.scanned;
      max_targets = f.max_targets;
    }

send_streams-Sends :
    (conf : Conf) (world : World) (left i : ℕ) (t : Sender)
    → Sends t
        (send_streams conf world left i t)
        (probes_for conf t.current_ip t.current_port i left)
unfolding send_streams probes_for
send_streams-Sends conf world zero i t = record {
  ip = refl;
  port = refl;
  made = sym (append-nil t.made);
  scanned = refl;
  max_targets = refl;
}
send_streams-Sends conf world (suc left) i t =
    let first = send_stream-Sends conf world i t in
    let rest = send_streams-Sends conf world left (i + 1) (send_stream conf world i t) in
    let same : probes_for conf (send_stream conf world i t).current_ip
          (send_stream conf world i t).current_port (i + 1) left
        ≡ probes_for conf t.current_ip t.current_port (i + 1) left =
      rw (first.ip, first.port) refl in
    Sends-trans first (rw (← same) rest)

pub send_target-made :
    (conf : Conf) (world : World) (t : Sender)
    → (send_target conf world t).made
      ≡ t.made ++ probes_for conf t.current_ip t.current_port 0 conf.packet_streams
unfolding send_target
send_target-made conf world t = (send_streams-Sends conf world conf.packet_streams 0 t).made

pub send_target-scanned :
    (conf : Conf) (world : World) (t : Sender)
    → ((send_target conf world t).shard.state.targets_scanned
        ≡ u64 (t.shard.state.targets_scanned + 1))
      × ((send_target conf world t).shard.state.max_targets ≡ t.shard.state.max_targets)
unfolding send_target
send_target-scanned conf world t =
    let s = send_streams-Sends conf world conf.packet_streams 0 t in
    (ap (λ n. u64 (n + 1)) s.scanned, s.max_targets)

-- One round of the loop that goes on, or the end.
pub data Turn (conf : Conf) (world : World) (fuel round : ℕ) (t t' : Sender) : Type 0 where
  ends : is_finished world round t ≡ true → t' ≡ t → Turn conf world fuel round t t'
  last :
      is_finished world round t ≡ false
      → next_target conf (send_target conf world t) ≡ some (true, t')
      → Turn conf world fuel round t t'
  goes_on :
      (u : Sender)
      → is_finished world round t ≡ false
      → next_target conf (send_target conf world t) ≡ some (false, u)
      → send_loop conf world fuel (round + 1) u ≡ some t'
      → Turn conf world fuel round t t'

some_sender : {t t' : Sender} → some t ≡ some t' → t ≡ t'
some_sender {t = t} {t' = t'} h = some-injective t t' h

pub send_loop-Turn :
    (conf : Conf) (world : World) (fuel round : ℕ) (t t' : Sender)
    → send_loop conf world (suc fuel) round t ≡ some t'
    → Turn conf world fuel round t t'
unfolding send_loop
send_loop-Turn conf world fuel round t t' h = elim (Bool-cases (is_finished world round t)) [
  | inl e ↦
      let run : send_loop conf world (suc fuel) round t ≡ some t = rw (send_loop, e) refl in
      ends e (some_sender (sym h ∙ run))
  | inr e ↦ elim (Option-cases (next_target conf (send_target conf world t))) [
    | inl g ↦
        let run : send_loop conf world (suc fuel) round t ≡ none = rw (send_loop, e, g) refl in cc
    | inr ((true, u), g) ↦
        let run : send_loop conf world (suc fuel) round t ≡ some u = rw (send_loop, e, g) refl in
        last e (rw (some_sender (sym h ∙ run)) g)
    | inr ((false, u), g) ↦
        let run : send_loop conf world (suc fuel) round t
            ≡ send_loop conf world fuel (round + 1) u =
          rw (send_loop, e, g) refl in
        goes_on u e g (sym run ∙ h)
  ]
]

pub send_loop-none :
    {A : Type 0} (conf : Conf) (world : World) (round : ℕ) (t t' : Sender)
    → send_loop conf world zero round t ≡ some t'
    → A
unfolding send_loop
send_loop-none conf world round t t' h = cc
