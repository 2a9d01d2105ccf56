-- ===== src/Send/Moves.antt =====
-- src/send.c: moving on to another target changes no counter and no packet.
use zmap_embedded_ip.Base.{
  ℕ, zero, suc, ◌+◌, ◌≡◌, refl, sym, ap, ◌∙◌, inl, inr, Bool, true, false, Option, none, some, List,
  Bool-cases, Option-cases, ◌==◌, u64,
}
use mathlib.Core.Option.{some-injective}
use zmap_embedded_ip.Shard.{
  Shard, Scan, Target, is_target, shard_get_next_elem, next_loop, shard_get_next_target, target_of,
  done_target, shard_done,
}
use zmap_embedded_ip.Ports.{pbm_check}
use zmap_embedded_ip.Send.{Conf, Sender, skip_unlisted, next_target}

found_state :
    {a b : Target} {s s' : Shard}
    → ◌≡◌ {A = Option (Target × Shard)} (some (a, s)) (some (b, s'))
    → s.state ≡ s'.state
found_state {a = a} {b = b} {s = s} {s' = s'} h =
    ap (λ (r : Target × Shard). r.1.state) (some-injective (a, s) (b, s') h)

-- Looking for a target leaves the counters of the shard as they are.
next_loop-state :
    (scan : Scan) (fuel : ℕ) (s s' : Shard) (next : Target)
    → next_loop scan fuel s ≡ some (next, s')
    → s'.state ≡ s.state
unfolding next_loop shard_get_next_elem
next_loop-state scan zero s s' next h = cc
next_loop-state scan (suc fuel) s s' next h =
    let s₁ = shard_get_next_elem s in
    elim (Bool-cases (s₁.current == s.params.last)) [
      | inl e ↦
          let run : next_loop scan (suc fuel) s
              ≡ some (
                done_target,
                record s₁ { current = shard_done; iterations = u64 (s₁.iterations + 1) },
              ) =
            rw (next_loop, e) refl in
          found_state (sym h ∙ run)
      | inr e ↦ elim (Bool-cases (is_target scan s.bits_for_port s₁.current)) [
        | inl g ↦
            let run : next_loop scan (suc fuel) s
                ≡ some (
                  target_of scan s.bits_for_port s₁.current,
                  record s₁ { iterations = u64 (s₁.iterations + 1) },
                ) =
              rw (next_loop, e, g) refl in
            found_state (sym h ∙ run)
        | inr g ↦
            let run : next_loop scan (suc fuel) s ≡ next_loop scan fuel s₁ =
              rw (next_loop, e, g) refl in
            next_loop-state scan fuel s₁ s' next (sym run ∙ h)
      ]
    ]

shard_get_next_target-state :
    (scan : Scan) (fuel : ℕ) (s s' : Shard) (next : Target)
    → shard_get_next_target scan fuel s ≡ some (next, s')
    → s'.state ≡ s.state
unfolding shard_get_next_target
shard_get_next_target-state scan fuel s s' next h = elim (Bool-cases (s.current == shard_done)) [
  | inl e ↦
      let run : shard_get_next_target scan fuel s ≡ some (done_target, s) =
        rw (shard_get_next_target, e) refl in
      found_state (sym h ∙ run)
  | inr e ↦
      let run : shard_get_next_target scan fuel s ≡ next_loop scan fuel s =
        rw (shard_get_next_target, e) refl in
      next_loop-state scan fuel s s' next (sym run ∙ h)
]

-- What stays when a thread moves on to another target.
pub record Moved (t t' : Sender) : Type 0 where
  pub batch : t'.batch ≡ t.batch
  pub made : t'.made ≡ t.made
  pub transmitted : t'.transmitted ≡ t.transmitted
  pub state : t'.shard.state ≡ t.shard.state

pub Moved-trans : {t u v : Sender} → Moved t u → Moved u v → Moved t v
Moved-trans m n = record {
  batch = n.batch ∙ m.batch;
  made = n.made ∙ m.made;
  transmitted = n.transmitted ∙ m.transmitted;
  state = n.state ∙ m.state;
}

step_Moved :
    (t : Sender) (next : Target) (shard : Shard) (port : ℕ)
    → shard.state ≡ t.shard.state
    → Moved t
        (record t { shard = shard; current = next; current_ip = next.ip; current_port = port })
step_Moved t next shard port h = record { batch = refl; made = refl; transmitted = refl; state = h }

found_sender :
    {a b : Bool} {t t' : Sender}
    → ◌≡◌ {A = Option (Bool × Sender)} (some (a, t)) (some (b, t'))
    → t ≡ t'
found_sender {a = a} {b = b} {t = t} {t' = t'} h =
    ap (λ (r : Bool × Sender). r.1) (some-injective (a, t) (b, t') h)

no-sender : {r : Bool × Sender} {A : Type 0} → ◌≡◌ {A = Option (Bool × Sender)} none (some r) → A
no-sender h = cc

pub skip_unlisted-Moved :
    (conf : Conf) (listed : List (Option (List ℕ))) (fuel : ℕ) (t t' : Sender) (done : Bool)
    → skip_unlisted conf listed fuel t ≡ some (done, t')
    → Moved t t'
unfolding skip_unlisted
skip_unlisted-Moved conf listed zero t t' done h = no-sender h
skip_unlisted-Moved conf listed (suc fuel) t t' done h =
    elim (Bool-cases (pbm_check listed t.current_ip)) [
      | inl e ↦
          let run : skip_unlisted conf listed (suc fuel) t ≡ some (false, t) =
            rw (skip_unlisted, e) refl in
          rw (found_sender (sym h ∙ run))
            (record { batch = refl; made = refl; transmitted = refl; state = refl })
      | inr e ↦ elim (Option-cases (shard_get_next_target conf.scan conf.fuel t.shard)) [
        | inl g ↦
            let run : skip_unlisted conf listed (suc fuel) t ≡ none =
              rw (skip_unlisted, e, g) refl in
            no-sender (sym run ∙ h)
        | inr ((next, shard), g) ↦
            let t₁ : Sender = record t { shard = shard; current = next; current_ip = next.ip } in
            let moved : Moved t t₁ =
              step_Moved t next shard t.current_port
                (shard_get_next_target-state conf.scan conf.fuel t.shard shard next g) in
            elim (Bool-cases (next.status == shard_done)) [
              | inl d ↦
                  let run : skip_unlisted conf listed (suc fuel) t ≡ some (true, t₁) =
                    rw (skip_unlisted, e, g, d) refl in
                  rw (found_sender (sym h ∙ run)) moved
              | inr d ↦
                  let run : skip_unlisted conf listed (suc fuel) t
                      ≡ skip_unlisted conf listed fuel t₁ =
                    rw (skip_unlisted, e, g, d) refl in
                  Moved-trans moved (skip_unlisted-Moved conf listed fuel t₁ t' done (sym run ∙ h))
            ]
      ]
    ]

pub next_target-Moved :
    (conf : Conf) (t t' : Sender) (done : Bool) → next_target conf t ≡ some (done, t') → Moved t t'
unfolding next_target
next_target-Moved conf t t' done h =
    elim (Option-cases (shard_get_next_target conf.scan conf.fuel t.shard)) [
      | inl g ↦
          let run : next_target conf t ≡ none = rw (next_target, g) refl in no-sender (sym run ∙ h)
      | inr ((next, shard), g) ↦
          let t₁ : Sender = record t {
            shard = shard;
            current = next;
            current_ip = next.ip;
            current_port = next.port;
          } in
          let moved : Moved t t₁ =
            step_Moved t next shard next.port
              (shard_get_next_target-state conf.scan conf.fuel t.shard shard next g) in
          elim (Option-cases conf.list_of_ips) [
            | inl e ↦
                let run : next_target conf t ≡ some (false, t₁) = rw (next_target, g, e) refl in
                rw (found_sender (sym h ∙ run)) moved
            | inr (listed, e) ↦ elim (Bool-cases (next.status == shard_done)) [
              | inl d ↦
                  let run : next_target conf t ≡ some (false, t₁) =
                    rw (next_target, g, e, d) refl in
                  rw (found_sender (sym h ∙ run)) moved
              | inr d ↦
                  let run : next_target conf t ≡ skip_unlisted conf listed conf.fuel t₁ =
                    rw (next_target, g, e, d) refl in
                  Moved-trans moved
                    (skip_unlisted-Moved conf listed conf.fuel t₁ t' done (sym run ∙ h))
            ]
          ]
    ]
