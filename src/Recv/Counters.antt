-- ===== src/Recv/Counters.antt =====
-- src/recv.c: what one call of `handle_packet` does to the state, and that the counters agree.
use zmap_embedded_ip.Base.{
  ◌≡◌, refl, sym, ◌∙◌, ◌⊎◌, inl, inr, Bool, true, Option, none, some, Option-cases,
}
use mathlib.Core.Option.{some-injective}
use zmap_embedded_ip.Fieldset.{Fieldset}
use zmap_embedded_ip.Recv.{
  Cache, Conf, State, Captured, Answer, Verdict, too_short, invalid, valid, judge, check_repeat,
  record_answer, is_success, is_app_success, output_of, finish, handle_answer, handle_packet, inc,
}

-- How an answer was handled.
pub record Handled (C : Cache) (conf : Conf) (st : State C) (a : Answer) (st' : State C)
    : Type 0 where
  pub fs : Fieldset
  pub success : Bool
  pub app : Bool
  pub out : Option Fieldset
  pub kept : record_answer conf a (check_repeat C conf st.seen st.ch a).0 ≡ some fs
  pub won : is_success conf fs ≡ some success
  pub after :
      st'
      ≡ finish C conf st a
          (check_repeat C conf st.seen st.ch a).0
          (check_repeat C conf st.seen st.ch a).1
          success
          app
          out

pub handle_answer-Handled :
    (C : Cache) (conf : Conf) (st st' : State C) (a : Answer)
    → handle_answer C conf st a ≡ some st'
    → Handled C conf st a st'
unfolding handle_answer
handle_answer-Handled C conf st st' a h =
    let rep = (check_repeat C conf st.seen st.ch a).0 in
    let ch' = (check_repeat C conf st.seen st.ch a).1 in
    elim (Option-cases (record_answer conf a rep)) [
      | inl e ↦ let bad : handle_answer C conf st a ≡ none = rw (handle_answer, e) refl in cc
      | inr (fs, e₁) ↦ elim (Option-cases (is_success conf fs)) [
        | inl e ↦ let bad : handle_answer C conf st a ≡ none = rw (handle_answer, e₁, e) refl in cc
        | inr (success, e₂) ↦ elim (Option-cases (is_app_success conf fs)) [
          | inl e ↦
              let bad : handle_answer C conf st a ≡ none = rw (handle_answer, e₁, e₂, e) refl in cc
          | inr (app, e₃) ↦ elim (Option-cases (output_of conf fs rep success)) [
            | inl e ↦
                let bad : handle_answer C conf st a ≡ none =
                  rw (handle_answer, e₁, e₂, e₃, e) refl in
                cc
            | inr (out, e₄) ↦
                let good : handle_answer C conf st a
                    ≡ some (finish C conf st a rep ch' success app out) =
                  rw (handle_answer, e₁, e₂, e₃, e₄) refl in
                record {
                  fs = fs;
                  success = success;
                  app = app;
                  out = out;
                  kept = e₁;
                  won = e₂;
                  after =
                      some-injective st' (finish C conf st a rep ch' success app out)
                        (sym h ∙ good);
                }
          ]
        ]
      ]
    ]

pub Verdict-cases :
    (v : Verdict) → (v ≡ too_short) ⊎ ((v ≡ invalid) ⊎ ((a : Answer) × (v ≡ valid a)))
Verdict-cases too_short = inl refl
Verdict-cases invalid = inr (inl refl)
Verdict-cases (valid a) = inr (inr (a, refl))

-- What a packet does to the state: nothing, one more in `validation_failed`, or what an answer does.
pub data Step (C : Cache) (conf : Conf) (st : State C) (p : Captured) (st' : State C) : Type 0 where
  ignored : judge conf p ≡ too_short → st' ≡ st → Step C conf st p st'
  refused :
      judge conf p ≡ invalid
      → st' ≡ record st {
        zrecv = record st.zrecv { validation_failed = inc st.zrecv.validation_failed true };
      }
      → Step C conf st p st'
  answered : (a : Answer) → judge conf p ≡ valid a → Handled C conf st a st' → Step C conf st p st'

pub handle_packet-Step :
    (C : Cache) (conf : Conf) (st st' : State C) (p : Captured)
    → handle_packet C conf st p ≡ some st'
    → Step C conf st p st'
unfolding handle_packet
handle_packet-Step C conf st st' p h = elim (Verdict-cases (judge conf p)) [
  | inl e ↦
      let run : handle_packet C conf st p ≡ some st = rw (handle_packet, e) refl in
      ignored e (some-injective st' st (sym h ∙ run))
  | inr (inl e) ↦
      let next : State C = record st {
        zrecv = record st.zrecv { validation_failed = inc st.zrecv.validation_failed true };
      } in
      let run : handle_packet C conf st p ≡ some next = rw (handle_packet, e) refl in
      refused e (some-injective st' next (sym h ∙ run))
  | inr (inr (a, e)) ↦
      let run : handle_packet C conf st p ≡ handle_answer C conf st a =
        rw (handle_packet, e) refl in
      answered a e (handle_answer-Handled C conf st st' a (sym run ∙ h))
]
