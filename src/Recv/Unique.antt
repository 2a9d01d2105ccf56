-- ===== src/Recv/Unique.antt =====
-- src/recv.c, lib/pbm.c: with full deduplication the receiver counts each successful address once.
use zmap_embedded_ip.Base.{
  ℕ, ◌+◌, ◌^◌, ◌<◌, ◌≡◌, refl, sym, ◌∙◌, inl, inr, Bool, true, false, ◌&&◌, ◌||◌, not, Option, none,
  some, List, [], ◌∷◌, length, Bool-cases, ◌==◌, ==_iff, if◌then◌else◌, to_nat, u64, arith,
}
use zmap_embedded_ip.Fieldset.{Fieldset}
use zmap_embedded_ip.Ports.{pbm_init, pbm_check, pbm_set}
use zmap_embedded_ip.Ports.Bitmap.{
  IsPaged, pbm_init-IsPaged, pbm_check-init, pbm_set-IsPaged, pbm_check-set,
}
use zmap_embedded_ip.Recv.{
  Cache, Conf, full, zrecv_init, State, Captured, Answer, too_short, invalid, valid, judge,
  check_repeat, record_answer, is_success, count_answer, remember, finish, handle_packet, inc,
}
use zmap_embedded_ip.Recv.Counters.{Handled, ignored, refused, answered, handle_packet-Step}

-- The addresses of successful answers, in host order, the newest first.
unfoldable pub success_address : Option Bool → ℕ → List ℕ → List ℕ
success_address (some true) a hits = a ∷ hits
success_address (some false) a hits = hits
success_address none a hits = hits

-- Whether an answer is a success, from its record.
unfoldable pub succeeds : (C : Cache) → Conf → State C → Answer → Option Bool
succeeds C conf st a = elim (record_answer conf a (check_repeat C conf st.seen st.ch a).0) [
  | none ↦ none
  | some fs ↦ is_success conf fs
]

unfoldable pub log_success : (C : Cache) → Conf → State C → Captured → List ℕ → List ℕ
unfolding succeeds success_address
log_success C conf st p hits = elim (judge conf p) [
  | too_short ↦ hits
  | invalid ↦ hits
  | valid a ↦ success_address (succeeds C conf st a) (conf.order.ntohl a.src_ip) hits
]

-- The state of a receiver that starts.
pub record IsStart (C : Cache) (st : State C) : Type 0 where
  pub counters : st.zrecv ≡ zrecv_init
  pub seen : st.seen ≡ pbm_init

-- The states that captured packets lead to from a start, with the addresses that succeeded.
pub data Receives (C : Cache) (conf : Conf) : State C → List ℕ → Type 0 where
  start : {st : State C} → IsStart C st → Receives C conf st []
  packet :
      {st st' : State C} {hits : List ℕ} (p : Captured)
      → Receives C conf st hits
      → handle_packet C conf st p ≡ some st'
      → Receives C conf st' (log_success C conf st p hits)

unfoldable pub member : ℕ → List ℕ → Bool
member a [] = false
member a (b ∷ hits) = a == b || member a hits

-- The number of different addresses of a list.
unfoldable pub distinct : List ℕ → ℕ
unfolding member
distinct [] = 0
distinct (a ∷ hits) = to_nat (not (member a hits)) + distinct hits

-- `seen` holds the addresses that succeeded, and the counters count them.
pub record IsCounted (C : Cache) (st : State C) (hits : List ℕ) : Type 0 where
  pub paged : IsPaged st.seen
  pub holds : (a : ℕ) → pbm_check st.seen a ≡ member a hits
  pub total : st.zrecv.success_total ≡ u64 (length hits)
  pub unique : st.zrecv.success_unique ≡ u64 (distinct hits)

start-IsCounted : (C : Cache) (st : State C) → IsStart C st → IsCounted C st []
unfolding member distinct
start-IsCounted C st s = record {
  paged = rw s.seen pbm_init-IsPaged;
  holds = λ a. rw s.seen (pbm_check-init a);
  total = rw s.counters refl;
  unique = rw s.counters refl;
}

is_repeat-full :
    (C : Cache) (conf : Conf) (st : State C) (a : Answer)
    → conf.dedup_method ≡ full
    → (check_repeat C conf st.seen st.ch a).0 ≡ pbm_check st.seen (conf.order.ntohl a.src_ip)
unfolding check_repeat
is_repeat-full C conf st a method = rw method refl

succeeds-Handled :
    (C : Cache) (conf : Conf) (st st' : State C) (a : Answer) (h : Handled C conf st a st')
    → succeeds C conf st a ≡ some h.success
unfolding succeeds
succeeds-Handled C conf st st' a h = rw (succeeds, h.kept) h.won

finish-seen :
    (C : Cache) (conf : Conf) (st : State C) (a : Answer) (rep success app : Bool) (ch' : C.State)
    (out : Option Fieldset)
    → conf.dedup_method ≡ full
    → (finish C conf st a rep ch' success app out).seen
      ≡ (if success && not rep then pbm_set st.seen (conf.order.ntohl a.src_ip) else st.seen)
unfolding finish remember
finish-seen C conf st a rep success app ch' out method = rw method refl

finish-counts :
    (C : Cache) (conf : Conf) (st : State C) (a : Answer) (rep success app : Bool) (ch' : C.State)
    (out : Option Fieldset)
    → let r = (finish C conf st a rep ch' success app out).zrecv in
      (r.success_total ≡ inc st.zrecv.success_total success)
      × (r.success_unique ≡ inc st.zrecv.success_unique (success && not rep))
unfolding finish count_answer
finish-counts C conf st a rep success app ch' out = (refl, refl)

same-member :
    (w a : ℕ) (hits : List ℕ) → (w == a) ≡ true → member a hits ≡ true → member w hits ≡ true
same-member w a hits e h = rw ((==_iff w a).0 e) h

-- The counters and the bitmap after an answer from `a`, by whether it succeeds and is new.
next-IsCounted :
    (C : Cache) (st st' : State C) (a : ℕ) (hits : List ℕ) (success rep : Bool)
    → a < 2 ^ 32
    → IsCounted C st hits
    → rep ≡ member a hits
    → st'.seen ≡ (if success && not rep then pbm_set st.seen a else st.seen)
    → st'.zrecv.success_total ≡ inc st.zrecv.success_total success
    → st'.zrecv.success_unique ≡ inc st.zrecv.success_unique (success && not rep)
    → IsCounted C st' (success_address (some success) a hits)
unfolding success_address member distinct
next-IsCounted C st st' a hits false rep small c known seen total unique = record {
  paged = rw seen c.paged;
  holds = λ w. rw seen (c.holds w);
  total = omega (arith, total, c.total);
  unique = omega (arith, unique, c.unique);
}
next-IsCounted C st st' a hits true true small c known seen total unique = record {
  paged = rw seen c.paged;
  holds = λ w. rw seen (elim (Bool-cases (w == a)) [
    | inl e ↦ rw e (c.holds w ∙ same-member w a hits e (sym known))
    | inr e ↦ rw e (c.holds w)
  ]);
  total = omega (arith, total, c.total);
  unique = rw (← known) (omega (arith, unique, c.unique));
}
next-IsCounted C st st' a hits true false small c known seen total unique = record {
  paged = rw seen (pbm_set-IsPaged st.seen a small c.paged);
  holds = λ w. rw (seen, pbm_check-set st.seen a w small c.paged, c.holds w) refl;
  total = omega (arith, total, c.total);
  unique = rw (← known) (omega (arith, unique, c.unique));
}

answer-IsCounted :
    (C : Cache) (conf : Conf) (st st' : State C) (a : Answer) (hits : List ℕ)
    → conf.dedup_method ≡ full
    → conf.order.ntohl a.src_ip < 2 ^ 32
    → Handled C conf st a st'
    → IsCounted C st hits
    → IsCounted C st' (success_address (succeeds C conf st a) (conf.order.ntohl a.src_ip) hits)
answer-IsCounted C conf st st' a hits method small h c =
    let addr = conf.order.ntohl a.src_ip in
    let rep = (check_repeat C conf st.seen st.ch a).0 in
    let ch' = (check_repeat C conf st.seen st.ch a).1 in
    let last = finish C conf st a rep ch' h.success h.app h.out in
    let known : rep ≡ member addr hits = is_repeat-full C conf st a method ∙ c.holds addr in
    let (total, unique) = finish-counts C conf st a rep h.success h.app ch' h.out in
    let seen = finish-seen C conf st a rep h.success h.app ch' h.out method in
    let next : IsCounted C last (success_address (some h.success) addr hits) =
      next-IsCounted C st last addr hits h.success rep small c known seen total unique in
    rw (succeeds-Handled C conf st st' a h, h.after) next

-- After any run of captured packets from a start with full deduplication, `success_unique` is the
-- number of different addresses that answered with success, `success_total` that of all such answers
-- (both modulo 2^64), and `seen` holds exactly these addresses.
pub Receives-IsCounted :
    (C : Cache) (conf : Conf) (st : State C) (hits : List ℕ)
    → conf.dedup_method ≡ full
    → ((ip : ℕ) → conf.order.ntohl ip < 2 ^ 32)
    → Receives C conf st hits
    → IsCounted C st hits
unfolding log_success handle_packet
Receives-IsCounted C conf st hits method small (start s) = start-IsCounted C st s
Receives-IsCounted C conf st' hits method small (packet {st = st} {hits = hits'} p run h) =
    let before = Receives-IsCounted C conf st hits' method small run in
    elim (handle_packet-Step C conf st st' p h) [
      | ignored e same ↦ rw (log_success, e, same) before
      | refused e same ↦
          rw (log_success, e, same)
            (record {
              paged = before.paged;
              holds = before.holds;
              total = before.total;
              unique = before.unique;
            })
      | answered a e done ↦
          rw (log_success, e)
            (answer-IsCounted C conf st st' a hits' method (small a.src_ip) done before)
    ]
