-- ===== src/Dns/Loop.antt =====
-- src/probe_modules/module_dns.c: the loop over the records of a section.
use mathlib.Core.Path.{subst}
use zmap_embedded_ip.Base.{
  ℕ, zero, suc, ◌+◌, ◌≤◌, ◌<◌, ◌≡◌, refl, sym, ap, inl, inr, Bool, true, false, Option, some,
  Option-cases, arith,
}
use zmap_embedded_ip.Fieldset.Sanitize.{IsStrings}
use zmap_embedded_ip.Dns.Records.{
  Printers, Cursor, process_response_question, process_response_answer, section_loop,
}
use zmap_embedded_ip.Dns.Sections.{
  IsList, Moves, NoEmptyTxt, process_response_question-Moves, process_response_answer-Moves,
}

-- A section that starts with `n` records at `c` and announces `count` of them: the loop ends, with
-- or without an error, and the data that is left ends where it did. There are `more` new records of
-- at least a byte each, and if there is no error, as many as announced.
pub record IsRead (process : Cursor → Option (Bool × Cursor)) (count n : ℕ) (c : Cursor)
    : Type 0 where
  pub err : Bool
  pub left : Cursor
  pub more : ℕ
  pub runs : section_loop process count false c ≡ some (err, left)
  pub ends : left.at + left.data_len ≡ c.at + c.data_len
  pub moved : c.at + more ≤ left.at
  pub list : IsList left.list (n + more)
  pub announced : more ≤ count
  pub complete : err ≡ false → more ≡ count

pub after_error :
    (process : Cursor → Option (Bool × Cursor)) (count : ℕ) (c : Cursor)
    → section_loop process count true c ≡ some (true, c)
unfolding section_loop
after_error process zero c = refl
after_error process (suc count) c = refl

module _ (process : Cursor → Option (Bool × Cursor)) (end : ℕ)
    (step : (c : Cursor) (n : ℕ)
      → c.at + c.data_len ≡ end
      → IsList c.list n
      → n < 127
      → Moves c n (process c)) where
  -- A record in front of the rest of its section.
  record-IsRead :
      (count n : ℕ) (c c' : Cursor) (err : Bool)
      → process c ≡ some (err, c')
      → IsList c.list n
      → Moves c n (some (err, c'))
      → (err ≡ false → IsRead process count (n + 1) c')
      → IsRead process (suc count) n c
  unfolding section_loop
  record-IsRead count n c c' true e list moves rest = record {
    err = true;
    left = c;
    more = 0;
    runs =
        rw (section_loop, e, after_error process count c')
          (ap (λ (k : Cursor). some (true, k)) (sym moves));
    ends = refl;
    moved = omega arith;
    list = let none_more : n + 0 ≡ n = omega arith in rw none_more list;
    announced = omega arith;
    complete = λ h. cc;
  }
  record-IsRead count n c c' false e list moves rest =
      let r = rest refl in
      record {
        err = r.err;
        left = r.left;
        more = r.more + 1;
        runs = rw (section_loop, e, r.runs) refl;
        ends = omega (arith, r.ends, moves.0);
        moved = omega (arith, r.moved, moves.1);
        list = let total : n + (r.more + 1) ≡ n + 1 + r.more = omega arith in rw total r.list;
        announced = omega (arith, r.announced);
        complete = λ h. omega (arith, r.complete h);
      }

  section_loop-IsRead :
      (count n : ℕ) (c : Cursor)
      → c.at + c.data_len ≡ end
      → IsList c.list n
      → n + count ≤ 127
      → IsRead process count n c
  unfolding section_loop
  section_loop-IsRead zero n c at_end list room = record {
    err = false;
    left = c;
    more = 0;
    runs = refl;
    ends = refl;
    moved = omega arith;
    list = let none_more : n + 0 ≡ n = omega arith in rw none_more list;
    announced = omega arith;
    complete = λ h. refl;
  }
  section_loop-IsRead (suc count) n c at_end list room =
      let moves = step c n at_end list (omega arith) in
      elim (Option-cases (process c)) [
        | inl e ↦ absurd (subst (Moves c n) e moves)
        | inr ((err, c'), e) ↦
            let moves' = subst (Moves c n) e moves in
            record-IsRead count n c c' err e list moves' (λ h.
              let went : Moves c n (some (false, c')) =
                subst (λ b. Moves c n (some (b, c'))) h moves' in
              section_loop-IsRead count (n + 1) c' (omega (arith, went.0)) went.2 (omega arith))
      ]

-- Whatever the bytes of the message are, the questions of a section that announces at most 127 of
-- them are read to the end or to an error: no assertion fails and no fieldset is overfull.
pub questions-IsRead :
    (print : Printers) (ok : IsStrings print.strings) (mem : ℕ → ℕ) (payload_len count : ℕ)
    (c : Cursor)
    → IsList c.list 0
    → count ≤ 127
    → IsRead (process_response_question print mem payload_len) count 0 c
questions-IsRead print ok mem payload_len count c list few =
    section_loop-IsRead (process_response_question print mem payload_len) (c.at + c.data_len)
      (λ k n at_end is_list room.
        process_response_question-Moves print ok mem payload_len k n is_list room)
      count 0 c refl list (omega arith)

-- So are the resource records of a section, if at no offset of its data a TXT record without data
-- stands behind a name.
pub answers-IsRead :
    (print : Printers) (ok : IsStrings print.strings) (mem : ℕ → ℕ) (payload_len count : ℕ)
    (c : Cursor)
    → IsList c.list 0
    → count ≤ 127
    → ((at data_len : ℕ)
        → at + data_len ≡ c.at + c.data_len
        → NoEmptyTxt print ok mem payload_len at data_len)
    → IsRead (process_response_answer print mem payload_len) count 0 c
answers-IsRead print ok mem payload_len count c list few filled =
    section_loop-IsRead (process_response_answer print mem payload_len) (c.at + c.data_len)
      (λ k n at_end is_list room.
        process_response_answer-Moves print ok mem payload_len k n is_list room
          (filled k.at k.data_len at_end))
      count 0 c refl list (omega arith)
