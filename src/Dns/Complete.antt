-- ===== src/Dns/Complete.antt =====
-- src/probe_modules/module_dns.c: the four sections are read without a fault, and the record of a
-- valid answer is complete.
use zmap_embedded_ip.Base.{
  ℕ, ◌+◌, ◌-◌, ◌≤◌, ◌≡◌, refl, ◌∙◌, inl, inr, Bool, true, false, Option, some, List, [], ◌∷◌, ◌++◌,
  length, ◌^◌, u16, Bool-cases, arith,
}
use zmap_embedded_ip.Fieldset.{Fieldset, fs_new_repeated_field}
use zmap_embedded_ip.Fieldset.Words.{fs_new_repeated_fieldset}
use zmap_embedded_ip.Fieldset.Sanitize.{IsStrings}
use zmap_embedded_ip.Synscan.Parse.{read16}
use zmap_embedded_ip.Dns.Records.{
  Printers, Cursor, process_response_question, process_response_answer,
}
use zmap_embedded_ip.Dns.Sections.{IsList, NoEmptyTxt}
use zmap_embedded_ip.Dns.Loop.{IsRead, after_error, questions-IsRead, answers-IsRead}
use zmap_embedded_ip.Dns.Process.{Rest, section, Sections, parse_sections}

-- A section that starts where the last one has left off: it is read, and the data ends where it did.
record Passes (process : Cursor → Option (Bool × Cursor)) (count : ℕ) (r : Rest) : Type 0 where
  address : ℕ
  rest : Rest
  runs : section process count r ≡ some (address, rest)
  ends : rest.at + rest.data_len ≡ r.at + r.data_len
  moved : r.at ≤ rest.at

abbrev start_of : Rest → Cursor
start_of r = record {
  at = r.at;
  data_len = r.data_len;
  list = fs_new_repeated_field 5 false;
  heap = r.heap;
}

section-Passes :
    (process : Cursor → Option (Bool × Cursor)) (count : ℕ) (r : Rest)
    → IsRead process count 0 (start_of r)
    → Passes process count r
unfolding section fs_new_repeated_fieldset
section-Passes process count r read = elim (Bool-cases r.err) [
  | inl failed ↦ record {
    address = length r.heap;
    rest = record r { err = true; heap = r.heap ++ fs_new_repeated_field 5 false ∷ [] };
    runs = rw (section, failed, after_error process count (start_of r)) refl;
    ends = refl;
    moved = omega arith;
  }
  | inr well ↦ record {
    address = length read.left.heap;
    rest = record {
      err = read.err;
      at = read.left.at;
      data_len = read.left.data_len;
      heap = read.left.heap ++ read.left.list ∷ [];
    };
    runs = rw (section, well, read.runs) refl;
    ends = read.ends;
    moved = omega (arith, read.moved);
  }
]

module _ (print : Printers) (ok : IsStrings print.strings) (mem : ℕ → ℕ) (udp_len : ℕ) where
  -- The data behind the DNS header, as the code counts it.
  abbrev pub data_end : ℕ
  data_end = 12 + u16 (udp_len + 2 ^ 16 - 8 - 12)

  -- The header announces at most 127 records for each section, and at no offset of the data does a
  -- TXT record without data stand behind a name.
  pub record IsModest : Type 0 where
    pub questions : read16 mem 4 ≤ 127
    pub answers : read16 mem 6 ≤ 127
    pub authorities : read16 mem 8 ≤ 127
    pub additionals : read16 mem 10 ≤ 127
    pub filled :
        (at data_len : ℕ) → at + data_len ≡ data_end → NoEmptyTxt print ok mem udp_len at data_len

  fs_new_repeated_field-IsList : IsList (fs_new_repeated_field 5 false) 0
  unfolding fs_new_repeated_field
  fs_new_repeated_field-IsList = (refl, refl, refl, refl)

  answers-Passes :
      (count : ℕ) (r : Rest)
      → IsModest
      → count ≤ 127
      → r.at + r.data_len ≡ data_end
      → Passes (process_response_answer print mem udp_len) count r
  answers-Passes count r modest few at_end =
      section-Passes (process_response_answer print mem udp_len) count r (
        answers-IsRead print ok mem udp_len count (start_of r) fs_new_repeated_field-IsList few
          (λ at data_len e. modest.filled at data_len (e ∙ at_end)))

  -- With a `memcpy` that copies overlapping bytes too, which the C standard does not promise: when
  -- the header announces at most 127 records for each section, and no TXT record without data
  -- stands behind a name at any offset of the data, the sections are read without a failed
  -- assertion or an overfull fieldset. The pointer and the length that they leave still add up to
  -- the end of the data, so the length, which becomes `dns_unconsumed_bytes`, is what is unread.
  pub parse_sections-ends :
      (heap : List Fieldset)
      → IsModest
      → (s : Sections) × (parse_sections print mem udp_len heap ≡ some s)
        × (s.rest.at + s.rest.data_len ≡ data_end)
        × (12 ≤ s.rest.at)
  unfolding parse_sections
  parse_sections-ends heap modest =
      let start : Rest = record {
        err = false;
        at = 12;
        data_len = u16 (udp_len + 2 ^ 16 - 8 - 12);
        heap = heap;
      } in
      let p₁ = section-Passes (process_response_question print mem udp_len) (read16 mem 4) start (
        questions-IsRead print ok mem udp_len (read16 mem 4) (start_of start)
          fs_new_repeated_field-IsList modest.questions) in
      let p₂ = answers-Passes (read16 mem 6) p₁.rest modest modest.answers p₁.ends in
      let e₂ = p₂.ends ∙ p₁.ends in
      let p₃ = answers-Passes (read16 mem 8) p₂.rest modest modest.authorities e₂ in
      let e₃ = p₃.ends ∙ e₂ in
      let p₄ = answers-Passes (read16 mem 10) p₃.rest modest modest.additionals e₃ in
      (
        record {
          questions = p₁.address;
          answers = p₂.address;
          authorities = p₃.address;
          additionals = p₄.address;
          rest = p₄.rest;
        },
        rw (parse_sections, p₁.runs, p₂.runs, p₃.runs, p₄.runs) refl,
        p₄.ends ∙ e₃,
        omega (arith, p₁.moved, p₂.moved, p₃.moved, p₄.moved),
      )
