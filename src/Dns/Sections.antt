-- ===== src/Dns/Sections.antt =====
-- src/probe_modules/module_dns.c: what a record consumes, and which records end the program.
use mathlib.Core.Path.{subst}
use zmap_embedded_ip.Base.{
  sym, ap, ◌∙◌, ℕ, ◌+◌, ◌≤◌, ◌<◌, ◌≡◌, ◌≢◌, refl, inl, inr, Bool, true, false, Option, none, some,
  List, [], ◌∷◌, length, ltb, leb, ◌==◌, ltb→le, le→ltb, ◌⊎◌, Bool-cases, length-append, ◌>>=◌,
  arith,
}
use zmap_embedded_ip.Fieldset.{Fieldset, fs_repeated, fs_fieldset, fs_add_word, name_expected}
use zmap_embedded_ip.Fieldset.Words.{fs_add_fieldset}
use zmap_embedded_ip.Fieldset.Sanitize.{IsStrings}
use zmap_embedded_ip.Synscan.Parse.{read16}
use zmap_embedded_ip.Dns.{NameResult, error, aborted, found, get_name}
use zmap_embedded_ip.Dns.Bounds.{Fits, get_name-Fits}
use zmap_embedded_ip.Dns.Records.{
  Printers, Cursor, finish, question_fields, process_response_question, answer_fields,
  process_response_answer, c_string,
}
use zmap_embedded_ip.Dns.Fields.{
  Opens, bind-none, question_fields-Opens, answer_fields-Opens, answer_fields-empty_txt,
}

-- The list of a section with `n` records.
abbrev pub IsList : Fieldset → ℕ → Type 0
IsList list n =
    (list.fds ≡ none)
    × (list.type ≡ fs_repeated)
    × (list.inner_type ≡ fs_fieldset)
    × (length list.fields ≡ n)

-- A record: an error, and nothing has changed; or the pointer has moved on within the data by at
-- least a byte, the length by as much, and the list and the heap have one more entry.
abbrev pub Moves : Cursor → ℕ → Option (Bool × Cursor) → Type 0
Moves c n none = ⊥
Moves c n (some (true, c')) = c ≡ c'
Moves c n (some (false, c')) =
    (c'.at + c'.data_len ≡ c.at + c.data_len)
    × (c.at < c'.at)
    × IsList c'.list (n + 1)
    × (length c'.heap ≡ length c.heap + 1)

finish-Moves :
    (fs : Fieldset) (consumed n : ℕ) (c : Cursor)
    → IsList c.list n
    → n < 127
    → 0 < consumed
    → consumed ≤ c.data_len
    → Moves c n (finish fs consumed c)
unfolding finish fs_add_fieldset fs_add_word name_expected
finish-Moves fs consumed n c list room some_bytes fits =
    let space : leb 128 (length c.list.fields + 1) ≡ false = ground (arith, list) in
    let expected : name_expected c.list.fds (length c.list.fields) [] ≡ true = rw list.0 refl in
    let repeated : (c.list.type == 6) ≡ true = ground (arith, list.1) in
    let same : (c.list.inner_type == 5) ≡ true = ground (arith, list.2) in
    rw (fs_add_word, space, repeated, same, expected)
      (
        omega arith,
        omega arith,
        (list.0, list.1, list.2, omega (arith, list.3, length-append c.list.fields (_ ∷ []))),
        length-append c.heap (fs ∷ []),
      )

finish-full :
    (fs : Fieldset) (consumed n : ℕ) (c : Cursor)
    → IsList c.list n
    → 127 ≤ n
    → finish fs consumed c ≡ none
unfolding finish fs_add_fieldset fs_add_word
finish-full fs consumed n c list full =
    let space : leb 128 (length c.list.fields + 1) ≡ true = ground (arith, list) in
    rw (fs_add_word, space) refl

-- The end of a record whose fields have been filled in.
fields-Moves :
    (o : Option Fieldset) (m consumed n : ℕ) (c : Cursor)
    → Opens o m
    → IsList c.list n
    → n < 127
    → 0 < consumed
    → consumed ≤ c.data_len
    → Moves c n (o >>= λ fs. finish fs consumed c)
fields-Moves none m consumed n c opens list room some_bytes fits = absurd opens
fields-Moves (some fs) m consumed n c opens list room some_bytes fits =
    finish-Moves fs consumed n c list room some_bytes fits

-- The result of `get_name` with what is known of it.
name-cases :
    (mem : ℕ → ℕ) (at data_len payload_len : ℕ) (r : NameResult)
    → Fits data_len 511 r
    → (r ≡ error)
      ⊎ ((consumed : ℕ) × (name : List ℕ) × (r ≡ found consumed name)
          × (1 ≤ consumed)
          × (consumed ≤ data_len))
name-cases mem at data_len payload_len error fits = inl refl
name-cases mem at data_len payload_len aborted fits = absurd fits
name-cases mem at data_len payload_len (found consumed name) fits =
    inr (consumed, name, refl, fits.0, fits.1)

module _ (print : Printers) (mem : ℕ → ℕ) (payload_len : ℕ) where
  -- A record that lies within the data.
  answer_run :
      (c : Cursor) (consumed : ℕ) (name : List ℕ)
      → get_name mem c.at c.data_len payload_len ≡ found consumed name
      → read16 mem (c.at + consumed + 8) + consumed + 10 ≤ c.data_len
      → process_response_answer print mem payload_len c ≡ (
          answer_fields print mem payload_len (c_string name) (c.at + consumed) >>= λ afs.
          finish afs (consumed + 10 + read16 mem (c.at + consumed + 8)) c)
  unfolding process_response_answer
  answer_run c consumed name e fits =
      let rdlength = read16 mem (c.at + consumed + 8) in
      let tail : ltb c.data_len (consumed + 10) ≡ false = le→ltb _ _ (omega arith) in
      let fits' : ltb c.data_len (rdlength + consumed + 10) ≡ false = le→ltb _ _ fits in
      rw (process_response_answer, e, tail, fits') refl

module _ (print : Printers) (ok : IsStrings print.strings) (mem : ℕ → ℕ) (payload_len : ℕ) where
  pub process_response_question-Moves :
      (c : Cursor) (n : ℕ)
      → IsList c.list n
      → n < 127
      → Moves c n (process_response_question print mem payload_len c)
  unfolding process_response_question
  process_response_question-Moves c n list room =
      elim (name-cases mem c.at c.data_len payload_len (get_name mem c.at c.data_len payload_len)
        (get_name-Fits mem c.at c.data_len payload_len)) [
          | inl e ↦
              let run : process_response_question print mem payload_len c ≡ some (true, c) =
                rw (process_response_question, e) refl in
              subst (Moves c n) (sym run) refl
          | inr (consumed, name, e, some_bytes, within) ↦
              elim (Bool-cases (ltb c.data_len (consumed + 4))) [
                | inl short ↦
                    let run : process_response_question print mem payload_len c ≡ some (true, c) =
                      rw (process_response_question, e, short) refl in
                    subst (Moves c n) (sym run) refl
                | inr fits ↦
                    let fields =
                      question_fields print mem payload_len (c_string name) (c.at + consumed) in
                    let run : process_response_question print mem payload_len c
                        ≡ (fields >>= λ qfs. finish qfs (consumed + 4) c) =
                      rw (process_response_question, e, fits) refl in
                    subst (Moves c n) (sym run) (
                      fields-Moves fields 4 (consumed + 4) n c
                        (question_fields-Opens print ok mem payload_len (c_string name)
                          (c.at + consumed))
                        list room (omega arith) (ltb→le _ _ fits))
              ]
        ]

  -- The first record of the data is not a TXT record without data.
  abbrev pub NoEmptyTxt : ℕ → ℕ → Type 0
  NoEmptyTxt at data_len =
      (consumed : ℕ) (name : List ℕ)
      → get_name mem at data_len payload_len ≡ found consumed name
      → read16 mem (at + consumed) ≡ 16
      → read16 mem (at + consumed + 8) ≢ 0

  pub process_response_answer-Moves :
      (c : Cursor) (n : ℕ)
      → IsList c.list n
      → n < 127
      → NoEmptyTxt c.at c.data_len
      → Moves c n (process_response_answer print mem payload_len c)
  unfolding process_response_answer
  process_response_answer-Moves c n list room filled =
      elim (name-cases mem c.at c.data_len payload_len (get_name mem c.at c.data_len payload_len)
        (get_name-Fits mem c.at c.data_len payload_len)) [
          | inl e ↦
              let run : process_response_answer print mem payload_len c ≡ some (true, c) =
                rw (process_response_answer, e) refl in
              subst (Moves c n) (sym run) refl
          | inr (consumed, name, e, some_bytes, within) ↦
              let rdlength = read16 mem (c.at + consumed + 8) in
              elim (Bool-cases (ltb c.data_len (consumed + 10))) [
                | inl short ↦
                    let run : process_response_answer print mem payload_len c ≡ some (true, c) =
                      rw (process_response_answer, e, short) refl in
                    subst (Moves c n) (sym run) refl
                | inr tail ↦ elim (Bool-cases (ltb c.data_len (rdlength + consumed + 10))) [
                  | inl short ↦
                      let run : process_response_answer print mem payload_len c ≡ some (true, c) =
                        rw (process_response_answer, e, tail, short) refl in
                      subst (Moves c n) (sym run) refl
                  | inr fits ↦
                      subst (Moves c n)
                        (sym (answer_run print mem payload_len c consumed name e (ltb→le _ _ fits)))
                        (fields-Moves _ 8 (consumed + 10 + rdlength) n c
                          (answer_fields-Opens print ok mem payload_len (c_string name)
                            (c.at + consumed) (filled consumed name e))
                          list room (omega arith) (omega (arith, ltb→le _ _ fits)))
                ]
              ]
        ]

module _ (print : Printers) (mem : ℕ → ℕ) (payload_len : ℕ) where
  -- A record whose name is read and whose data lies within the message ends the scan without a
  -- result if the list has 127 records or more before it, or if it is a TXT record of length 0.
  pub process_response_answer-fatal :
      (c : Cursor) (n consumed : ℕ) (name : List ℕ)
      → get_name mem c.at c.data_len payload_len ≡ found consumed name
      → read16 mem (c.at + consumed + 8) + consumed + 10 ≤ c.data_len
      → (127 ≤ n) ⊎ ((read16 mem (c.at + consumed) ≡ 16) × (read16 mem (c.at + consumed + 8) ≡ 0))
      → IsList c.list n
      → process_response_answer print mem payload_len c ≡ none
  process_response_answer-fatal c n consumed name e fits why list =
      let fields = answer_fields print mem payload_len (c_string name) (c.at + consumed) in
      let rest =
        λ (afs : Fieldset). finish afs (consumed + 10 + read16 mem (c.at + consumed + 8)) c in
      answer_run print mem payload_len c consumed name e fits ∙ (elim why [
        | inl full ↦ bind-none fields rest (λ fs. finish-full fs _ n c list full)
        | inr (is_txt, empty) ↦
            ap (λ o. o >>= rest)
              (answer_fields-empty_txt print mem payload_len (c_string name) (c.at + consumed)
                is_txt empty)
      ])
