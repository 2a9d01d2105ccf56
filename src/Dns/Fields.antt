-- ===== src/Dns/Fields.antt =====
-- src/probe_modules/module_dns.c: the fieldset of a question or of a resource record is filled in
-- without a `log_fatal`, whatever the bytes are, except for a TXT record without data.
use zmap_embedded_ip.Base.{
  ℕ, ◌+◌, ◌-◌, ◌<◌, ◌≡◌, ◌≢◌, refl, inl, inr, Bool, true, false, Option, none, some, List, [], ◌∷◌,
  length, leb, ◌==◌, ◌||◌, if◌then◌else◌, Bool-cases, length-append, ◌>>=◌, ==_iff, arith,
}
use zmap_embedded_ip.Fieldset.{
  Str, ascii, FieldVal, num, chars, block, Fieldset, fs_fieldset, fs_new_fieldset, fs_add_word,
  name_expected,
}
use zmap_embedded_ip.Fieldset.Words.{fs_add_uint64, fs_add_string, fs_add_binary}
use zmap_embedded_ip.Fieldset.Unsafe.{fs_add_unsafe_string}
use zmap_embedded_ip.Fieldset.Sanitize.{IsStrings, fs_add_unsafe_string-word}
use zmap_embedded_ip.Synscan.Parse.{read16}
use zmap_embedded_ip.Dns.{NameResult, error, aborted, found, get_name}
use zmap_embedded_ip.Dns.Bounds.{Fits, get_name-Fits}
use zmap_embedded_ip.Dns.Types.{qtype_str}
use zmap_embedded_ip.Dns.Records.{
  Printers, c_string, mx_string, question_fields, add_raw, add_parsed, add_name, add_mx, add_txt,
  add_rdata, answer_head, answer_fields,
}

-- A fieldset without definitions and with `n` fields.
abbrev pub IsOpen : Fieldset → ℕ → Type 0
IsOpen fs n = (fs.fds ≡ none) × (fs.type ≡ fs_fieldset) × (length fs.fields ≡ n)

abbrev pub Opens : Option Fieldset → ℕ → Type 0
Opens none n = ⊥
Opens (some fs) n = IsOpen fs n

Opens-bind :
    (o : Option Fieldset) (f : Fieldset → Option Fieldset) (n m : ℕ)
    → Opens o n
    → ((fs : Fieldset) → IsOpen fs n → Opens (f fs) m)
    → Opens (o >>= f) m
Opens-bind none f n m h each = absurd h
Opens-bind (some fs) f n m h each = each fs h

pub bind-none {ℓ} :
    {B : Type ℓ}
    → (o : Option Fieldset) (f : Fieldset → Option B) → ((fs : Fieldset) → f fs ≡ none)
    → (o >>= f) ≡ none
bind-none none f each = refl
bind-none (some fs) f each = each fs

word-Opens :
    (fs : Fieldset) (n : ℕ) (name : Str) (type : ℕ) (owned : Bool) (len : ℕ) (value : FieldVal)
    → IsOpen fs n
    → n < 127
    → Opens (fs_add_word fs name type owned len value) (n + 1)
unfolding fs_add_word name_expected
word-Opens fs n name type owned len value open_fs room =
    let space : leb 128 (length fs.fields + 1) ≡ false = ground (arith, open_fs) in
    let expected : name_expected fs.fds (length fs.fields) name ≡ true = rw open_fs.0 refl in
    let single : (fs.type == 6) ≡ false = ground (arith, open_fs.1) in
    rw (fs_add_word, space, single, expected)
      (open_fs.0, open_fs.1, omega (arith, open_fs.2, length-append fs.fields (_ ∷ [])))

uint-Opens :
    (fs : Fieldset) (n : ℕ) (name : Str) (value : ℕ)
    → IsOpen fs n
    → n < 127
    → Opens (fs_add_uint64 fs name value) (n + 1)
unfolding fs_add_uint64
uint-Opens fs n name value = word-Opens fs n name 2 false 8 (num value)

string-Opens :
    (fs : Fieldset) (n : ℕ) (name value : Str) (owned : Bool)
    → IsOpen fs n
    → n < 127
    → Opens (fs_add_string fs name value owned) (n + 1)
unfolding fs_add_string
string-Opens fs n name value owned = word-Opens fs n name 1 owned (length value) (chars value)

binary-Opens :
    (fs : Fieldset) (n : ℕ) (name : Str) (len address : ℕ) (owned : Bool)
    → IsOpen fs n
    → n < 127
    → Opens (fs_add_binary fs name len address owned) (n + 1)
unfolding fs_add_binary
binary-Opens fs n name len address owned = word-Opens fs n name 3 owned len (block address)

raw-Opens :
    (rdata rdlength : ℕ) (afs : Fieldset) → IsOpen afs 6 → Opens (add_raw rdata rdlength afs) 8
unfolding add_raw
raw-Opens rdata rdlength afs h =
    Opens-bind _ _ 7 8 (uint-Opens afs 6 (ascii "rdata_is_parsed") 0 h (omega arith))
      (λ fs g. binary-Opens fs 7 (ascii "rdata") rdlength rdata false g (omega arith))

module _ (print : Printers) (ok : IsStrings print.strings) (mem : ℕ → ℕ) (payload_len : ℕ) where
  unsafe-Opens :
      (fs : Fieldset) (n : ℕ) (name value : Str) (owned : Bool)
      → IsOpen fs n
      → n < 127
      → Opens (fs_add_unsafe_string print.strings fs name value owned) (n + 1)
  unsafe-Opens fs n name value owned h room =
      let (safe, owned', adds, valid) =
        fs_add_unsafe_string-word print.strings ok.utf8 fs name value owned ok.copies in
      rw adds (word-Opens fs n name 1 owned' (length safe) (chars safe) h room)

  pub question_fields-Opens :
      (name : Str) (tail : ℕ) → Opens (question_fields print mem payload_len name tail) 4
  unfolding question_fields fs_new_fieldset
  question_fields-Opens name tail =
      Opens-bind _ _ 1 4
        (unsafe-Opens (fs_new_fieldset none) 0 (ascii "name") name true (refl, refl, refl)
          (omega arith))
        (λ fs₁ h₁.
          Opens-bind _ _ 2 4 (uint-Opens fs₁ 1 (ascii "qtype") _ h₁ (omega arith)) (λ fs₂ h₂.
            Opens-bind _ _ 3 4
              (string-Opens fs₂ 2 (ascii "qtype_str") (qtype_str (read16 mem tail)) false h₂
                (omega arith))
              (λ fs₃ h₃. uint-Opens fs₃ 3 (ascii "qclass") _ h₃ (omega arith))))

  parsed-Opens :
      (value : Str) (afs : Fieldset) → IsOpen afs 6 → Opens (add_parsed print value afs) 8
  unfolding add_parsed
  parsed-Opens value afs h =
      Opens-bind _ _ 7 8 (uint-Opens afs 6 (ascii "rdata_is_parsed") 1 h (omega arith))
        (λ fs g. unsafe-Opens fs 7 (ascii "rdata") value true g (omega arith))

  -- A name in the data of a record, which is not aborted.
  named-Opens :
      (most room rdata rdlength : ℕ) (r : NameResult) (text : ℕ → List ℕ → Str) (afs : Fieldset)
      → Fits most room r
      → IsOpen afs 6
      → Opens
          (elim r [
            | error ↦ add_raw rdata rdlength afs
            | aborted ↦ none
            | found consumed name ↦ add_parsed print (text consumed name) afs
          ])
          8
  named-Opens most room rdata rdlength error text afs fits h = raw-Opens rdata rdlength afs h
  named-Opens most room rdata rdlength aborted text afs fits h = fits
  named-Opens most room rdata rdlength (found consumed name) text afs fits h =
      parsed-Opens (text consumed name) afs h

  name-Opens :
      (rdata rdlength : ℕ) (afs : Fieldset)
      → IsOpen afs 6
      → Opens (add_name print mem payload_len rdata rdlength afs) 8
  unfolding add_name
  name-Opens rdata rdlength afs h =
      named-Opens rdlength 511 rdata rdlength (get_name mem rdata rdlength payload_len)
        (λ consumed name. c_string name) afs (get_name-Fits mem rdata rdlength payload_len) h

  mx-Opens :
      (rdata rdlength : ℕ) (afs : Fieldset)
      → IsOpen afs 6
      → Opens (add_mx print mem payload_len rdata rdlength afs) 8
  unfolding add_mx
  mx-Opens rdata rdlength afs h = elim (Bool-cases (leb rdlength 4)) [
    | inl e ↦ rw e (raw-Opens rdata rdlength afs h)
    | inr e ↦ rw e (
        named-Opens (rdlength - 2) 511 rdata rdlength
          (get_name mem (rdata + 2) (rdlength - 2) payload_len)
          (λ consumed name. mx_string (read16 mem rdata) (c_string name)) afs
          (get_name-Fits mem (rdata + 2) (rdlength - 2) payload_len) h)
  ]

  txt-Opens :
      (rdata rdlength : ℕ) (afs : Fieldset)
      → IsOpen afs 6
      → rdlength ≢ 0
      → Opens (add_txt print mem payload_len rdata rdlength afs) 8
  unfolding add_txt
  txt-Opens rdata rdlength afs h filled =
      let some_data : (rdlength == 0) ≡ false = ground (arith, filled) in
      elim (Bool-cases (rdlength - 1 == mem rdata)) [
        | inl e ↦ rw (some_data, e) (parsed-Opens _ afs h)
        | inr e ↦ rw (some_data, e) (raw-Opens rdata rdlength afs h)
      ]

  sized-Opens :
      (rdata rdlength size : ℕ) (value : Str) (afs : Fieldset)
      → IsOpen afs 6
      → Opens
          (if rdlength == size then add_parsed print value afs else add_raw rdata rdlength afs)
          8
  sized-Opens rdata rdlength size value afs h = elim (Bool-cases (rdlength == size)) [
    | inl e ↦ rw e (parsed-Opens value afs h)
    | inr e ↦ rw e (raw-Opens rdata rdlength afs h)
  ]

  rdata-Opens :
      (type rdata rdlength : ℕ) (afs : Fieldset)
      → IsOpen afs 6
      → (type ≡ 16 → rdlength ≢ 0)
      → Opens (add_rdata print mem payload_len type rdata rdlength afs) 8
  unfolding add_rdata
  rdata-Opens type rdata rdlength afs h filled = elim (Bool-cases (type == 2 || type == 5)) [
    | inl e ↦ rw e (name-Opens rdata rdlength afs h)
    | inr e₁ ↦ elim (Bool-cases (type == 15)) [
      | inl e ↦ rw (e₁, e) (mx-Opens rdata rdlength afs h)
      | inr e₂ ↦ elim (Bool-cases (type == 16)) [
        | inl e ↦ rw (e₁, e₂, e) (txt-Opens rdata rdlength afs h (filled ((==_iff type 16).0 e)))
        | inr e₃ ↦ elim (Bool-cases (type == 1)) [
          | inl e ↦ rw (e₁, e₂, e₃, e) (sized-Opens rdata rdlength 4 _ afs h)
          | inr e₄ ↦ elim (Bool-cases (type == 28)) [
            | inl e ↦ rw (e₁, e₂, e₃, e₄, e) (sized-Opens rdata rdlength 16 _ afs h)
            | inr e₅ ↦ rw (e₁, e₂, e₃, e₄, e₅) (raw-Opens rdata rdlength afs h)
          ]
        ]
      ]
    ]
  ]

  answer_head-Opens :
      (name : Str) (tail : ℕ) → Opens (answer_head print mem payload_len name tail) 6
  unfolding answer_head fs_new_fieldset
  answer_head-Opens name tail =
      let type = read16 mem tail in
      Opens-bind _ _ 1 6
        (unsafe-Opens (fs_new_fieldset none) 0 (ascii "name") name true (refl, refl, refl)
          (omega arith))
        (λ fs₁ h₁.
          Opens-bind _ _ 2 6 (uint-Opens fs₁ 1 (ascii "type") _ h₁ (omega arith)) (λ fs₂ h₂.
            Opens-bind _ _ 3 6
              (string-Opens fs₂ 2 (ascii "type_str") (qtype_str type) false h₂ (omega arith))
              (λ fs₃ h₃.
                Opens-bind _ _ 4 6 (uint-Opens fs₃ 3 (ascii "class") _ h₃ (omega arith)) (λ fs₄ h₄.
                  Opens-bind _ _ 5 6 (uint-Opens fs₄ 4 (ascii "ttl") _ h₄ (omega arith))
                    (λ fs₅ h₅. uint-Opens fs₅ 5 (ascii "rdlength") _ h₅ (omega arith))))))

  pub answer_fields-Opens :
      (name : Str) (tail : ℕ)
      → (read16 mem tail ≡ 16 → read16 mem (tail + 8) ≢ 0)
      → Opens (answer_fields print mem payload_len name tail) 8
  unfolding answer_fields
  answer_fields-Opens name tail filled =
      Opens-bind (answer_head print mem payload_len name tail) _ 6 8 (answer_head-Opens name tail)
        (λ afs h. rdata-Opens (read16 mem tail) (tail + 10) (read16 mem (tail + 8)) afs h filled)

module _ (print : Printers) (mem : ℕ → ℕ) (payload_len : ℕ) where
  rdata-empty_txt :
      (rdata : ℕ) (afs : Fieldset) → add_rdata print mem payload_len 16 rdata 0 afs ≡ none
  unfolding add_rdata add_txt
  rdata-empty_txt rdata afs = refl

  -- A TXT record without data ends the program.
  pub answer_fields-empty_txt :
      (name : Str) (tail : ℕ)
      → read16 mem tail ≡ 16
      → read16 mem (tail + 8) ≡ 0
      → answer_fields print mem payload_len name tail ≡ none
  unfolding answer_fields
  answer_fields-empty_txt name tail is_txt empty =
      bind-none (answer_head print mem payload_len name tail) _
        (λ afs. rw (is_txt, empty) (rdata-empty_txt (tail + 10) afs))
