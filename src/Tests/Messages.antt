-- ===== src/Tests/Messages.antt =====
-- src/probe_modules/module_dns.c, src/fieldset.c at concrete inputs.
use mathlib.Core.Option.{some-injective}
use zmap_embedded_ip.Base.{
  ap, true, leb, le→leb, ◌≢◌, ◌||◌, ℕ, suc, ◌+◌, ◌-◌, ◌*◌, ◌≤◌, ◌<◌, ◌≡◌, refl, inl, inr, false,
  Option, none, some, List, [], ◌∷◌, ◌++◌, length, take, get_or, ltb, ◌==◌, if◌then◌else◌,
  Bool-cases, Option-cases, arith,
}
use zmap_embedded_ip.Fieldset.{Str, ascii, fs_new_repeated_field}
use zmap_embedded_ip.Fieldset.Unsafe.{Strings, count_errors, sanitize_utf8}
use zmap_embedded_ip.Fieldset.Sanitize.{IsUtf8Check, IsStrings, Copies, behind, sanitize_utf8-valid}
use zmap_embedded_ip.Synscan.Read.{Agree}
use zmap_embedded_ip.Synscan.Parse.{read16}
use zmap_embedded_ip.Dns.{
  found, get_name, get_name_helper, labels_loop, label_room, dot_room, write, read_bytes,
  domain_to_qname, until_dot, to_labels,
}
use zmap_embedded_ip.Dns.Bounds.{Fits, get_name-Fits}
use zmap_embedded_ip.Dns.Reads.{get_name-Agree}
use zmap_embedded_ip.Dns.RoundTrip.{Holds, dotted, get_name-domain_to_qname}
use zmap_embedded_ip.Dns.Pointer.{get_name-pointer}
use zmap_embedded_ip.Dns.Types.{qtype_str, qtype_str-listed}
use zmap_embedded_ip.Dns.Records.{Printers, Cursor, process_response_answer}
use zmap_embedded_ip.Dns.Sections.{process_response_answer-fatal}
use zmap_embedded_ip.Dns.Process.{Sections, parse_sections}
use zmap_embedded_ip.Dns.Complete.{IsModest, parse_sections-ends}

-- "zmap.io" behind a header of zeros.
abbrev query : List ℕ
query =
    0 ∷ 0 ∷ 0 ∷ 0 ∷ 0 ∷ 0 ∷ 0 ∷ 0 ∷ 0 ∷ 0 ∷ 0 ∷ 0 ∷ 4 ∷ 122 ∷ 109 ∷ 97 ∷ 112 ∷ 2 ∷ 105 ∷ 111 ∷ 0
    ∷ []

abbrev query_at : ℕ → ℕ
query_at i = get_or query i 0

get_name-Fits_example : Fits 9 511 (get_name query_at 12 9 21)
get_name-Fits_example = get_name-Fits query_at 12 9 21

-- Other bytes behind the message.
abbrev other_at : ℕ → ℕ
other_at i = if ltb i 21 then get_or query i 0 else 65

query_at-other : Agree query_at other_at 21
query_at-other i h = ground arith

get_name-Agree_example : get_name query_at 12 9 21 ≡ get_name other_at 12 9 21
get_name-Agree_example = get_name-Agree query_at other_at 12 9 21 query_at-other (omega arith)

query_at-Holds : Holds query_at 12 (domain_to_qname (ascii "zmap" ++ dotted (ascii "io" ∷ []))).0
unfolding domain_to_qname to_labels until_dot
query_at-Holds = omega arith

query_length : (domain_to_qname (ascii "zmap.io")).1 ≤ 9
unfolding domain_to_qname
query_length = omega arith

get_name-domain_to_qname_example :
    get_name query_at 12 9 21 ≡ found (domain_to_qname (ascii "zmap.io")).1 (ascii "zmap.io")
get_name-domain_to_qname_example =
    get_name-domain_to_qname query_at 12 9 21 (ascii "zmap") (ascii "io" ∷ []) (omega arith)
      query_at-Holds (omega arith) query_length (omega arith)

-- A pointer to 1290, and the name "z" at 266.
abbrev pointer_at : ℕ → ℕ
pointer_at i = if ltb i 2 then get_or (197 ∷ 10 ∷ []) i 0 else get_or (1 ∷ 122 ∷ []) (i - 266) 0

name_there : get_name_helper 10 pointer_at 300 1 266 34 511 ≡ found 3 (ascii "z")
unfolding get_name_helper labels_loop label_room dot_room write read_bytes
name_there = refl

get_name-pointer_example : get_name_helper 11 pointer_at 300 0 0 2 511 ≡ found 2 (ascii "z")
get_name-pointer_example =
    get_name-pointer 10 pointer_at 0 2 300 511 1290 (found 3 (ascii "z")) refl refl (omega arith)
      (omega arith) (omega arith) (omega arith) name_there

-- SRV has the type 33.
qtype_str-listed_example : qtype_str 33 ≡ ascii "A"
qtype_str-listed_example = qtype_str-listed 33

-- A check that accepts all bytes but 255.
unfoldable pub u8_check : Str → Option ℕ
u8_check [] = none
u8_check (c ∷ s) = if c == 255 then some 0 else behind 1 (u8_check s)

behind-eq :
    (n : ℕ) (o : Option ℕ) (p : ℕ) → behind n o ≡ some p → (q : ℕ) × (o ≡ some q) × (n + q ≡ p)
behind-eq n none p h = cc
behind-eq n (some q) p h = (q, refl, some-injective _ _ h)

u8_check-inside : (s : Str) (p : ℕ) → u8_check s ≡ some p → p < length s
unfolding u8_check
u8_check-inside [] p h = cc
u8_check-inside (c ∷ s) p h = elim (Bool-cases (c == 255)) [
  | inl e ↦ let first : 0 ≡ p = some-injective _ _ (rw e at h) in omega arith
  | inr e ↦
      let (q, here, sum) = behind-eq 1 (u8_check s) p (rw e at h) in
      omega (arith, u8_check-inside s q here)
]

u8_check-valid_before : (s : Str) (p : ℕ) → u8_check s ≡ some p → u8_check (take p s) ≡ none
unfolding u8_check
u8_check-valid_before [] p h = cc
u8_check-valid_before (c ∷ s) p h = elim (Bool-cases (c == 255)) [
  | inl e ↦ let first : 0 ≡ p = some-injective _ _ (rw e at h) in rw (← first) refl
  | inr e ↦
      let (q, here, sum) = behind-eq 1 (u8_check s) p (rw e at h) in
      let later : suc q ≡ p = omega arith in rw (← later, e, u8_check-valid_before s q here) refl
]

behind-twice : (n : ℕ) (o : Option ℕ) → behind 1 (behind n o) ≡ behind (suc n) o
behind-twice n none = refl
behind-twice n (some p) = ap some (omega arith)

u8_check-valid_then :
    (v t : Str) → u8_check v ≡ none → u8_check (v ++ t) ≡ behind (length v) (u8_check t)
unfolding u8_check
u8_check-valid_then [] t h = elim (Option-cases (u8_check t)) [
  | inl e ↦ rw e refl
  | inr (p, e) ↦ rw e (ap some (omega arith))
]
u8_check-valid_then (c ∷ v) t h = elim (Bool-cases (c == 255)) [
  | inl e ↦ let h' = rw e at h in cc
  | inr e ↦ elim (Option-cases (u8_check v)) [
    | inl valid ↦ rw (e, u8_check-valid_then v t valid) (behind-twice (length v) (u8_check t))
    | inr (p, bad) ↦ let h' = rw (e, bad) at h in cc
  ]
]

u8_check-IsUtf8Check : IsUtf8Check u8_check
unfolding u8_check
u8_check-IsUtf8Check = record {
  inside = u8_check-inside;
  valid_before = u8_check-valid_before;
  valid_then = u8_check-valid_then;
  rune_valid = refl;
}

-- A `memcpy` that copies as the C standard promises, and refuses what overlaps.
abbrev strict : Strings
strict = record {
  u8_check = u8_check;
  memcpy = λ distance s. if leb (length s) distance then some s else none;
}

-- A `memcpy` that copies what overlaps as well.
abbrev strings : Strings
strings = record { u8_check = u8_check; memcpy = λ distance s. some s }

pub strings-IsStrings : IsStrings strings
unfolding Copies
strings-IsStrings = record { utf8 = u8_check-IsUtf8Check; copies = λ n s few. refl }

strict-Copies : (n : ℕ) → n ≤ 2 → Copies strict n
unfolding Copies
strict-Copies n small s few =
    let fits : leb (length s) 2 ≡ true = le→leb _ _ (omega arith) in rw fits refl

-- Two bytes stand behind the first error.
first_error : (p : ℕ) → u8_check (65 ∷ 255 ∷ 66 ∷ 255 ∷ []) ≡ some p → Copies strict (4 - (p + 1))
unfolding u8_check
first_error p h = let at : 1 ≡ p = some-injective _ _ h in strict-Copies (4 - (p + 1)) (omega arith)

sanitize_utf8-valid_example :
    (safe : Str) × (errors : ℕ) × (sanitize_utf8 strict (65 ∷ 255 ∷ 66 ∷ 255 ∷ []) ≡ some safe)
    × (count_errors strict 4 (65 ∷ 255 ∷ 66 ∷ 255 ∷ []) ≡ some errors)
    × (u8_check safe ≡ none)
    × (length safe ≡ 4 + errors * 2)
sanitize_utf8-valid_example =
    sanitize_utf8-valid strict u8_check-IsUtf8Check (65 ∷ 255 ∷ 66 ∷ 255 ∷ []) first_error

abbrev pub print : Printers
print = record { strings = strings; inet_ntoa = λ b. ascii "4"; inet_ntop = λ b. ascii "6" }

-- A TXT record for the root with no data.
abbrev txt_at : ℕ → ℕ
txt_at i = get_or (0 ∷ 0 ∷ 16 ∷ []) i 0

abbrev txt_cursor : Cursor
txt_cursor = record { at = 0; data_len = 11; list = fs_new_repeated_field 5 false; heap = [] }

txt_name : get_name txt_at 0 11 20 ≡ found 1 []
unfolding get_name
txt_name = refl

process_response_answer-fatal_example : process_response_answer print txt_at 20 txt_cursor ≡ none
unfolding fs_new_repeated_field
process_response_answer-fatal_example =
    process_response_answer-fatal print txt_at 20 txt_cursor 0 1 [] txt_name (omega arith)
      (inr (refl, refl)) (refl, refl, refl, refl)

-- A message with one question and one answer, for the root.
abbrev small_at : ℕ → ℕ
small_at i = if i == 5 || i == 7 then 1 else 0

small_at-other : (i : ℕ) → read16 small_at i ≢ 16
small_at-other i h = ground (arith, h)

small_at-IsModest : IsModest print strings-IsStrings small_at 40
small_at-IsModest = record {
  questions = omega arith;
  answers = omega arith;
  authorities = omega arith;
  additionals = omega arith;
  filled = λ at data_len end consumed name e is_txt. absurd (small_at-other (at + consumed) is_txt);
}

parse_sections-ends_example :
    (s : Sections) × (parse_sections print small_at 40 [] ≡ some s)
    × (s.rest.at + s.rest.data_len ≡ 32)
    × (12 ≤ s.rest.at)
parse_sections-ends_example =
    parse_sections-ends print strings-IsStrings small_at 40 [] small_at-IsModest
