-- ===== src/Dns/Records.antt =====
-- src/probe_modules/module_dns.c: the questions and the resource records of a DNS answer.
-- A fieldset that another one holds is an entry of `heap`, and its address is the index there. A
-- NULL name is the empty string. `none` is `log_fatal`, a failed assertion or a `memcpy` of a
-- negative length; the truth value of a result tells that the caller sees an error.
use zmap_embedded_ip.Base.{
  ℕ, zero, suc, ◌+◌, ◌-◌, ◌/◌, ◌%◌, Bool, true, false, ◌||◌, Option, none, some, not, List, [], ◌∷◌,
  ◌++◌, length, take, replicate, ltb, leb, ◌==◌, if◌then◌else◌, ◌>>=◌,
}
use zmap_embedded_ip.Fieldset.{Str, ascii, Fieldset, fs_new_fieldset}
use zmap_embedded_ip.Fieldset.Words.{fs_add_uint64, fs_add_string, fs_add_binary, fs_add_fieldset}
use zmap_embedded_ip.Fieldset.Unsafe.{Strings, fs_add_unsafe_string}
use zmap_embedded_ip.Synscan.Parse.{read16, read32}
use zmap_embedded_ip.Dns.{error, aborted, found, read_bytes, get_name}
use zmap_embedded_ip.Dns.Types.{
  dns_qtype_a, dns_qtype_ns, dns_qtype_cname, dns_qtype_mx, dns_qtype_txt, dns_qtype_aaaa,
  qtype_str,
}

-- The libraries' functions: those for strings, and the printing of the four bytes of an IPv4
-- address and of the sixteen bytes of an IPv6 address.
pub record Printers : Type 0 where
  pub strings : Strings
  pub inet_ntoa : List ℕ → Str
  pub inet_ntop : List ℕ → Str

abbrev pub question_tail_size : ℕ
question_tail_size = 4

abbrev pub answer_tail_size : ℕ
answer_tail_size = 10

-- The bytes of a buffer up to the first 0.
unfoldable pub c_string : List ℕ → Str
c_string [] = []
c_string (c ∷ rest) = if c == 0 then [] else c ∷ c_string rest

-- `%hu`: the decimal digits of a 16-bit number.
unfoldable pub digits : ℕ → ℕ → Str → Str
digits zero n rest = rest
digits (suc fuel) n rest =
    let more = digits fuel (n / 10) ((48 + n % 10) ∷ rest) in
    if n / 10 == 0 then (48 + n % 10) ∷ rest else more

-- The buffer for a mail exchanger: `snprintf` writes at most five characters and a 0, and returns
-- the length of the whole text, behind which the name is copied.
unfoldable pub mx_string : ℕ → Str → Str
unfolding digits c_string
mx_string preference name =
    let text = digits 5 preference [] ++ b' ' ∷ [] in
    c_string (take 5 text ++ replicate (length text - 5) 0 ++ name)

-- What a section has come to: the data that is left, the list of its records, and the fieldsets.
pub record Cursor : Type 0 where
  pub at : ℕ
  pub data_len : ℕ
  pub list : Fieldset
  pub heap : List Fieldset

-- The new fieldset joins the list, and the pointers move on.
unfoldable pub finish : Fieldset → ℕ → Cursor → Option (Bool × Cursor)
unfolding fs_add_fieldset
finish fs consumed c = do
  list ← fs_add_fieldset c.list [] (length c.heap)
  some (
    false,
    record {
      at = c.at + consumed;
      data_len = c.data_len - consumed;
      list = list;
      heap = c.heap ++ fs ∷ [];
    },
  )

-- The data of a record as it is.
unfoldable pub add_raw : ℕ → ℕ → Fieldset → Option Fieldset
unfolding fs_add_uint64 fs_add_binary
add_raw rdata rdlength afs = do
  afs₁ ← fs_add_uint64 afs (ascii "rdata_is_parsed") 0
  fs_add_binary afs₁ (ascii "rdata") rdlength rdata false

unfoldable pub add_parsed : Printers → Str → Fieldset → Option Fieldset
unfolding fs_add_uint64 fs_add_unsafe_string
add_parsed print value afs = do
  afs₁ ← fs_add_uint64 afs (ascii "rdata_is_parsed") 1
  fs_add_unsafe_string print.strings afs₁ (ascii "rdata") value true

module _ (print : Printers) (mem : ℕ → ℕ) (payload_len : ℕ) where
  unfoldable pub question_fields : Str → ℕ → Option Fieldset
  question_fields name tail = do
    let qtype = read16 mem tail
    qfs₁ ← fs_add_unsafe_string print.strings (fs_new_fieldset none) (ascii "name") name true
    qfs₂ ← fs_add_uint64 qfs₁ (ascii "qtype") qtype
    qfs₃ ← fs_add_string qfs₂ (ascii "qtype_str") (qtype_str qtype) false
    fs_add_uint64 qfs₃ (ascii "qclass") (read16 mem (tail + 2))

  unfoldable pub process_response_question : Cursor → Option (Bool × Cursor)
  process_response_question c = elim (get_name mem c.at c.data_len payload_len) [
    | error ↦ some (true, c)
    | aborted ↦ none
    | found consumed name ↦
        if ltb c.data_len (consumed + question_tail_size)
        then some (true, c)
        else question_fields (c_string name) (c.at + consumed) >>= λ qfs.
            finish qfs (consumed + question_tail_size) c
  ]

  unfoldable pub add_name : ℕ → ℕ → Fieldset → Option Fieldset
  add_name rdata rdlength afs = elim (get_name mem rdata rdlength payload_len) [
    | error ↦ add_raw rdata rdlength afs
    | aborted ↦ none
    | found consumed name ↦ add_parsed print (c_string name) afs
  ]

  unfoldable pub add_mx : ℕ → ℕ → Fieldset → Option Fieldset
  add_mx rdata rdlength afs =
      if leb rdlength 4
      then add_raw rdata rdlength afs
      else elim (get_name mem (rdata + 2) (rdlength - 2) payload_len) [
        | error ↦ add_raw rdata rdlength afs
        | aborted ↦ none
        | found consumed name ↦ add_parsed print (mx_string (read16 mem rdata) (c_string name)) afs
      ]

  unfoldable pub add_txt : ℕ → ℕ → Fieldset → Option Fieldset
  add_txt rdata rdlength afs =
      if rdlength == 0
      then none
      else if not (rdlength - 1 == mem rdata)
      then add_raw rdata rdlength afs
      else add_parsed print (c_string (read_bytes mem (rdata + 1) (rdlength - 1))) afs

  unfoldable pub add_rdata : ℕ → ℕ → ℕ → Fieldset → Option Fieldset
  add_rdata type rdata rdlength afs =
      if type == dns_qtype_ns || type == dns_qtype_cname
      then add_name rdata rdlength afs
      else if type == dns_qtype_mx
      then add_mx rdata rdlength afs
      else if type == dns_qtype_txt
      then add_txt rdata rdlength afs
      else if type == dns_qtype_a
      then (if rdlength == 4
          then add_parsed print (print.inet_ntoa (read_bytes mem rdata 4)) afs
          else add_raw rdata rdlength afs)
      else if type == dns_qtype_aaaa
      then (if rdlength == 16
          then add_parsed print (print.inet_ntop (read_bytes mem rdata 16)) afs
          else add_raw rdata rdlength afs)
      else add_raw rdata rdlength afs

  -- The fields in front of the data.
  unfoldable pub answer_head : Str → ℕ → Option Fieldset
  answer_head name tail = do
    let type = read16 mem tail
    afs₁ ← fs_add_unsafe_string print.strings (fs_new_fieldset none) (ascii "name") name true
    afs₂ ← fs_add_uint64 afs₁ (ascii "type") type
    afs₃ ← fs_add_string afs₂ (ascii "type_str") (qtype_str type) false
    afs₄ ← fs_add_uint64 afs₃ (ascii "class") (read16 mem (tail + 2))
    afs₅ ← fs_add_uint64 afs₄ (ascii "ttl") (read32 mem (tail + 4))
    fs_add_uint64 afs₅ (ascii "rdlength") (read16 mem (tail + 8))

  unfoldable pub answer_fields : Str → ℕ → Option Fieldset
  answer_fields name tail =
      answer_head name tail
      >>= add_rdata (read16 mem tail) (tail + answer_tail_size) (read16 mem (tail + 8))

  unfoldable pub process_response_answer : Cursor → Option (Bool × Cursor)
  process_response_answer c = elim (get_name mem c.at c.data_len payload_len) [
    | error ↦ some (true, c)
    | aborted ↦ none
    | found consumed name ↦
        let rdlength = read16 mem (c.at + consumed + 8) in
        if ltb c.data_len (consumed + answer_tail_size)
        then some (true, c)
        else if ltb c.data_len (rdlength + consumed + answer_tail_size)
        then some (true, c)
        else answer_fields (c_string name) (c.at + consumed) >>= λ afs.
            finish afs (consumed + answer_tail_size + rdlength) c
  ]

-- The loop over the records of a section: it ends at the first error.
unfoldable pub section_loop :
    (Cursor → Option (Bool × Cursor)) → ℕ → Bool → Cursor → Option (Bool × Cursor)
section_loop process zero err c = some (err, c)
section_loop process (suc count) true c = some (true, c)
section_loop process (suc count) false c = elim (process c) [
  | none ↦ none
  | some (err, c') ↦ section_loop process count err c'
]
