-- ===== src/Dns/Words.antt =====
-- src/probe_modules/module_dns.c: the record of an answer as steps on a field set, each of which adds
-- fields in the order of their definitions.
use zmap_embedded_ip.Base.{
  ℕ, ◌+◌, ◌-◌, ◌*◌, ◌≤◌, ◌≡◌, refl, Bool, true, false, ◌&&◌, not, ◌||◌, Option, some, List, [], ◌∷◌,
  ◌++◌, map, length, ◌==◌, ◌>>=◌, bind_cong, pointwise, to_nat, arith,
}
use zmap_embedded_ip.Fieldset.{Str, ascii, FieldDef, Field, Fieldset, fs_new_fieldset}
use zmap_embedded_ip.Fieldset.Words.{
  fs_add_null, fs_add_string, fs_add_uint64, fs_add_constchar, fs_add_bool, fs_add_binary,
  fs_add_repeated, fs_new_repeated_fieldset,
}
use zmap_embedded_ip.Fieldset.Sanitize.{IsStrings}
use zmap_embedded_ip.Packet.{ByteOrder, Ip, Memory}
use zmap_embedded_ip.Packet.Icmp.{unreach_str, fs_add_null_icmp}
use zmap_embedded_ip.ProbeModules.{
  ip_fields, sys_fields, Timespec, fs_add_ip_fields, fs_add_system_fields,
}
use zmap_embedded_ip.Synscan.Words.{icmp_part, populate}
use zmap_embedded_ip.Udp.{udp_at}
use zmap_embedded_ip.Udp.Record.{get_icmp_header-found, get_inner_ip_header-found}
use zmap_embedded_ip.Dns.Records.{Printers}
use zmap_embedded_ip.Dns.Process.{
  Question, matches_length, is_valid_answer, bits, add_dns_header, add_dns_lists, add_null_header,
  dns_add_null_fs, add_dns_fields,
}
use zmap_embedded_ip.Dns.Answer.{
  dns_fields, message, add_udp_fields, add_message, process_dns, process_icmp_dns,
  dns_process_packet,
}
use zmap_embedded_ip.Dns.Complete.{IsModest, parse_sections-ends}

unfoldable pub all_fields : List FieldDef
all_fields = ip_fields ++ dns_fields ++ sys_fields

-- What the fields of a DNS message hold.
pub record Body : Type 0 where
  pub questions : ℕ
  pub answers : ℕ
  pub authorities : ℕ
  pub additionals : ℕ
  pub err : ℕ
  pub data_len : ℕ
  pub heap : List Fieldset

-- The header's fields of a valid answer, or of another one.
pub header : Bool → (ℕ → ℕ) → Fieldset → Option Fieldset
header true mem fs = add_dns_header mem fs
header false mem fs = add_null_header fs

pub body_words : Bool → (ℕ → ℕ) → Body → Fieldset → Option (Fieldset × List Fieldset)
body_words valid mem b fs = do
  fs₁ ← header valid mem fs
  fs₂ ← add_dns_lists b.questions b.answers b.authorities b.additionals b.err b.data_len fs₁
  some (fs₂, b.heap)

module _ (print : Printers) (ok : IsStrings print.strings) (mem : ℕ → ℕ) (udp_len : ℕ) where
  pub add_message-words :
      (valid : Bool) (heap : List Fieldset)
      → (valid ≡ true → IsModest print ok mem udp_len)
      → (b : Body) × ((fs : Fieldset)
          → add_message print mem udp_len valid heap fs ≡ body_words valid mem b fs)
  unfolding add_message body_words header dns_add_null_fs add_dns_fields
  add_message-words false heap modest = (
    record {
      questions = length heap;
      answers = length heap + 1;
      authorities = length heap + 2;
      additionals = length heap + 3;
      err = 1;
      data_len = 0;
      heap =
          heap
          ++ fs_new_repeated_fieldset ∷ fs_new_repeated_fieldset ∷ fs_new_repeated_fieldset
            ∷ fs_new_repeated_fieldset ∷ [];
    },
    λ fs. refl,
  )
  add_message-words true heap modest =
      let (s, runs, ends, moved) = parse_sections-ends print ok mem udp_len heap (modest refl) in
      (
        record {
          questions = s.questions;
          answers = s.answers;
          authorities = s.authorities;
          additionals = s.additionals;
          err = to_nat (s.rest.err || not (s.rest.data_len == 0));
          data_len = s.rest.data_len;
          heap = s.rest.heap;
        },
        λ fs. pointwise (add_dns_header mem fs) _ _ (λ fs₁. rw runs refl),
      )

-- The fields of the system, behind those of the module.
pub with_system :
    (Timespec → Str)
    → Bool
    → Bool
    → Timespec
    → Fieldset × List Fieldset
    → Option (Fieldset × List Fieldset)
with_system time_string is_repeat in_cooldown ts (fs, heap) = do
  fs' ← fs_add_system_fields time_string is_repeat in_cooldown ts fs
  some (fs', heap)

-- The raw data, behind the DNS message.
with_raw : ℕ → ℕ → Fieldset × List Fieldset → Option (Fieldset × List Fieldset)
with_raw len raw (fs, heap) = do
  fs' ← fs_add_binary fs (ascii "raw_data") len raw false
  some (fs', heap)

-- The steps on an answer's record, from the fields of the IP header to those of the system.
unfoldable pub dns_record_of :
    ByteOrder
    → (ℕ → Str)
    → (Timespec → Str)
    → Printers
    → List Question
    → (validation₂ offset : ℕ) → Memory
    → (len : ℕ) → Bool
    → Bool
    → Timespec
    → List Fieldset
    → Option (Fieldset × List Fieldset)
unfolding all_fields with_system
dns_record_of order inet_ntoa time_string print questions validation₂ offset mem len is_repeat
      in_cooldown ts heap =
    do
      fs₁ ← fs_add_ip_fields order inet_ntoa (mem.ip_at 14) (fs_new_fieldset (some all_fields))
      r ← dns_process_packet order inet_ntoa print questions validation₂ offset mem len heap fs₁
      with_system time_string is_repeat in_cooldown ts r

-- The fields of a UDP packet.
pub dns_words :
    (sport dport success app_success udp_len raw : ℕ) (valid : Bool) (mem : ℕ → ℕ) (b : Body)
    → Fieldset
    → Option (Fieldset × List Fieldset)
dns_words sport dport success app_success udp_len raw valid mem b fs = do
  fs₁ ← add_udp_fields sport dport success app_success udp_len fs
  r ← body_words valid mem b fs₁
  with_raw (udp_len - 8) raw r

pub dns_record :
    (order : ByteOrder) (inet_ntoa : ℕ → Str) (time_string : Timespec → Str) (ip : Ip)
    (sport dport success app_success udp_len raw : ℕ) (valid : Bool) (mem : ℕ → ℕ) (b : Body)
    (is_repeat in_cooldown : Bool) (ts : Timespec)
    → (fs : Fieldset) × ((do
      fs₁ ← fs_add_ip_fields order inet_ntoa ip (fs_new_fieldset (some all_fields))
      r ← dns_words sport dport success app_success udp_len raw valid mem b fs₁
      with_system time_string is_repeat in_cooldown ts r)
        ≡ some (fs, b.heap))
      × (map (λ (f : Field). f.name) fs.fields ≡ map (λ (d : FieldDef). d.name) all_fields)
unfolding dns_words with_raw with_system all_fields fs_new_fieldset fs_add_ip_fields
    fs_add_system_fields add_udp_fields body_words header add_dns_header add_null_header
    add_dns_lists fs_add_string fs_add_uint64 fs_add_bool fs_add_null fs_add_null_icmp
    fs_add_repeated fs_add_binary
dns_record order inet_ntoa time_string ip sport dport success app_success udp_len raw true mem b
      is_repeat in_cooldown ts =
    (_, refl, refl)
dns_record order inet_ntoa time_string ip sport dport success app_success udp_len raw false mem b
      is_repeat in_cooldown ts =
    (_, refl, refl)

pub process_dns-words :
    (order : ByteOrder) (print : Printers) (questions : List Question) (validation₂ offset : ℕ)
    (mem : Memory) (udp : ℕ) (b : Body) (heap : List Fieldset) (fs : Fieldset)
    → let h = udp_at order mem udp in
      let udp_len = order.ntohs h.uh_ulen in
      let dns = message mem udp in
      let valid =
        is_valid_answer order dns udp_len
          (order.word (dns 0) (dns 1))
          validation₂
          offset
          questions in
      matches_length questions udp_len ≡ true
      → ((fs : Fieldset) → add_message print dns udp_len valid heap fs ≡ body_words valid dns b fs)
      → process_dns order print questions validation₂ offset mem udp heap fs
        ≡ dns_words
            (order.ntohs h.uh_sport)
            (order.ntohs h.uh_dport)
            (to_nat valid)
            (to_nat (valid && bits (dns 2) 7 1 == 1 && bits (dns 3) 0 4 == 0))
            udp_len
            (udp + 8)
            valid
            dns
            b
            fs
unfolding process_dns dns_words with_raw
process_dns-words order print questions validation₂ offset mem udp b heap fs fits same =
    rw (process_dns, fits)
      (pointwise (add_udp_fields _ _ _ _ _ fs) _ _ (λ fs₁. bind_cong (same fs₁) (λ r. refl)))

pub icmp_words :
    (ℕ → Str)
    → Ip
    → Ip
    → (icmp_type icmp_code : ℕ) → Str
    → (len : ℕ) → List Fieldset
    → Fieldset
    → Option (Fieldset × List Fieldset)
icmp_words inet_ntoa ip quoted icmp_type icmp_code unreach len heap fs = do
  fs₁ ← fs_add_null fs (ascii "sport")
  fs₂ ← fs_add_null fs₁ (ascii "dport")
  fs₃ ← fs_add_constchar fs₂ (ascii "classification") (ascii "icmp")
  fs₄ ← fs_add_bool fs₃ (ascii "success") 0
  fs₅ ← fs_add_bool fs₄ (ascii "app_success") 0
  fs₆ ← icmp_part inet_ntoa ip quoted icmp_type icmp_code unreach fs₅
  fs₇ ← fs_add_null fs₆ (ascii "udp_len")
  r ← dns_add_null_fs heap fs₇
  with_raw len 0 r

pub icmp_record :
    (order : ByteOrder) (inet_ntoa : ℕ → Str) (time_string : Timespec → Str) (ip quoted : Ip)
    (icmp_type icmp_code : ℕ) (unreach : Str) (len : ℕ) (heap : List Fieldset)
    (is_repeat in_cooldown : Bool) (ts : Timespec)
    → (fs : Fieldset) × (heap' : List Fieldset) × ((do
      fs₁ ← fs_add_ip_fields order inet_ntoa ip (fs_new_fieldset (some all_fields))
      r ← icmp_words inet_ntoa ip quoted icmp_type icmp_code unreach len heap fs₁
      with_system time_string is_repeat in_cooldown ts r)
        ≡ some (fs, heap'))
      × (map (λ (f : Field). f.name) fs.fields ≡ map (λ (d : FieldDef). d.name) all_fields)
unfolding icmp_words icmp_part dns_add_null_fs with_raw with_system all_fields fs_new_fieldset
    fs_add_ip_fields fs_add_system_fields add_null_header add_dns_lists fs_add_string fs_add_uint64
    fs_add_bool fs_add_null fs_add_constchar fs_add_repeated fs_add_binary
icmp_record order inet_ntoa time_string ip quoted icmp_type icmp_code unreach len heap is_repeat
      in_cooldown ts =
    (_, _, refl, refl)

pub process_icmp_dns-words :
    (inet_ntoa : ℕ → Str) (mem : Memory) (len : ℕ) (unreach : Str) (heap : List Fieldset)
    (fs : Fieldset)
    → 4 * (mem.ip_at 14).ip_hl + 28 ≤ len
    → let icmp = 14 + 4 * (mem.ip_at 14).ip_hl in
      unreach_str (mem.icmp_code_at icmp) ≡ some unreach
      → process_icmp_dns inet_ntoa mem len heap fs
        ≡ icmp_words inet_ntoa
            (mem.ip_at 14)
            (mem.ip_at (icmp + 8))
            (mem.icmp_type_at icmp)
            (mem.icmp_code_at icmp)
            unreach
            len
            heap
            fs
unfolding process_icmp_dns icmp_words with_raw
process_icmp_dns-words inet_ntoa mem len unreach heap fs fits named =
    let icmp = 14 + 4 * (mem.ip_at 14).ip_hl in
    let found = get_icmp_header-found (mem.ip_at 14) len fits in
    let quoted = get_inner_ip_header-found icmp len (omega arith) in
    pointwise (fs_add_null fs (ascii "sport")) _ _ (λ fs₁.
      pointwise (fs_add_null fs₁ (ascii "dport")) _ _ (λ fs₂.
        pointwise (fs_add_constchar fs₂ (ascii "classification") (ascii "icmp")) _ _ (λ fs₃.
          pointwise (fs_add_bool fs₃ (ascii "success") 0) _ _ (λ fs₄.
            pointwise (fs_add_bool fs₄ (ascii "app_success") 0) _ _ (λ fs₅.
              bind_cong
                (populate inet_ntoa mem 14 len icmp (icmp + 8) unreach fs₅ found quoted named)
                (λ fs₆. refl))))))
