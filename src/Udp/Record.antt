-- ===== src/Udp/Record.antt =====
-- src/probe_modules/module_udp.c: the record of a UDP answer is complete, and its data lies within
-- the packet.
use Prim.Native.Nat.{min}
use zmap_embedded_ip.Base.{
  ◌-◌, ℕ, ◌+◌, ◌*◌, ◌≤◌, ◌<◌, ◌≡◌, refl, ◌∙◌, inl, inr, Bool, true, false, Option, none, some, ◌==◌,
  ==_iff, List, ◌++◌, map, ltb, le→ltb, ◌>>=◌, bind_cong, pointwise, arith, Bool-cases,
}
use zmap_embedded_ip.Fieldset.{
  Str, ascii, FieldDef, Field, FieldVal, null, block, Fieldset, fs_new_fieldset, fs_add_word,
}
use zmap_embedded_ip.Fieldset.Words.{
  fs_add_null, fs_add_uint64, fs_add_constchar, fs_add_bool, fs_add_binary,
}
use zmap_embedded_ip.Packet.{
  ByteOrder, Ip, Memory, get_udp_header, get_icmp_header, get_inner_ip_header,
}
use zmap_embedded_ip.Packet.Icmp.{unreach_str, fs_add_null_icmp}
use zmap_embedded_ip.ProbeModules.{
  ip_fields, sys_fields, Timespec, fs_add_ip_fields, fs_add_system_fields,
}
use zmap_embedded_ip.Synscan.Words.{unreach_known, icmp_part, populate}
use zmap_embedded_ip.Udp.{
  udp_fields, word_at, udp_at, udp_data_len, add_udp_data, add_no_udp_fields, process_udp,
  process_icmp_udp, process_other, udp_process_packet,
}

-- For a frame length and an IP length below 65536 that are both at least the IP header and the UDP
-- header, the length of the field `data` is the smallest of the UDP length, the IP length without
-- the two headers, and the frame length without them. The frame length counts the 14 bytes of the
-- Ethernet header too, so `data`, which starts behind the three headers, ends at most 14 bytes
-- behind the frame.
pub udp_data_len-min :
    (uh_ulen ip_hl ip_len len : ℕ)
    → 8 + ip_hl * 4 ≤ len
    → len < 65536
    → 8 + ip_hl * 4 ≤ ip_len
    → ip_len < 65536
    → (udp_data_len uh_ulen ip_hl ip_len len
        ≡ min uh_ulen (min (ip_len - (8 + ip_hl * 4)) (len - (8 + ip_hl * 4))))
      × (14 + ip_hl * 4 + 8 + udp_data_len uh_ulen ip_hl ip_len len ≤ len + 14)
unfolding udp_data_len
udp_data_len-min uh_ulen ip_hl ip_len len headers small covers ip_small =
    (ground arith, ground arith)

all_fields : List FieldDef
all_fields = ip_fields ++ udp_fields ++ sys_fields

-- The steps on an answer's record, from the fields of the IP header to those of the system.
unfoldable pub udp_record_of :
    ByteOrder → (ℕ → Str) → (Timespec → Str) → Memory → ℕ → Bool → Bool → Timespec → Option Fieldset
unfolding all_fields
udp_record_of order inet_ntoa time_string mem len is_repeat in_cooldown ts = do
  fs₁ ← fs_add_ip_fields order inet_ntoa (mem.ip_at 14) (fs_new_fieldset (some all_fields))
  fs₂ ← udp_process_packet order inet_ntoa mem len fs₁
  fs_add_system_fields time_string is_repeat in_cooldown ts fs₂

-- `process_udp` with the field `data` as `fs_add_word` adds it.
udp_words : ℕ → ℕ → ℕ → ℕ → ℕ → FieldVal → Fieldset → Option Fieldset
udp_words sport dport size type len value fs = do
  fs₁ ← fs_add_constchar fs (ascii "classification") (ascii "udp")
  fs₂ ← fs_add_bool fs₁ (ascii "success") 1
  fs₃ ← fs_add_uint64 fs₂ (ascii "sport") sport
  fs₄ ← fs_add_uint64 fs₃ (ascii "dport") dport
  fs₅ ← fs_add_uint64 fs₄ (ascii "udp_pkt_size") size
  fs₆ ← fs_add_word fs₅ (ascii "data") type false len value
  fs_add_null_icmp fs₆

data_word :
    (order : ByteOrder) (mem : Memory) (at udp len : ℕ)
    → (type size : ℕ) × (value : FieldVal) × ((fs : Fieldset)
        → add_udp_data order mem at udp len fs
          ≡ fs_add_word fs (ascii "data") type false size value)
unfolding add_udp_data fs_add_binary fs_add_null
data_word order mem at udp len =
    elim (Bool-cases (ltb 8 (order.ntohs (udp_at order mem udp).uh_ulen))) [
      | inl e ↦
          let size =
            udp_data_len (order.ntohs (udp_at order mem udp).uh_ulen) (mem.ip_at at).ip_hl
              (order.ntohs (word_at order mem (at + 2))) len in
          (3, size, block (udp + 8), λ fs. rw (add_udp_data, e) refl)
      | inr e ↦ (4, 0, null, λ fs. rw (add_udp_data, e) refl)
    ]

udp_record :
    (order : ByteOrder) (inet_ntoa : ℕ → Str) (time_string : Timespec → Str) (ip : Ip)
    (sport dport size type len : ℕ) (value : FieldVal) (is_repeat in_cooldown : Bool)
    (ts : Timespec)
    → (fs : Fieldset) × ((do
      fs₁ ← fs_add_ip_fields order inet_ntoa ip (fs_new_fieldset (some all_fields))
      fs₂ ← udp_words sport dport size type len value fs₁
      fs_add_system_fields time_string is_repeat in_cooldown ts fs₂)
        ≡ some fs)
      × (map (λ (f : Field). f.name) fs.fields ≡ map (λ (d : FieldDef). d.name) all_fields)
unfolding udp_words all_fields fs_new_fieldset fs_add_ip_fields fs_add_system_fields
    fs_add_constchar fs_add_bool fs_add_uint64 fs_add_null_icmp
udp_record order inet_ntoa time_string ip sport dport size type len value is_repeat in_cooldown ts =
    (_, refl, refl)

other_words : (ℕ → Str) → Ip → Option (Ip × ℕ × ℕ × Str) → Fieldset → Option Fieldset
other_words inet_ntoa ip none fs = process_other fs
other_words inet_ntoa ip (some (quoted, icmp_type, icmp_code, unreach)) fs = do
  fs₁ ← fs_add_constchar fs (ascii "classification") (ascii "icmp")
  fs₂ ← add_no_udp_fields fs₁
  icmp_part inet_ntoa ip quoted icmp_type icmp_code unreach fs₂

other_record :
    (order : ByteOrder) (inet_ntoa : ℕ → Str) (time_string : Timespec → Str) (ip : Ip)
    (message : Option (Ip × ℕ × ℕ × Str)) (is_repeat in_cooldown : Bool) (ts : Timespec)
    → (fs : Fieldset) × ((do
      fs₁ ← fs_add_ip_fields order inet_ntoa ip (fs_new_fieldset (some all_fields))
      fs₂ ← other_words inet_ntoa ip message fs₁
      fs_add_system_fields time_string is_repeat in_cooldown ts fs₂)
        ≡ some fs)
      × (map (λ (f : Field). f.name) fs.fields ≡ map (λ (d : FieldDef). d.name) all_fields)
unfolding other_words process_other add_no_udp_fields icmp_part all_fields fs_new_fieldset
    fs_add_ip_fields fs_add_system_fields fs_add_constchar fs_add_bool fs_add_uint64
    fs_add_null_icmp fs_add_null
other_record order inet_ntoa time_string ip none is_repeat in_cooldown ts = (_, refl, refl)
other_record order inet_ntoa time_string ip (some (quoted, icmp_type, icmp_code, unreach)) is_repeat
      in_cooldown ts =
    (_, refl, refl)

process_udp-words :
    (order : ByteOrder) (mem : Memory) (at udp len type size : ℕ) (value : FieldVal) (fs : Fieldset)
    → ((fs : Fieldset)
        → add_udp_data order mem at udp len fs
          ≡ fs_add_word fs (ascii "data") type false size value)
    → process_udp order mem at udp len fs
      ≡ udp_words
          (order.ntohs (udp_at order mem udp).uh_sport)
          (order.ntohs (udp_at order mem udp).uh_dport)
          (order.ntohs (udp_at order mem udp).uh_ulen)
          type
          size
          value
          fs
unfolding process_udp udp_words
process_udp-words order mem at udp len type size value fs same =
    let header = udp_at order mem udp in
    pointwise (fs_add_constchar fs (ascii "classification") (ascii "udp")) _ _ (λ fs₁.
      pointwise (fs_add_bool fs₁ (ascii "success") 1) _ _ (λ fs₂.
        pointwise (fs_add_uint64 fs₂ (ascii "sport") (order.ntohs header.uh_sport)) _ _ (λ fs₃.
          pointwise (fs_add_uint64 fs₃ (ascii "dport") (order.ntohs header.uh_dport)) _ _ (λ fs₄.
            pointwise (fs_add_uint64 fs₄ (ascii "udp_pkt_size") (order.ntohs header.uh_ulen)) _ _
              (λ fs₅. bind_cong {f = fs_add_null_icmp} (same fs₅) (λ fs₆. refl))))))

-- The headers that a frame of `len` bytes claims to have lie within it.
pub record IsWhole (mem : Memory) (len : ℕ) : Type 0 where
  pub udp_fits : (mem.ip_at 14).ip_p ≡ 17 → 4 * (mem.ip_at 14).ip_hl + 8 ≤ len
  pub icmp_fits : (mem.ip_at 14).ip_p ≡ 1 → 4 * (mem.ip_at 14).ip_hl + 28 ≤ len

packet_udp :
    (order : ByteOrder) (inet_ntoa : ℕ → Str) (mem : Memory) (len : ℕ) (fs : Fieldset)
    → IsWhole mem len
    → (mem.ip_at 14).ip_p ≡ 17
    → udp_process_packet order inet_ntoa mem len fs
      ≡ process_udp order mem 14 (14 + 4 * (mem.ip_at 14).ip_hl) len fs
unfolding udp_process_packet get_udp_header
packet_udp order inet_ntoa mem len fs ok kind =
    let is_udp : ((mem.ip_at 14).ip_p == 17) ≡ true = (==_iff _ 17).1 kind in
    rw (udp_process_packet, is_udp, get_udp_header, le→ltb _ _ (ok.udp_fits kind)) refl

pub get_icmp_header-found :
    (ip : Ip) (len : ℕ)
    → 4 * ip.ip_hl + 28 ≤ len
    → get_icmp_header ip 14 len ≡ some (14 + 4 * ip.ip_hl)
unfolding get_icmp_header
get_icmp_header-found ip len fits = rw (le→ltb _ _ fits) refl

pub get_inner_ip_header-found :
    (icmp len : ℕ) → 28 ≤ len → get_inner_ip_header icmp len ≡ some (icmp + 8)
unfolding get_inner_ip_header
get_inner_ip_header-found icmp len fits = rw (le→ltb len 28 fits) refl

packet_icmp :
    (order : ByteOrder) (inet_ntoa : ℕ → Str) (mem : Memory) (len : ℕ) (unreach : Str)
    (fs : Fieldset)
    → IsWhole mem len
    → (mem.ip_at 14).ip_p ≡ 1
    → let icmp = 14 + 4 * (mem.ip_at 14).ip_hl in
      unreach_str (mem.icmp_code_at icmp) ≡ some unreach
      → udp_process_packet order inet_ntoa mem len fs
        ≡ other_words inet_ntoa
            (mem.ip_at 14)
            (some (mem.ip_at (icmp + 8), mem.icmp_type_at icmp, mem.icmp_code_at icmp, unreach))
            fs
unfolding udp_process_packet process_icmp_udp other_words
packet_icmp order inet_ntoa mem len unreach fs ok kind named =
    let icmp = 14 + 4 * (mem.ip_at 14).ip_hl in
    let fits = ok.icmp_fits kind in
    let no_udp : ((mem.ip_at 14).ip_p == 17) ≡ false = ground (arith, kind) in
    let is_icmp : ((mem.ip_at 14).ip_p == 1) ≡ true = (==_iff _ 1).1 kind in
    let found = get_icmp_header-found (mem.ip_at 14) len fits in
    let quoted = get_inner_ip_header-found icmp len (omega arith) in
    rw (udp_process_packet, no_udp, is_icmp)
      (pointwise (fs_add_constchar fs (ascii "classification") (ascii "icmp")) _ _ (λ fs₁.
        pointwise (add_no_udp_fields fs₁) _ _
          (λ fs₂. populate inet_ntoa mem 14 len icmp (icmp + 8) unreach fs₂ found quoted named)))

packet_other :
    (order : ByteOrder) (inet_ntoa : ℕ → Str) (mem : Memory) (len : ℕ) (fs : Fieldset)
    → ((mem.ip_at 14).ip_p == 17) ≡ false
    → ((mem.ip_at 14).ip_p == 1) ≡ false
    → udp_process_packet order inet_ntoa mem len fs ≡ other_words inet_ntoa (mem.ip_at 14) none fs
unfolding udp_process_packet other_words
packet_other order inet_ntoa mem len fs no_udp no_icmp =
    rw (udp_process_packet, no_udp, no_icmp) refl

-- A frame whose headers lie within its length gives a record without `log_fatal`, whatever its
-- protocol is, and the names of its fields are those of the definitions of the IP header, the UDP
-- module and the system, in order.
pub udp_record_of-names :
    (order : ByteOrder) (inet_ntoa : ℕ → Str) (time_string : Timespec → Str) (mem : Memory)
    (len : ℕ) (is_repeat in_cooldown : Bool) (ts : Timespec)
    → IsWhole mem len
    → (fs : Fieldset) × (udp_record_of order inet_ntoa time_string mem len is_repeat in_cooldown ts
        ≡ some fs)
      × (map (λ (f : Field). f.name) fs.fields
          ≡ map (λ (d : FieldDef). d.name) (ip_fields ++ udp_fields ++ sys_fields))
unfolding udp_record_of all_fields
udp_record_of-names order inet_ntoa time_string mem len is_repeat in_cooldown ts ok =
    let at = 14 + 4 * (mem.ip_at 14).ip_hl in
    let start =
      fs_add_ip_fields order inet_ntoa (mem.ip_at 14) (fs_new_fieldset (some all_fields)) in
    let finish = fs_add_system_fields time_string is_repeat in_cooldown ts in
    elim (Bool-cases ((mem.ip_at 14).ip_p == 17)) [
      | inl is_udp ↦
          let kind = (==_iff (mem.ip_at 14).ip_p 17).0 is_udp in
          let header = udp_at order mem at in
          let (type, size, value, word) = data_word order mem 14 at len in
          let (fs, run, names) =
            udp_record order inet_ntoa time_string (mem.ip_at 14) (order.ntohs header.uh_sport)
              (order.ntohs header.uh_dport) (order.ntohs header.uh_ulen) type size value is_repeat
              in_cooldown ts in
          let same = pointwise start _ _ (λ fs₁.
            bind_cong {f = finish}
              (packet_udp order inet_ntoa mem len fs₁ ok kind
                ∙ process_udp-words order mem 14 at len type size value fs₁ word)
              (λ fs₂. refl)) in
          (fs, same ∙ run, names)
      | inr no_udp ↦ elim (Bool-cases ((mem.ip_at 14).ip_p == 1)) [
        | inl is_icmp ↦
            let kind = (==_iff (mem.ip_at 14).ip_p 1).0 is_icmp in
            let (unreach, named) = unreach_known (mem.icmp_code_at at) in
            let (fs, run, names) =
              other_record order inet_ntoa time_string (mem.ip_at 14)
                (some (mem.ip_at (at + 8), mem.icmp_type_at at, mem.icmp_code_at at, unreach))
                is_repeat in_cooldown ts in
            let same = pointwise start _ _ (λ fs₁.
              bind_cong {f = finish} (packet_icmp order inet_ntoa mem len unreach fs₁ ok kind named)
                (λ fs₂. refl)) in
            (fs, same ∙ run, names)
        | inr no_icmp ↦
            let (fs, run, names) =
              other_record order inet_ntoa time_string (mem.ip_at 14) none is_repeat in_cooldown
                ts in
            let same = pointwise start _ _ (λ fs₁.
              bind_cong {f = finish} (packet_other order inet_ntoa mem len fs₁ no_udp no_icmp)
                (λ fs₂. refl)) in
            (fs, same ∙ run, names)
      ]
    ]
