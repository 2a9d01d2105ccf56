-- ===== src/Synscan/Record.antt =====
-- src/probe_modules/module_tcp_synscan.c, src/probe_modules/probe_modules.c: the fields of an
-- answer's record come in the order of their definitions.
use zmap_embedded_ip.Base.{
  ℕ, ◌+◌, ◌*◌, ◌≤◌, ◌<◌, ◌≡◌, refl, ◌∙◌, ◌⊎◌, inl, inr, Bool, false, Option, some, List, ◌++◌, map,
  ltb, le→ltb, ◌>>=◌, bind_cong, pointwise, arith,
}
use zmap_embedded_ip.Fieldset.{Str, FieldDef, Field, Fieldset, fs_new_fieldset}
use zmap_embedded_ip.Packet.{
  ByteOrder, Memory, Ip, Tcp, get_ip_header, get_tcp_header, get_icmp_header, get_inner_ip_header,
}
use zmap_embedded_ip.Packet.Icmp.{unreach_str}
use zmap_embedded_ip.ProbeModules.{
  ip_fields, sys_fields, Timespec, fs_add_ip_fields, fs_add_system_fields,
}
use zmap_embedded_ip.Synscan.Parse.{TcpOpts, tcp_opts}
use zmap_embedded_ip.Synscan.Read.{tcp_opts-ends}
use zmap_embedded_ip.Synscan.Process.{fields, header_at, synscan_process_packet}
use zmap_embedded_ip.Synscan.Words.{
  tcp_words, process_tcp-words, unreach_known, icmp_words, process_icmp-words,
}

all_fields : List FieldDef
all_fields = ip_fields ++ fields ++ sys_fields

-- The steps on an answer's record, from the fields of the IP header to those of the system.
unfoldable pub record_of :
    ByteOrder → (ℕ → Str) → (Timespec → Str) → Memory → ℕ → Bool → Bool → Timespec → Option Fieldset
unfolding all_fields fs_new_fieldset fs_add_ip_fields synscan_process_packet fs_add_system_fields
record_of order inet_ntoa time_string mem len is_repeat in_cooldown ts = do
  fs₁ ← fs_add_ip_fields order inet_ntoa (mem.ip_at 14) (fs_new_fieldset (some all_fields))
  fs₂ ← synscan_process_packet order inet_ntoa mem len fs₁
  fs_add_system_fields time_string is_repeat in_cooldown ts fs₂

tcp_record :
    (order : ByteOrder) (inet_ntoa : ℕ → Str) (time_string : Timespec → Str) (ip : Ip) (tcp : Tcp)
    (opts : TcpOpts) (is_repeat in_cooldown : Bool) (ts : Timespec)
    → (fs : Fieldset) × ((do
      fs₁ ← fs_add_ip_fields order inet_ntoa ip (fs_new_fieldset (some all_fields))
      fs₂ ← tcp_words order tcp opts fs₁
      fs_add_system_fields time_string is_repeat in_cooldown ts fs₂)
        ≡ some fs)
      × (map (λ (f : Field). f.name) fs.fields ≡ map (λ (d : FieldDef). d.name) all_fields)
unfolding tcp_words all_fields fs_new_fieldset fs_add_ip_fields fs_add_system_fields
tcp_record order inet_ntoa time_string ip tcp opts is_repeat in_cooldown ts = (_, refl, refl)

icmp_record :
    (order : ByteOrder) (inet_ntoa : ℕ → Str) (time_string : Timespec → Str) (ip quoted : Ip)
    (icmp_type icmp_code : ℕ) (unreach : Str) (is_repeat in_cooldown : Bool) (ts : Timespec)
    → (fs : Fieldset) × ((do
      fs₁ ← fs_add_ip_fields order inet_ntoa ip (fs_new_fieldset (some all_fields))
      fs₂ ← icmp_words inet_ntoa ip quoted icmp_type icmp_code unreach fs₁
      fs_add_system_fields time_string is_repeat in_cooldown ts fs₂)
        ≡ some fs)
      × (map (λ (f : Field). f.name) fs.fields ≡ map (λ (d : FieldDef). d.name) all_fields)
unfolding icmp_words all_fields fs_new_fieldset fs_add_ip_fields fs_add_system_fields
icmp_record order inet_ntoa time_string ip quoted icmp_type icmp_code unreach is_repeat in_cooldown
      ts =
    (_, refl, refl)

-- What `synscan_validate_packet` has made sure of before a frame of `len` bytes is processed, and
-- the range of a header's length field.
pub record IsReadable (mem : Memory) (len : ℕ) : Type 0 where
  pub frame : 14 ≤ len
  pub protocol : ((mem.ip_at 14).ip_p ≡ 6) ⊎ ((mem.ip_at 14).ip_p ≡ 1)
  pub tcp_fits : (mem.ip_at 14).ip_p ≡ 6 → 4 * (mem.ip_at 14).ip_hl + 20 ≤ len
  pub icmp_fits : (mem.ip_at 14).ip_p ≡ 1 → 4 * (mem.ip_at 14).ip_hl + 28 ≤ len
  pub offset : (at : ℕ) → (mem.tcp_at at).th_off < 16

packet_tcp :
    (order : ByteOrder) (inet_ntoa : ℕ → Str) (mem : Memory) (len : ℕ) (opts : TcpOpts)
    (fs : Fieldset)
    → IsReadable mem len
    → (mem.ip_at 14).ip_p ≡ 6
    → tcp_opts (header_at mem (14 + 4 * (mem.ip_at 14).ip_hl)) ≡ some opts
    → synscan_process_packet order inet_ntoa mem len fs
      ≡ tcp_words order (mem.tcp_at (14 + 4 * (mem.ip_at 14).ip_hl)) opts fs
unfolding synscan_process_packet get_ip_header get_tcp_header
packet_tcp order inet_ntoa mem len opts fs ok is_tcp found =
    let frame : ltb len 14 ≡ false = le→ltb _ _ ok.frame in
    let fits : ltb len (4 * (mem.ip_at 14).ip_hl + 20) ≡ false = le→ltb _ _ (ok.tcp_fits is_tcp) in
    rw (synscan_process_packet, frame, is_tcp, fits)
      (process_tcp-words order mem (14 + 4 * (mem.ip_at 14).ip_hl) opts fs found)

packet_icmp :
    (order : ByteOrder) (inet_ntoa : ℕ → Str) (mem : Memory) (len : ℕ) (unreach : Str)
    (fs : Fieldset)
    → IsReadable mem len
    → (mem.ip_at 14).ip_p ≡ 1
    → let icmp = 14 + 4 * (mem.ip_at 14).ip_hl in
      unreach_str (mem.icmp_code_at icmp) ≡ some unreach
      → synscan_process_packet order inet_ntoa mem len fs
        ≡ icmp_words inet_ntoa
            (mem.ip_at 14)
            (mem.ip_at (icmp + 8))
            (mem.icmp_type_at icmp)
            (mem.icmp_code_at icmp)
            unreach
            fs
unfolding synscan_process_packet get_ip_header get_icmp_header get_inner_ip_header icmp_words
packet_icmp order inet_ntoa mem len unreach fs ok is_icmp named =
    let icmp = 14 + 4 * (mem.ip_at 14).ip_hl in
    let frame : ltb len 14 ≡ false = le→ltb _ _ ok.frame in
    let fits = ok.icmp_fits is_icmp in
    let found : get_icmp_header (mem.ip_at 14) 14 len ≡ some icmp =
      rw (get_icmp_header, le→ltb len (4 * (mem.ip_at 14).ip_hl + 28) fits) refl in
    let quoted : get_inner_ip_header icmp len ≡ some (icmp + 8) =
      rw (get_inner_ip_header, le→ltb len 28 (omega arith)) refl in
    rw (synscan_process_packet, frame, is_icmp)
      (process_icmp-words inet_ntoa mem 14 len icmp (icmp + 8) unreach fs found quoted named)

-- For a readable TCP or ICMP frame, the record of an answer is completed without `log_fatal`, and its
-- fields have the names of the definitions of the IP header, the module and the system, in order.
pub record_of-names :
    (order : ByteOrder) (inet_ntoa : ℕ → Str) (time_string : Timespec → Str) (mem : Memory)
    (len : ℕ) (is_repeat in_cooldown : Bool) (ts : Timespec)
    → IsReadable mem len
    → (fs : Fieldset) × (record_of order inet_ntoa time_string mem len is_repeat in_cooldown ts
        ≡ some fs)
      × (map (λ (f : Field). f.name) fs.fields
          ≡ map (λ (d : FieldDef). d.name) (ip_fields ++ fields ++ sys_fields))
unfolding record_of all_fields
record_of-names order inet_ntoa time_string mem len is_repeat in_cooldown ts ok = elim ok.protocol [
  | inl is_tcp ↦
      let at = 14 + 4 * (mem.ip_at 14).ip_hl in
      let (opts, found) = tcp_opts-ends (header_at mem at) (ok.offset at) in
      let (fs, run, names) =
        tcp_record order inet_ntoa time_string (mem.ip_at 14) (mem.tcp_at at) opts is_repeat
          in_cooldown ts in
      let same =
        pointwise
          (fs_add_ip_fields order inet_ntoa (mem.ip_at 14) (fs_new_fieldset (some all_fields))) _ _
          (λ fs₁.
            bind_cong {f = fs_add_system_fields time_string is_repeat in_cooldown ts}
              (packet_tcp order inet_ntoa mem len opts fs₁ ok is_tcp found) (λ fs₂. refl)) in
      (fs, same ∙ run, names)
  | inr is_icmp ↦
      let icmp = 14 + 4 * (mem.ip_at 14).ip_hl in
      let (unreach, named) = unreach_known (mem.icmp_code_at icmp) in
      let (fs, run, names) =
        icmp_record order inet_ntoa time_string (mem.ip_at 14) (mem.ip_at (icmp + 8))
          (mem.icmp_type_at icmp) (mem.icmp_code_at icmp) unreach is_repeat in_cooldown ts in
      let same =
        pointwise
          (fs_add_ip_fields order inet_ntoa (mem.ip_at 14) (fs_new_fieldset (some all_fields))) _ _
          (λ fs₁.
            bind_cong {f = fs_add_system_fields time_string is_repeat in_cooldown ts}
              (packet_icmp order inet_ntoa mem len unreach fs₁ ok is_icmp named) (λ fs₂. refl)) in
      (fs, same ∙ run, names)
]
