-- ===== src/Dns/Names.antt =====
-- src/probe_modules/module_dns.c: the fields of an answer's record come in the order of their
-- definitions.
use zmap_embedded_ip.Base.{
  ℕ, ◌+◌, ◌*◌, ◌≡◌, ◌⊎◌, refl, ◌∙◌, inl, inr, Bool, true, false, ◌&&◌, some, List, ◌++◌, map,
  le→ltb, ◌==◌, ==_iff, bind_cong, pointwise, to_nat, arith,
}
use zmap_embedded_ip.Fieldset.{Str, FieldDef, Field, Fieldset, fs_new_fieldset}
use zmap_embedded_ip.Fieldset.Sanitize.{IsStrings}
use zmap_embedded_ip.Packet.{ByteOrder, Memory, get_udp_header}
use zmap_embedded_ip.ProbeModules.{ip_fields, sys_fields, Timespec, fs_add_ip_fields}
use zmap_embedded_ip.Synscan.Words.{unreach_known}
use zmap_embedded_ip.Udp.{udp_at}
use zmap_embedded_ip.Udp.Record.{IsWhole}
use zmap_embedded_ip.Dns.Records.{Printers}
use zmap_embedded_ip.Dns.Process.{Question, matches_length, is_valid_answer, bits}
use zmap_embedded_ip.Dns.Answer.{
  dns_fields, message, process_dns, process_icmp_dns, dns_process_packet,
}
use zmap_embedded_ip.Dns.Complete.{IsModest}
use zmap_embedded_ip.Dns.Words.{
  all_fields, with_system, dns_record_of, dns_record, process_dns-words, icmp_record,
  process_icmp_dns-words, add_message-words,
}

module _ (order : ByteOrder) (inet_ntoa : ℕ → Str) (time_string : Timespec → Str) (print : Printers)
    (questions : List Question) (validation₂ offset : ℕ) (mem : Memory) (len : ℕ) where
  -- What is left of the UDP header of a frame, and its message.
  abbrev udp_place : ℕ
  udp_place = 14 + 4 * (mem.ip_at 14).ip_hl

  -- What `dns_validate_packet` has made sure of before a frame is processed: its headers lie within
  -- it, and a UDP packet is as long as one of the queries. A valid answer is modest in its records.
  pub record IsReadable (ok : IsStrings print.strings) : Type 0 where
    pub protocol : ((mem.ip_at 14).ip_p ≡ 17) ⊎ ((mem.ip_at 14).ip_p ≡ 1)
    pub whole : IsWhole mem len
    pub long :
        (mem.ip_at 14).ip_p ≡ 17
        → matches_length questions (order.ntohs (udp_at order mem udp_place).uh_ulen) ≡ true
    pub modest :
        (mem.ip_at 14).ip_p ≡ 17
        → (let dns = message mem udp_place in
            let udp_len = order.ntohs (udp_at order mem udp_place).uh_ulen in
            is_valid_answer order dns udp_len
                (order.word (dns 0) (dns 1))
                validation₂
                offset
                questions
              ≡ true
            → IsModest print ok dns udp_len)

  packet_udp :
      (heap : List Fieldset) (fs : Fieldset)
      → IsWhole mem len
      → (mem.ip_at 14).ip_p ≡ 17
      → dns_process_packet order inet_ntoa print questions validation₂ offset mem len heap fs
        ≡ process_dns order print questions validation₂ offset mem udp_place heap fs
  unfolding dns_process_packet get_udp_header
  packet_udp heap fs whole kind =
      let is_udp : ((mem.ip_at 14).ip_p == 17) ≡ true = (==_iff _ 17).1 kind in
      rw (dns_process_packet, is_udp, get_udp_header, le→ltb _ _ (whole.udp_fits kind)) refl

  packet_icmp :
      (heap : List Fieldset) (fs : Fieldset)
      → (mem.ip_at 14).ip_p ≡ 1
      → dns_process_packet order inet_ntoa print questions validation₂ offset mem len heap fs
        ≡ process_icmp_dns inet_ntoa mem len heap fs
  unfolding dns_process_packet
  packet_icmp heap fs kind =
      let no_udp : ((mem.ip_at 14).ip_p == 17) ≡ false = ground (arith, kind) in
      let is_icmp : ((mem.ip_at 14).ip_p == 1) ≡ true = (==_iff _ 1).1 kind in
      rw (dns_process_packet, no_udp, is_icmp) refl

  -- With a `memcpy` that copies overlapping bytes too, which `sanitize_utf8` relies on and the C
  -- standard does not promise: the record of a UDP or ICMP frame whose headers lie within it is
  -- completed without `log_fatal`, a failed assertion or a `memcpy` of a negative size, and the
  -- names of its fields are those of the definitions of the IP header, the DNS module and the
  -- system, in order. The conditions on a UDP packet are that it is as long as one of the queries,
  -- and that a valid answer announces at most 127 records for each section and has no TXT record
  -- without data behind a name at any offset.
  pub dns_record_of-names :
      (ok : IsStrings print.strings) (is_repeat in_cooldown : Bool) (ts : Timespec)
      (heap : List Fieldset)
      → IsReadable ok
      → (fs : Fieldset) × (heap' : List Fieldset) × (dns_record_of order inet_ntoa time_string print
            questions validation₂ offset mem len is_repeat in_cooldown ts heap
          ≡ some (fs, heap'))
        × (map (λ (f : Field). f.name) fs.fields
            ≡ map (λ (d : FieldDef). d.name) (ip_fields ++ dns_fields ++ sys_fields))
  unfolding dns_record_of all_fields
  dns_record_of-names ok is_repeat in_cooldown ts heap readable =
      let start =
        fs_add_ip_fields order inet_ntoa (mem.ip_at 14) (fs_new_fieldset (some all_fields)) in
      let finish = with_system time_string is_repeat in_cooldown ts in
      elim readable.protocol [
        | inl kind ↦
            let h = udp_at order mem udp_place in
            let udp_len = order.ntohs h.uh_ulen in
            let dns = message mem udp_place in
            let valid =
              is_valid_answer order dns udp_len (order.word (dns 0) (dns 1)) validation₂ offset
                questions in
            let (b, same) =
              add_message-words print ok dns udp_len valid heap (readable.modest kind) in
            let (fs, runs, names) =
              dns_record order inet_ntoa time_string (mem.ip_at 14) (order.ntohs h.uh_sport)
                (order.ntohs h.uh_dport) (to_nat valid)
                (to_nat (valid && bits (dns 2) 7 1 == 1 && bits (dns 3) 0 4 == 0)) udp_len
                (udp_place + 8) valid dns b is_repeat in_cooldown ts in
            let steps = pointwise start _ _ (λ fs₁.
              bind_cong {f = finish}
                (packet_udp heap fs₁ readable.whole kind
                  ∙ process_dns-words order print questions validation₂ offset mem udp_place b heap
                      fs₁ (readable.long kind) same)
                (λ r. refl)) in
            (fs, b.heap, steps ∙ runs, names)
        | inr kind ↦
            let (unreach, named) = unreach_known (mem.icmp_code_at udp_place) in
            let (fs, heap', runs, names) =
              icmp_record order inet_ntoa time_string (mem.ip_at 14) (mem.ip_at (udp_place + 8))
                (mem.icmp_type_at udp_place) (mem.icmp_code_at udp_place) unreach len heap is_repeat
                in_cooldown ts in
            let steps = pointwise start _ _ (λ fs₁.
              bind_cong {f = finish}
                (packet_icmp heap fs₁ kind
                  ∙ process_icmp_dns-words inet_ntoa mem len unreach heap fs₁
                      (readable.whole.icmp_fits kind) named)
                (λ r. refl)) in
            (fs, heap', steps ∙ runs, names)
      ]
