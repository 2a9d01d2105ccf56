-- ===== src/Udp.antt =====
-- src/probe_modules/module_udp.c: the answers to UDP probes that are accepted, and their fields.
-- As in Synscan.antt, a pointer into a packet is an offset, and `none` stands for `log_fatal`, a
-- failed assertion or the use of NULL as a header.
pub mod Answer
pub mod Record
use zmap_embedded_ip.Base.{
  ℕ, ◌+◌, ◌-◌, ◌*◌, ◌^◌, Bool, true, false, ◌&&◌, ◌||◌, not, Option, none, some, List, ◌∷◌, ◌++◌,
  ltb, ◌==◌, if◌then◌else◌, ◌>>=◌, u16, u32,
}
use zmap_embedded_ip.Fieldset.{Str, FieldDef, Fieldset, ascii}
use zmap_embedded_ip.Fieldset.Words.{
  fs_add_null, fs_add_uint64, fs_add_constchar, fs_add_bool, fs_add_binary,
}
use zmap_embedded_ip.Ports.{PortConf}
use zmap_embedded_ip.Packet.{
  ByteOrder, Memory, SourcePorts, udp_size, check_dst_port, check_src_port, get_udp_header,
  icmp_helper_validate,
}
use zmap_embedded_ip.Packet.Icmp.{
  icmp_fields, classification_success_fields, fs_add_null_icmp, fs_populate_icmp_from_iphdr,
}
use zmap_embedded_ip.Synscan.{ipproto_icmp}

abbrev pub ipproto_udp : ℕ
ipproto_udp = 17

-- The header `udphdr`, with the words as they stand in memory.
pub record Udp : Type 0 where
  pub uh_sport : ℕ
  pub uh_dport : ℕ
  pub uh_ulen : ℕ

-- The 16-bit word at an offset.
abbrev pub word_at : ByteOrder → Memory → ℕ → ℕ
word_at order mem at = order.word (mem.byte_at at) (mem.byte_at (at + 1))

unfoldable pub udp_at : ByteOrder → Memory → ℕ → Udp
udp_at order mem at = record {
  uh_sport = word_at order mem at;
  uh_dport = word_at order mem (at + 2);
  uh_ulen = word_at order mem (at + 4);
}

-- The branch of a UDP packet; `validate_port` is whether it is SRC_PORT_VALIDATION.
unfoldable pub validate_udp :
    ByteOrder
    → SourcePorts
    → (ℕ → Bool)
    → PortConf
    → Memory
    → (len src_ip : ℕ) → (ℕ → ℕ)
    → (num_ports : ℕ) → (validate_port : Bool) → Bool
validate_udp order conf is_allowed ports mem len src_ip validation num_ports validate_port =
    elim (get_udp_header (mem.ip_at 0) 0 len) [
      | none ↦ false
      | some at ↦
          let udp = udp_at order mem at in
          check_dst_port conf (order.ntohs udp.uh_dport) num_ports (validation 1)
          && is_allowed src_ip
          && (not validate_port || check_src_port (order.ntohs udp.uh_sport) ports)
    ]

-- The branch of an ICMP packet, from the quoted probe on; its header is used without a check.
unfoldable pub validate_quoted_udp :
    ByteOrder → SourcePorts → PortConf → Memory → (inner inner_len : ℕ) → (ℕ → ℕ) → ℕ → Option Bool
validate_quoted_udp order conf ports mem inner inner_len validation num_ports =
    elim (get_udp_header (mem.ip_at inner) inner inner_len) [
      | none ↦ none
      | some at ↦
          let udp = udp_at order mem at in
          some (
            check_src_port (order.ntohs udp.uh_dport) ports
            && check_dst_port conf (order.ntohs udp.uh_sport) num_ports (validation 1))
    ]

-- The packet's IP header is at 0; true is PACKET_VALID.
unfoldable pub udp_do_validate_packet :
    ByteOrder
    → SourcePorts
    → (ℕ → Bool)
    → PortConf
    → Memory
    → (len src_ip : ℕ) → (ℕ → ℕ)
    → (num_ports : ℕ) → (validate_port : Bool) → Option Bool
udp_do_validate_packet order conf is_allowed ports mem len src_ip validation num_ports
      validate_port =
    if (mem.ip_at 0).ip_p == ipproto_udp
    then some
        (validate_udp order conf is_allowed ports mem len src_ip validation num_ports validate_port)
    else if (mem.ip_at 0).ip_p == ipproto_icmp
    then elim (icmp_helper_validate is_allowed mem len udp_size) [
      | none ↦ some false
      | some (inner, inner_len) ↦
          validate_quoted_udp order conf ports mem inner inner_len validation num_ports
    ]
    else some false

-- The length of the field `data` of a packet with the IP header at `at`: the UDP length, cut to
-- what was captured and to the length of the IP packet, both without the headers, as `uint32_t`.
unfoldable pub udp_data_len : (uh_ulen ip_hl ip_len len : ℕ) → ℕ
udp_data_len uh_ulen ip_hl ip_len len =
    let overhead = udp_size + ip_hl * 4 in
    let max_rlen = u32 (len + 2 ^ 32 - overhead) in
    let max_ilen = u32 (ip_len + 2 ^ 32 - overhead) in
    let captured = if ltb max_rlen uh_ulen then u16 max_rlen else uh_ulen in
    if ltb max_ilen captured then u16 max_ilen else captured

unfoldable pub add_udp_data : ByteOrder → Memory → (at udp len : ℕ) → Fieldset → Option Fieldset
add_udp_data order mem at udp len fs =
    let uh_ulen = order.ntohs (udp_at order mem udp).uh_ulen in
    if ltb udp_size uh_ulen
    then fs_add_binary fs (ascii "data")
        (udp_data_len uh_ulen (mem.ip_at at).ip_hl (order.ntohs (word_at order mem (at + 2))) len)
        (udp + udp_size) false
    else fs_add_null fs (ascii "data")

unfoldable pub add_no_udp_fields : Fieldset → Option Fieldset
add_no_udp_fields fs = do
  fs₁ ← fs_add_bool fs (ascii "success") 0
  fs₂ ← fs_add_null fs₁ (ascii "sport")
  fs₃ ← fs_add_null fs₂ (ascii "dport")
  fs₄ ← fs_add_null fs₃ (ascii "udp_pkt_size")
  fs_add_null fs₄ (ascii "data")

unfoldable pub process_udp : ByteOrder → Memory → (at udp len : ℕ) → Fieldset → Option Fieldset
process_udp order mem at udp len fs = do
  let header = udp_at order mem udp
  fs₁ ← fs_add_constchar fs (ascii "classification") (ascii "udp")
  fs₂ ← fs_add_bool fs₁ (ascii "success") 1
  fs₃ ← fs_add_uint64 fs₂ (ascii "sport") (order.ntohs header.uh_sport)
  fs₄ ← fs_add_uint64 fs₃ (ascii "dport") (order.ntohs header.uh_dport)
  fs₅ ← fs_add_uint64 fs₄ (ascii "udp_pkt_size") (order.ntohs header.uh_ulen)
  fs₆ ← add_udp_data order mem at udp len fs₅
  fs_add_null_icmp fs₆

-- The other two branches: the quoted probe of an ICMP message, and no further fields.
unfoldable pub process_icmp_udp : (ℕ → Str) → Memory → (at len : ℕ) → Fieldset → Option Fieldset
process_icmp_udp inet_ntoa mem at len fs = do
  fs₁ ← fs_add_constchar fs (ascii "classification") (ascii "icmp")
  fs₂ ← add_no_udp_fields fs₁
  fs_populate_icmp_from_iphdr inet_ntoa mem at len fs₂

unfoldable pub process_other : Fieldset → Option Fieldset
process_other fs = do
  fs₁ ← fs_add_constchar fs (ascii "classification") (ascii "other")
  fs₂ ← add_no_udp_fields fs₁
  fs_add_null_icmp fs₂

-- The packet starts with the Ethernet header, and `len` counts from there.
unfoldable pub udp_process_packet : ByteOrder → (ℕ → Str) → Memory → ℕ → Fieldset → Option Fieldset
udp_process_packet order inet_ntoa mem len fs =
    if (mem.ip_at 14).ip_p == ipproto_udp
    then elim (get_udp_header (mem.ip_at 14) 14 len) [
      | none ↦ none
      | some udp ↦ process_udp order mem 14 udp len fs
    ]
    else if (mem.ip_at 14).ip_p == ipproto_icmp
    then process_icmp_udp inet_ntoa mem 14 len fs
    else process_other fs

abbrev pub udp_fields : List FieldDef
udp_fields =
    classification_success_fields
    ++ record { name = ascii "sport"; type_name = ascii "int"; desc = ascii "UDP source port" }
      ∷ record {
        name = ascii "dport";
        type_name = ascii "int";
        desc = ascii "UDP destination port";
      }
      ∷ record {
        name = ascii "udp_pkt_size";
        type_name = ascii "int";
        desc = ascii "UDP packet length";
      }
      ∷ record { name = ascii "data"; type_name = ascii "binary"; desc = ascii "UDP payload" }
      ∷ icmp_fields
