-- ===== src/Dns/Answer.antt =====
-- src/probe_modules/module_dns.c: the fields of an answer, `dns_process_packet`.
use zmap_embedded_ip.Base.{
  ℕ, ◌+◌, ◌-◌, Bool, true, false, ◌&&◌, not, Option, none, some, List, [], ◌∷◌, ◌++◌, ◌==◌,
  if◌then◌else◌, ◌>>=◌, to_nat,
}
use zmap_embedded_ip.Fieldset.{Str, ascii, FieldDef, Fieldset}
use zmap_embedded_ip.Fieldset.Words.{
  fs_add_null, fs_add_string, fs_add_uint64, fs_add_constchar, fs_add_bool, fs_add_binary,
}
use zmap_embedded_ip.Packet.{ByteOrder, Memory, get_udp_header}
use zmap_embedded_ip.Packet.Icmp.{
  icmp_fields, classification_success_fields, fs_add_null_icmp, fs_populate_icmp_from_iphdr,
}
use zmap_embedded_ip.Synscan.{ipproto_icmp}
use zmap_embedded_ip.Udp.{ipproto_udp, udp_at}
use zmap_embedded_ip.Dns.Records.{Printers}
use zmap_embedded_ip.Dns.Process.{
  Question, matches_length, is_valid_answer, bits, dns_add_null_fs, add_dns_fields,
}

abbrev pub dns_fields : List FieldDef
dns_fields =
    (record { name = ascii "sport"; type_name = ascii "int"; desc = ascii "UDP source port" }
      ∷ record {
        name = ascii "dport";
        type_name = ascii "int";
        desc = ascii "UDP destination port";
      }
      ∷ [])
    ++ classification_success_fields
    ++ (record {
      name = ascii "app_success";
      type_name = ascii "bool";
      desc = ascii "Is the RA bit set with no error code?";
    }
        ∷ [])
    ++ icmp_fields
    ++ (record { name = ascii "udp_len"; type_name = ascii "int"; desc = ascii "UDP packet length" }
        ∷ record {
          name = ascii "dns_id";
          type_name = ascii "int";
          desc = ascii "DNS transaction ID";
        }
        ∷ record {
          name = ascii "dns_rd";
          type_name = ascii "int";
          desc = ascii "DNS recursion desired";
        }
        ∷ record {
          name = ascii "dns_tc";
          type_name = ascii "int";
          desc = ascii "DNS packet truncated";
        }
        ∷ record {
          name = ascii "dns_aa";
          type_name = ascii "int";
          desc = ascii "DNS authoritative answer";
        }
        ∷ record {
          name = ascii "dns_opcode";
          type_name = ascii "int";
          desc = ascii "DNS opcode (query type)";
        }
        ∷ record {
          name = ascii "dns_qr";
          type_name = ascii "int";
          desc = ascii "DNS query(0) or response (1)";
        }
        ∷ record {
          name = ascii "dns_rcode";
          type_name = ascii "int";
          desc = ascii "DNS response code";
        }
        ∷ record {
          name = ascii "dns_cd";
          type_name = ascii "int";
          desc = ascii "DNS checking disabled";
        }
        ∷ record {
          name = ascii "dns_ad";
          type_name = ascii "int";
          desc = ascii "DNS authenticated data";
        }
        ∷ record { name = ascii "dns_z"; type_name = ascii "int"; desc = ascii "DNS reserved" }
        ∷ record {
          name = ascii "dns_ra";
          type_name = ascii "int";
          desc = ascii "DNS recursion available";
        }
        ∷ record {
          name = ascii "dns_qdcount";
          type_name = ascii "int";
          desc = ascii "DNS number questions";
        }
        ∷ record {
          name = ascii "dns_ancount";
          type_name = ascii "int";
          desc = ascii "DNS number answer RR's";
        }
        ∷ record {
          name = ascii "dns_nscount";
          type_name = ascii "int";
          desc = ascii "DNS number NS RR's in authority section";
        }
        ∷ record {
          name = ascii "dns_arcount";
          type_name = ascii "int";
          desc = ascii "DNS number additional RR's";
        }
        ∷ record {
          name = ascii "dns_questions";
          type_name = ascii "repeated";
          desc = ascii "DNS question list";
        }
        ∷ record {
          name = ascii "dns_answers";
          type_name = ascii "repeated";
          desc = ascii "DNS answer list";
        }
        ∷ record {
          name = ascii "dns_authorities";
          type_name = ascii "repeated";
          desc = ascii "DNS authority list";
        }
        ∷ record {
          name = ascii "dns_additionals";
          type_name = ascii "repeated";
          desc = ascii "DNS additional list";
        }
        ∷ record {
          name = ascii "dns_parse_err";
          type_name = ascii "int";
          desc = ascii "Problem parsing the DNS response";
        }
        ∷ record {
          name = ascii "dns_unconsumed_bytes";
          type_name = ascii "int";
          desc = ascii "Bytes left over when parsing the DNS response";
        }
        ∷ record { name = ascii "raw_data"; type_name = ascii "binary"; desc = ascii "UDP payload" }
        ∷ [])

-- The message behind a UDP header.
abbrev pub message : Memory → ℕ → ℕ → ℕ
message mem udp i = mem.byte_at (udp + 8 + i)

-- The fields in front of the DNS message.
unfoldable pub add_udp_fields :
    (sport dport success app_success udp_len : ℕ) → Fieldset → Option Fieldset
add_udp_fields sport dport success app_success udp_len fs = do
  fs₁ ← fs_add_uint64 fs (ascii "sport") sport
  fs₂ ← fs_add_uint64 fs₁ (ascii "dport") dport
  fs₃ ← fs_add_string fs₂ (ascii "classification") (ascii "dns") false
  fs₄ ← fs_add_bool fs₃ (ascii "success") success
  fs₅ ← fs_add_bool fs₄ (ascii "app_success") app_success
  fs₆ ← fs_add_null_icmp fs₅
  fs_add_uint64 fs₆ (ascii "udp_len") udp_len

-- The fields of the DNS message of an answer that is valid or not.
unfoldable pub add_message :
    Printers
    → (ℕ → ℕ)
    → (udp_len : ℕ) → Bool
    → List Fieldset
    → Fieldset
    → Option (Fieldset × List Fieldset)
add_message print mem udp_len true heap fs = add_dns_fields print mem udp_len heap fs
add_message print mem udp_len false heap fs = dns_add_null_fs heap fs

-- A UDP packet: its record and the fieldsets that it holds.
unfoldable pub process_dns :
    ByteOrder
    → Printers
    → List Question
    → (validation₂ offset : ℕ) → Memory
    → (udp : ℕ) → List Fieldset
    → Fieldset
    → Option (Fieldset × List Fieldset)
process_dns order print questions validation₂ offset mem udp heap fs =
    let header = udp_at order mem udp in
    let udp_len = order.ntohs header.uh_ulen in
    let dns = message mem udp in
    let valid =
      is_valid_answer order dns udp_len (order.word (dns 0) (dns 1)) validation₂ offset questions in
    let app = valid && bits (dns 2) 7 1 == 1 && bits (dns 3) 0 4 == 0 in
    if not (matches_length questions udp_len) then none else do
      fs₁ ←
          add_udp_fields (order.ntohs header.uh_sport) (order.ntohs header.uh_dport) (to_nat valid)
            (to_nat app) udp_len fs
      (fs₂, heap') ← add_message print dns udp_len valid heap fs₁
      fs₃ ← fs_add_binary fs₂ (ascii "raw_data") (udp_len - 8) (udp + 8) false
      some (fs₃, heap')

unfoldable pub process_icmp_dns :
    (ℕ → Str) → Memory → (len : ℕ) → List Fieldset → Fieldset → Option (Fieldset × List Fieldset)
process_icmp_dns inet_ntoa mem len heap fs = do
  fs₁ ← fs_add_null fs (ascii "sport")
  fs₂ ← fs_add_null fs₁ (ascii "dport")
  fs₃ ← fs_add_constchar fs₂ (ascii "classification") (ascii "icmp")
  fs₄ ← fs_add_bool fs₃ (ascii "success") 0
  fs₅ ← fs_add_bool fs₄ (ascii "app_success") 0
  fs₆ ← fs_populate_icmp_from_iphdr inet_ntoa mem 14 len fs₅
  fs₇ ← fs_add_null fs₆ (ascii "udp_len")
  (fs₈, heap') ← dns_add_null_fs heap fs₇
  fs₉ ← fs_add_binary fs₈ (ascii "raw_data") len 0 false
  some (fs₉, heap')

-- The packet starts with the Ethernet header, and `len` counts from there.
unfoldable pub dns_process_packet :
    ByteOrder
    → (ℕ → Str)
    → Printers
    → List Question
    → (validation₂ offset : ℕ) → Memory
    → (len : ℕ) → List Fieldset
    → Fieldset
    → Option (Fieldset × List Fieldset)
dns_process_packet order inet_ntoa print questions validation₂ offset mem len heap fs =
    if (mem.ip_at 14).ip_p == ipproto_udp
    then elim (get_udp_header (mem.ip_at 14) 14 len) [
      | none ↦ none
      | some udp ↦ process_dns order print questions validation₂ offset mem udp heap fs
    ]
    else if (mem.ip_at 14).ip_p == ipproto_icmp
    then process_icmp_dns inet_ntoa mem len heap fs
    else none
