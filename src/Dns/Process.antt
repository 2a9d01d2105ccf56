-- ===== src/Dns/Process.antt =====
-- src/probe_modules/module_dns.c: the answers that are accepted, and `dns_process_packet`.
-- Bit fields lie from the lowest bit on, as gcc lays them out on a little-endian machine.
use zmap_embedded_ip.Base.{
  ℕ, zero, suc, ◌+◌, ◌-◌, ◌/◌, ◌%◌, ◌^◌, Bool, true, false, ◌&&◌, ◌||◌, not, Option, none, some,
  List, [], ◌∷◌, ◌++◌, length, ltb, ◌==◌, if◌then◌else◌, ◌>>=◌, to_nat, u16,
}
use zmap_embedded_ip.Fieldset.{Str, ascii, Fieldset}
use zmap_embedded_ip.Fieldset.Words.{
  fs_add_null, fs_add_uint64, fs_add_repeated, fs_new_repeated_fieldset,
}
use zmap_embedded_ip.Ports.{PortConf}
use zmap_embedded_ip.Packet.{ByteOrder, Memory, SourcePorts, get_udp_header}
use zmap_embedded_ip.Synscan.Parse.{read16}
use zmap_embedded_ip.Udp.{ipproto_udp, udp_at, udp_do_validate_packet}
use zmap_embedded_ip.Dns.{domain_to_qname}
use zmap_embedded_ip.Dns.Records.{
  Printers, Cursor, process_response_question, process_response_answer, section_loop,
}

abbrev pub dns_header_size : ℕ
dns_header_size = 12

-- One of the questions of the scan: its qname, the length of the message, and the words of the type
-- and of the class at the message's end.
pub record Question : Type 0 where
  pub qname : List ℕ
  pub qname_len : ℕ
  pub packet_len : ℕ
  pub qtype : ℕ
  pub tail_qtype : ℕ
  pub tail_qclass : ℕ

-- A round of `build_global_dns_packets`; `none` is a message of more than 512 bytes.
unfoldable pub build_dns_packet : ByteOrder → Str → ℕ → Option Question
build_dns_packet order domain qtype =
    let (qname, qname_len) = domain_to_qname domain in
    let packet_len = u16 (dns_header_size + qname_len + 4) in
    if ltb 512 packet_len
    then none
    else some (record {
      qname = qname;
      qname_len = qname_len;
      packet_len = packet_len;
      qtype = qtype;
      tail_qtype = order.htons qtype;
      tail_qclass = order.htons 1;
    })

-- Whether the UDP length is at least that of a message of the scan.
unfoldable pub matches_length : List Question → ℕ → Bool
matches_length [] udp_len = false
matches_length (q ∷ questions) udp_len =
    not (ltb udp_len q.packet_len) || matches_length questions udp_len

-- The packet's IP header is at 0; true is PACKET_VALID.
unfoldable pub dns_validate_packet :
    ByteOrder
    → SourcePorts
    → (ℕ → Bool)
    → PortConf
    → List Question
    → Memory
    → (len src_ip : ℕ) → (ℕ → ℕ)
    → (num_ports : ℕ) → (validate_port : Bool) → Option Bool
dns_validate_packet order conf is_allowed ports questions mem len src_ip validation num_ports
      validate_port =
    do
      valid ←
          udp_do_validate_packet order conf is_allowed ports mem len src_ip validation num_ports
            validate_port
      if not valid
          then some false
          else if not ((mem.ip_at 0).ip_p == ipproto_udp)
          then some true
          else elim (get_udp_header (mem.ip_at 0) 0 len) [
            | none ↦ some false
            | some at ↦
                let udp_len = order.ntohs (udp_at order mem at).uh_ulen in
                some (matches_length questions udp_len && not (ltb len udp_len))
          ]

-- `strcmp` of a qname and of the string at an address, both from an offset on.
unfoldable pub same_string : (ℕ → ℕ) → ℕ → List ℕ → Bool
same_string mem at [] = true
same_string mem at (c ∷ rest) =
    if mem at == c then (if c == 0 then true else same_string mem (at + 1) rest) else false

unfoldable pub drop_bytes : ℕ → List ℕ → List ℕ
drop_bytes zero s = s
drop_bytes (suc n) [] = []
drop_bytes (suc n) (c ∷ s) = drop_bytes n s

-- The loop over the questions: `mem` is the DNS message, `id` its transaction ID as it stands in
-- memory, and `offset`, no more than the length of a qname, is 16 if an address stands in front of
-- the domain.
unfoldable pub is_valid_answer :
    ByteOrder → (ℕ → ℕ) → (udp_len id validation₂ offset : ℕ) → List Question → Bool
unfolding same_string drop_bytes
is_valid_answer order mem udp_len id validation₂ offset [] = false
is_valid_answer order mem udp_len id validation₂ offset (q ∷ questions) =
    not (ltb udp_len q.packet_len)
      && id == validation₂ % 2 ^ 16
      && same_string mem (dns_header_size + offset) (drop_bytes offset q.qname)
      && q.tail_qtype == order.htons q.qtype
      && q.tail_qclass == order.htons 1
    || is_valid_answer order mem udp_len id validation₂ offset questions

-- What is left between the sections; the lists and their records stand in `heap`.
pub record Rest : Type 0 where
  pub err : Bool
  pub at : ℕ
  pub data_len : ℕ
  pub heap : List Fieldset

-- A section: the address of its list.
unfoldable pub section : (Cursor → Option (Bool × Cursor)) → ℕ → Rest → Option (ℕ × Rest)
unfolding fs_new_repeated_fieldset
section process count r = do
  (err, c) ←
      section_loop process count r.err (record {
        at = r.at;
        data_len = r.data_len;
        list = fs_new_repeated_fieldset;
        heap = r.heap;
      })
  some (
    length c.heap,
    record { err = err; at = c.at; data_len = c.data_len; heap = c.heap ++ c.list ∷ [] },
  )

-- The counts of the header, in host order, and the four lists.
pub record Sections : Type 0 where
  pub questions : ℕ
  pub answers : ℕ
  pub authorities : ℕ
  pub additionals : ℕ
  pub rest : Rest

-- `mem` is the message from the DNS header on. The size of a pointer stands for that of the UDP
-- header, which is the same on a 64-bit machine.
unfoldable pub parse_sections : Printers → (ℕ → ℕ) → (udp_len : ℕ) → List Fieldset → Option Sections
parse_sections print mem udp_len heap = do
  let question = process_response_question print mem udp_len
  let answer = process_response_answer print mem udp_len
  let start : Rest = record {
    err = false;
    at = dns_header_size;
    data_len = u16 (udp_len + 2 ^ 16 - 8 - dns_header_size);
    heap = heap;
  }
  (a₁, r₁) ← section question (read16 mem 4) start
  (a₂, r₂) ← section answer (read16 mem 6) r₁
  (a₃, r₃) ← section answer (read16 mem 8) r₂
  (a₄, r₄) ← section answer (read16 mem 10) r₃
  some (record { questions = a₁; answers = a₂; authorities = a₃; additionals = a₄; rest = r₄ })

-- The bits of the two bytes of flags.
abbrev pub bits : ℕ → ℕ → ℕ → ℕ
bits byte from width = byte / 2 ^ from % 2 ^ width

unfoldable pub add_dns_header : (ℕ → ℕ) → Fieldset → Option Fieldset
add_dns_header mem fs = do
  let low = mem 2
  let high = mem 3
  fs₁ ← fs_add_uint64 fs (ascii "dns_id") (read16 mem 0)
  fs₂ ← fs_add_uint64 fs₁ (ascii "dns_rd") (bits low 0 1)
  fs₃ ← fs_add_uint64 fs₂ (ascii "dns_tc") (bits low 1 1)
  fs₄ ← fs_add_uint64 fs₃ (ascii "dns_aa") (bits low 2 1)
  fs₅ ← fs_add_uint64 fs₄ (ascii "dns_opcode") (bits low 3 4)
  fs₆ ← fs_add_uint64 fs₅ (ascii "dns_qr") (bits low 7 1)
  fs₇ ← fs_add_uint64 fs₆ (ascii "dns_rcode") (bits high 0 4)
  fs₈ ← fs_add_uint64 fs₇ (ascii "dns_cd") (bits high 4 1)
  fs₉ ← fs_add_uint64 fs₈ (ascii "dns_ad") (bits high 5 1)
  fs₁₀ ← fs_add_uint64 fs₉ (ascii "dns_z") (bits high 6 1)
  fs₁₁ ← fs_add_uint64 fs₁₀ (ascii "dns_ra") (bits high 7 1)
  fs₁₂ ← fs_add_uint64 fs₁₁ (ascii "dns_qdcount") (read16 mem 4)
  fs₁₃ ← fs_add_uint64 fs₁₂ (ascii "dns_ancount") (read16 mem 6)
  fs₁₄ ← fs_add_uint64 fs₁₃ (ascii "dns_nscount") (read16 mem 8)
  fs_add_uint64 fs₁₄ (ascii "dns_arcount") (read16 mem 10)

unfoldable pub add_dns_lists : (a₁ a₂ a₃ a₄ err data_len : ℕ) → Fieldset → Option Fieldset
add_dns_lists a₁ a₂ a₃ a₄ err data_len fs = do
  fs₁ ← fs_add_repeated fs (ascii "dns_questions") a₁
  fs₂ ← fs_add_repeated fs₁ (ascii "dns_answers") a₂
  fs₃ ← fs_add_repeated fs₂ (ascii "dns_authorities") a₃
  fs₄ ← fs_add_repeated fs₃ (ascii "dns_additionals") a₄
  fs₅ ← fs_add_uint64 fs₄ (ascii "dns_parse_err") err
  fs_add_uint64 fs₅ (ascii "dns_unconsumed_bytes") data_len

-- `dns_add_null_fs`: the header's fields are empty, and so are four new lists in `heap`.
unfoldable pub add_null_header : Fieldset → Option Fieldset
add_null_header fs = do
  fs₁ ← fs_add_null fs (ascii "dns_id")
  fs₂ ← fs_add_null fs₁ (ascii "dns_rd")
  fs₃ ← fs_add_null fs₂ (ascii "dns_tc")
  fs₄ ← fs_add_null fs₃ (ascii "dns_aa")
  fs₅ ← fs_add_null fs₄ (ascii "dns_opcode")
  fs₆ ← fs_add_null fs₅ (ascii "dns_qr")
  fs₇ ← fs_add_null fs₆ (ascii "dns_rcode")
  fs₈ ← fs_add_null fs₇ (ascii "dns_cd")
  fs₉ ← fs_add_null fs₈ (ascii "dns_ad")
  fs₁₀ ← fs_add_null fs₉ (ascii "dns_z")
  fs₁₁ ← fs_add_null fs₁₀ (ascii "dns_ra")
  fs₁₂ ← fs_add_null fs₁₁ (ascii "dns_qdcount")
  fs₁₃ ← fs_add_null fs₁₂ (ascii "dns_ancount")
  fs₁₄ ← fs_add_null fs₁₃ (ascii "dns_nscount")
  fs_add_null fs₁₄ (ascii "dns_arcount")

unfoldable pub dns_add_null_fs : List Fieldset → Fieldset → Option (Fieldset × List Fieldset)
dns_add_null_fs heap fs = do
  let a = length heap
  let empty = fs_new_repeated_fieldset
  fs₁ ← add_null_header fs
  fs₂ ← add_dns_lists a (a + 1) (a + 2) (a + 3) 1 0 fs₁
  some (fs₂, heap ++ empty ∷ empty ∷ empty ∷ empty ∷ [])

unfoldable pub add_dns_fields :
    Printers
    → (ℕ → ℕ)
    → (udp_len : ℕ) → List Fieldset
    → Fieldset
    → Option (Fieldset × List Fieldset)
add_dns_fields print mem udp_len heap fs = do
  fs₁ ← add_dns_header mem fs
  s ← parse_sections print mem udp_len heap
  let r = s.rest
  let err = to_nat (r.err || not (r.data_len == 0))
  fs₂ ← add_dns_lists s.questions s.answers s.authorities s.additionals err r.data_len fs₁
  some (fs₂, r.heap)
