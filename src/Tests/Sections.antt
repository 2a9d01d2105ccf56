-- ===== src/Tests/Sections.antt =====
-- src/probe_modules/module_dns.c: a whole answer at a concrete input.
use zmap_embedded_ip.Base.{
  ℕ, ◌+◌, ◌*◌, ◌≡◌, ◌≢◌, refl, inl, true, false, some, List, [], ◌∷◌, ◌++◌, map, ◌==◌, ◌||◌,
  if◌then◌else◌, arith,
}
use zmap_embedded_ip.Fieldset.{ascii, FieldDef, Field, Fieldset}
use zmap_embedded_ip.Packet.{ByteOrder, Ip, Tcp, Memory}
use zmap_embedded_ip.ProbeModules.{ip_fields, sys_fields}
use zmap_embedded_ip.Synscan.Parse.{read16}
use zmap_embedded_ip.Dns.Process.{Question, is_valid_answer, matches_length}
use zmap_embedded_ip.Dns.Answer.{dns_fields, message}
use zmap_embedded_ip.Dns.Words.{dns_record_of}
use zmap_embedded_ip.Dns.Names.{IsReadable, dns_record_of-names}
use zmap_embedded_ip.Udp.{udp_at}
use zmap_embedded_ip.Tests.Messages.{print, strings-IsStrings}

abbrev order : ByteOrder
order = record {
  word = λ a b. a * 256 + b;
  htons = λ x. x;
  ntohs = λ x. x;
  htonl = λ x. x;
  ntohl = λ x. x;
}

abbrev ip : Ip
ip = record { ip_hl = 5; ip_id = 1; ip_off = 0; ip_ttl = 64; ip_p = 17; ip_src = 9; ip_dst = 7 }

abbrev tcp : Tcp
tcp = record {
  th_sport = 0;
  th_dport = 0;
  th_seq = 0;
  th_ack = 0;
  th_off = 5;
  th_flags = 0;
  th_win = 0;
}

-- The UDP length is 40, and the message has one question and one answer, for the root.
abbrev bytes : ℕ → ℕ
bytes i = if i == 39 then 40 else if i == 47 || i == 49 then 1 else 0

abbrev mem : Memory
mem = record {
  ip_at = λ at. ip;
  tcp_at = λ at. tcp;
  icmp_type_at = λ at. 0;
  icmp_code_at = λ at. 0;
  byte_at = bytes;
}

abbrev root_question : Question
root_question = record {
  qname = 0 ∷ [];
  qname_len = 1;
  packet_len = 17;
  qtype = 1;
  tail_qtype = 1;
  tail_qclass = 1;
}

-- The answer is valid, so its sections are read.
root_question-valid :
    is_valid_answer order (message mem 34) 40 0 65536 0 (root_question ∷ []) ≡ true
unfolding is_valid_answer
root_question-valid = refl

message-other : (i : ℕ) → read16 (message mem 34) i ≢ 16
message-other i h = ground (arith, h)

mem-IsReadable :
    IsReadable order
      (λ a. ascii "a")
      (λ t. ascii "t")
      print
      (root_question ∷ [])
      65536
      0
      mem
      74
      strings-IsStrings
unfolding udp_at matches_length
mem-IsReadable = record {
  protocol = inl refl;
  whole = record { udp_fits = λ e. omega arith; icmp_fits = λ e. omega arith };
  long = λ kind. refl;
  modest = λ kind valid. record {
    questions = omega arith;
    answers = omega arith;
    authorities = omega arith;
    additionals = omega arith;
    filled =
        λ at data_len end consumed name e is_txt. absurd (message-other (at + consumed) is_txt);
  };
}

dns_record_of-names_example :
    (fs : Fieldset) × (heap' : List Fieldset) × (dns_record_of order
        (λ a. ascii "a")
        (λ t. ascii "t")
        print
        (root_question ∷ [])
        65536
        0
        mem
        74
        false
        false
        (record { tv_sec = 1; tv_nsec = 2 })
        []
      ≡ some (fs, heap'))
    × (map (λ (f : Field). f.name) fs.fields
        ≡ map (λ (d : FieldDef). d.name) (ip_fields ++ dns_fields ++ sys_fields))
dns_record_of-names_example =
    dns_record_of-names order (λ a. ascii "a") (λ t. ascii "t") print (root_question ∷ []) 65536 0
      mem 74 strings-IsStrings false false (record { tv_sec = 1; tv_nsec = 2 }) [] mem-IsReadable
