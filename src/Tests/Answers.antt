-- ===== src/Tests/Answers.antt =====
-- src/probe_modules/module_tcp_synscan.c and src/recv.c at concrete inputs.
use zmap_embedded_ip.Base.{
  ℕ, ◌+◌, ◌*◌, ◌%◌, ◌^◌, ◌≡◌, ◌↔◌, refl, inl, true, false, List, none, some, [], ◌∷◌, ◌++◌, map,
  arith,
}
use zmap_embedded_ip.Fieldset.{FieldDef, Field, Fieldset}
use zmap_embedded_ip.Ports.{PortConf}
use zmap_embedded_ip.Packet.{ByteOrder, Ip, Tcp, Memory, SourcePorts, get_src_port}
use zmap_embedded_ip.Packet.Scanned.{IsScanned}
use zmap_embedded_ip.Packet.SourcePort.{IsConfigured}
use zmap_embedded_ip.ProbeModules.{Timespec, ip_fields, sys_fields}
use zmap_embedded_ip.Synscan.{Synscan, Prepared, synscan_make_packet, synscan_validate_packet}
use zmap_embedded_ip.Synscan.Answer.{
  IsAnswer, Replies, synscan_validate_packet-IsAnswer, synscan_make_packet-answered,
}
use zmap_embedded_ip.Validate.{validate_gen, validate_gen_ex}
use zmap_embedded_ip.Send
use zmap_embedded_ip.Send.{get_src_ip}
use zmap_embedded_ip.Recv.{Conf, Captured, Answer, valid, full, judge, from}
use zmap_embedded_ip.Scan.{module_tcp_synscan, IsCaptured, judge-reply}
use zmap_embedded_ip.Synscan.Process.{fields}
use zmap_embedded_ip.Synscan.Record.{IsReadable, record_of, record_of-names}

-- A machine whose byte order is that of the network.
abbrev order : ByteOrder
order = record {
  word = λ a b. a * 256 + b;
  htons = λ x. x;
  ntohs = λ x. x;
  htonl = λ x. x;
  ntohl = λ x. x % 2 ^ 32;
}

abbrev conf : SourcePorts
conf = record { source_port_first = 100; source_port_last = 109; packet_streams = 2 }

abbrev st : Synscan
st = record {
  tcp_header_len = 24;
  packet_len = 58;
  should_validate_src_port = true;
  num_source_ports = 10;
  os_for_tcp_options = 0;
}

abbrev validation : ℕ → ℕ
validation i = 9

conf-IsConfigured : IsConfigured conf 10 (validation 1)
conf-IsConfigured = record {
  range = refl;
  ports = omega arith;
  one_port = omega arith;
  one_stream = omega arith;
  streams = omega arith;
  no_wrap = omega arith;
}

-- Port 80 in a bitmap of eleven bytes.
abbrev ports : PortConf
ports = record {
  ports = 80 ∷ [];
  port_bitmap = some (0 ∷ 0 ∷ 0 ∷ 0 ∷ 0 ∷ 0 ∷ 0 ∷ 0 ∷ 0 ∷ 0 ∷ 1 ∷ []);
}

abbrev ip : Ip
ip = record { ip_hl = 5; ip_id = 1; ip_off = 0; ip_ttl = 64; ip_p = 6; ip_src = 9; ip_dst = 7 }

-- A SYN-ACK from port 80 to the source port of the second probe.
abbrev tcp : Tcp
tcp = record {
  th_sport = 80;
  th_dport = 100;
  th_seq = 3;
  th_ack = 10;
  th_off = 5;
  th_flags = 18;
  th_win = 1;
}

abbrev reply : Memory
reply = record {
  ip_at = λ i. ip;
  tcp_at = λ i. tcp;
  icmp_type_at = λ i. 3;
  icmp_code_at = λ i. 1;
  byte_at = λ i. 0;
}

abbrev gen : ℕ → ℕ → ℕ → ℕ → ℕ
gen src dst port i = 9

synscan_validate_packet-IsAnswer_example :
    (synscan_validate_packet order conf st (λ a. true) gen ports reply 40 9 validation
      ≡ some validation)
    ↔ IsAnswer order conf st (λ a. true) ports reply 40 9 validation
synscan_validate_packet-IsAnswer_example =
    synscan_validate_packet-IsAnswer order conf st (λ a. true) gen ports reply 40 9 validation
      conf-IsConfigured refl

abbrev prep : Prepared
prep = record {
  ip_start = (17664, 44);
  ip_off = 0;
  ip_p = 6;
  th_ack = 0;
  th_off_flags = 24578;
  th_win = 65535;
  th_urp = 0;
  options = 516 ∷ 1460 ∷ [];
}

scanned : IsScanned ports 80
scanned = record { bitmap = _; there = refl; bit = refl }

reply-Replies :
    Replies order (synscan_make_packet order conf st prep 7 9 80 255 validation 1 9) reply 40
unfolding synscan_make_packet get_src_port
reply-Replies = record { is_tcp = refl; fits = omega arith; sport = refl; dport = refl; ack = refl }

synscan_make_packet-answered_example :
    synscan_validate_packet order conf st (λ a. true) gen ports reply 40 9 validation
    ≡ some validation
synscan_make_packet-answered_example =
    synscan_make_packet-answered order conf st prep (λ a. true) gen ports reply 7 9 80 255 1 9 40
      validation (λ x h. refl) conf-IsConfigured (omega arith) refl scanned reply-Replies

reply-IsReadable : IsReadable reply 54
reply-IsReadable = record {
  frame = omega arith;
  protocol = inl refl;
  tcp_fits = λ e. omega arith;
  icmp_fits = λ e. omega arith;
  offset = λ at. omega arith;
}

abbrev ts : Timespec
ts = record { tv_sec = 5; tv_nsec = 6000 }

record_of-names_example :
    (fs : Fieldset) × (record_of order (λ a. []) (λ t. []) reply 54 false false ts ≡ some fs)
    × (map (λ (f : Field). f.name) fs.fields
        ≡ map (λ (d : FieldDef). d.name) (ip_fields ++ fields ++ sys_fields))
record_of-names_example =
    record_of-names order (λ a. []) (λ t. []) reply 54 false false ts reply-IsReadable

abbrev encrypt : List ℕ → ℕ → ℕ
encrypt block i = 9

-- A sender with one address, and a receiver on Ethernet with the module of the SYN scan.
abbrev sending : Send.Conf
sending = record {
  order = order;
  source_ip_addresses = 7 ∷ [];
  packet_streams = 2;
  retries = 0;
  capacity = 3;
  scan = record { max_index = 4; port_count = 1; ports = 80 ∷ []; lookup_index = λ i. i + 100 };
  fuel = 10;
  list_of_ips = none;
}

abbrev receiving : Conf
receiving = record {
  order = order;
  send_ip_pkts = false;
  data_link_size = 14;
  dedup_method = full;
  default_mode = true;
  defs = ip_fields ++ fields ++ sys_fields;
  success_index = 17;
  app_success_index = none;
  filter = none;
  translation = 0 ∷ [];
  probe_module = module_tcp_synscan order conf st (λ a. true) encrypt ports (λ a. []);
  validate_gen = validate_gen encrypt;
  inet_ntoa = λ a. [];
  time_string = λ t. [];
  process_ip = false;
}

abbrev captured : Captured
captured = record { buflen = 54; bytes = reply; ts = ts; complete = false }

captured-IsCaptured : IsCaptured receiving (get_src_ip sending 9 1) 9 captured
unfolding get_src_ip
captured-IsCaptured = record {
  source = refl;
  destination = refl;
  holds_ip = omega arith;
  link = omega arith;
  length = omega arith;
}

encrypt-IsConfigured : IsConfigured conf 10 (validate_gen encrypt (get_src_ip sending 9 1) 9 80 1)
unfolding validate_gen validate_gen_ex
encrypt-IsConfigured = conf-IsConfigured

captured-Replies :
    Replies order
      (synscan_make_packet order conf st prep
        (get_src_ip sending 9 1)
        9
        80
        255
        (validate_gen encrypt (get_src_ip sending 9 1) 9 80)
        1
        9)
      (from 14 reply)
      40
unfolding synscan_make_packet get_src_port validate_gen validate_gen_ex
captured-Replies = record {
  is_tcp = refl;
  fits = omega arith;
  sport = refl;
  dport = refl;
  ack = refl;
}

judge-reply_example :
    (a : Answer) × (judge receiving captured ≡ valid a)
    × (a.src_ip ≡ 9)
    × (a.validation ≡ validate_gen encrypt (get_src_ip sending 9 1) 9 80)
judge-reply_example =
    judge-reply receiving sending conf st prep (λ a. true) encrypt ports captured 9 80 255 1 9
      (record { same_module = refl; same_key = refl; ethernet = refl }) (λ x h. refl)
      encrypt-IsConfigured (omega arith) refl (omega arith) scanned captured-IsCaptured
      captured-Replies
