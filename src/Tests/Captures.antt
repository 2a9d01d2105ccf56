-- ===== src/Tests/Captures.antt =====
-- src/recv.c at a concrete packet.
use zmap_embedded_ip.Base.{
  ◌+◌, ◌*◌, ◌%◌, ◌^◌, ◌≡◌, refl, true, false, none, some, [], ◌∷◌, ◌++◌, arith, has_bit,
}
use native.Mathlib.Nat.{mod-lt}
use zmap_embedded_ip.Fieldset.{fs_new_fieldset, translate_fieldset}
use zmap_embedded_ip.Ports.{pbm_init, pbm_set}
use zmap_embedded_ip.Ports.Bitmap.{pbm_check-init}
use zmap_embedded_ip.Packet.{ByteOrder, Ip, Tcp, get_tcp_header}
use zmap_embedded_ip.ProbeModules.{ip_fields, sys_fields, fs_add_ip_fields, fs_add_system_fields}
use zmap_embedded_ip.Recv.{
  Cache, Conf, full, zrecv_init, State, Captured, Answer, judge, src_port_of, frame_of,
  check_repeat, record_answer, is_success, is_app_success, output_of, finish, handle_answer,
  handle_packet, count_answer, remember,
}
use zmap_embedded_ip.Recv.Unique.{
  Receives, start, packet, IsCounted, log_success, succeeds, success_address, Receives-IsCounted,
}

-- No cache is used with full deduplication.
abbrev cache : Cache
cache = record { State = Unit {0}; cachehash_get = λ ch t. (false, ch); cachehash_put = λ ch t. ch }

abbrev order : ByteOrder
order = record {
  word = λ a b. a * 256 + b;
  htons = λ x. x;
  ntohs = λ x. x;
  htonl = λ x. x;
  ntohl = λ x. x % 2 ^ 32;
}

-- A probe module that accepts all, adds no field, and whose success is the raw source address.
abbrev conf : Conf
conf = record {
  order = order;
  send_ip_pkts = false;
  data_link_size = 14;
  dedup_method = full;
  default_mode = true;
  defs = ip_fields ++ sys_fields;
  success_index = 1;
  app_success_index = none;
  filter = none;
  translation = 1 ∷ [];
  probe_module = record {
    validate_packet = λ mem len src v. some (src, v);
    process_packet = λ mem len fs v ts. some fs;
  };
  validate_gen = λ src dst port i. 0;
  inet_ntoa = λ a. [];
  time_string = λ t. [];
  process_ip = false;
}

abbrev ip : Ip
ip = record { ip_hl = 5; ip_id = 1; ip_off = 0; ip_ttl = 64; ip_p = 6; ip_src = 9; ip_dst = 7 }

abbrev tcp : Tcp
tcp = record {
  th_sport = 80;
  th_dport = 100;
  th_seq = 3;
  th_ack = 10;
  th_off = 5;
  th_flags = 18;
  th_win = 1;
}

abbrev captured : Captured
captured = record {
  buflen = 54;
  bytes = record {
    ip_at = λ i. ip;
    tcp_at = λ i. tcp;
    icmp_type_at = λ i. 3;
    icmp_code_at = λ i. 1;
    byte_at = λ i. 0;
  };
  ts = record { tv_sec = 5; tv_nsec = 6000 };
  complete = false;
}

abbrev answer : Answer
answer = record {
  packet = captured;
  src_ip = 9;
  src_port = 80;
  validation = λ i. 0;
  fragment = false;
}

abbrev idle : State cache
idle = record { zrecv = zrecv_init; seen = pbm_init; ch = tt; output = [] }

abbrev counted : State cache
counted = record {
  zrecv = record zrecv_init {
    success_total = 1;
    success_unique = 1;
    filter_success = 1;
    validation_passed = 1;
  };
  seen = pbm_set pbm_init 9;
  ch = tt;
  output = [];
}

handled : handle_packet cache conf idle captured ≡ some counted
unfolding handle_packet judge src_port_of get_tcp_header has_bit check_repeat handle_answer
    record_answer frame_of fs_add_ip_fields fs_add_system_fields fs_new_fieldset is_success
    is_app_success output_of finish count_answer remember translate_fieldset
handled = rw (pbm_check-init 9) refl

wins : log_success cache conf idle captured [] ≡ 9 ∷ []
unfolding log_success judge src_port_of get_tcp_header has_bit check_repeat succeeds success_address
    record_answer frame_of fs_add_ip_fields fs_add_system_fields fs_new_fieldset is_success
wins = refl

run : Receives cache conf counted (9 ∷ [])
run = rw (← wins) (packet captured (start (record { counters = refl; seen = refl })) handled)

Receives-IsCounted_example : IsCounted cache counted (9 ∷ [])
Receives-IsCounted_example =
    Receives-IsCounted cache conf counted (9 ∷ []) refl (λ x. mod-lt x (omega arith)) run
