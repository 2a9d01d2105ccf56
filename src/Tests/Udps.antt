-- ===== src/Tests/Udps.antt =====
-- src/probe_modules/module_udp.c at concrete inputs.
use Prim.Native.Nat.{min}
use zmap_embedded_ip.Base.{
  ℕ, ◌+◌, ◌-◌, ◌*◌, ◌≤◌, ◌≡◌, ◌↔◌, ◌⊎◌, refl, Bool, true, some, [], ◌∷◌, get_or, arith,
}
use zmap_embedded_ip.Packet.{ByteOrder, Ip, Tcp, Memory, SourcePorts}
use zmap_embedded_ip.Packet.SourcePort.{IsConfigured}
use zmap_embedded_ip.Ports.{PortConf}
use zmap_embedded_ip.Udp.{udp_do_validate_packet, udp_data_len}
use zmap_embedded_ip.Udp.Answer.{IsUdpAnswer, QuotesProbe, udp_do_validate_packet-IsUdpAnswer}
use zmap_embedded_ip.Udp.Record.{udp_data_len-min}

udp_data_len-min_example :
    (udp_data_len 20 5 40 60 ≡ min 20 (min (40 - (8 + 5 * 4)) (60 - (8 + 5 * 4))))
    × (14 + 5 * 4 + 8 + udp_data_len 20 5 40 60 ≤ 60 + 14)
udp_data_len-min_example =
    udp_data_len-min 20 5 40 60 (omega arith) (omega arith) (omega arith) (omega arith)

abbrev order : ByteOrder
order = record {
  word = λ a b. a * 256 + b;
  htons = λ x. x;
  ntohs = λ x. x;
  htonl = λ x. x;
  ntohl = λ x. x;
}

abbrev conf : SourcePorts
conf = record { source_port_first = 100; source_port_last = 109; packet_streams = 2 }

-- Port 80 is scanned.
abbrev ports : PortConf
ports = record {
  ports = 80 ∷ [];
  port_bitmap = some (0 ∷ 0 ∷ 0 ∷ 0 ∷ 0 ∷ 0 ∷ 0 ∷ 0 ∷ 0 ∷ 0 ∷ 1 ∷ []);
}

abbrev ip : Ip
ip = record { ip_hl = 5; ip_id = 1; ip_off = 0; ip_ttl = 64; ip_p = 17; ip_src = 9; ip_dst = 7 }

abbrev tcp : Tcp
tcp = record {
  th_sport = 0;
  th_dport = 0;
  th_seq = 0;
  th_ack = 0;
  th_off = 5;
  th_flags = 0;
  th_win = 0;
}

-- From port 80 to port 109, with the length 9.
abbrev mem : Memory
mem = record {
  ip_at = λ at. ip;
  tcp_at = λ at. tcp;
  icmp_type_at = λ at. 3;
  icmp_code_at = λ at. 3;
  byte_at = λ at. get_or (0 ∷ 80 ∷ 0 ∷ 109 ∷ 0 ∷ 9 ∷ 0 ∷ 0 ∷ 7 ∷ []) (at - 20) 0;
}

abbrev validation : ℕ → ℕ
validation i = 9

conf-IsConfigured : IsConfigured conf 10 (validation 1)
conf-IsConfigured = record {
  range = refl;
  ports = omega arith;
  one_port = omega arith;
  one_stream = omega arith;
  streams = omega arith;
  no_wrap = omega arith;
}

udp_do_validate_packet-IsUdpAnswer_example :
    ((b : Bool) × (udp_do_validate_packet order conf (λ a. true) ports mem 29 9 validation 10 true
        ≡ some b))
    × ((udp_do_validate_packet order conf (λ a. true) ports mem 29 9 validation 10 true ≡ some true)
        ↔ (IsUdpAnswer order conf (λ a. true) ports mem 29 9 validation 10 true
            ⊎ QuotesProbe order conf (λ a. true) ports mem 29 9 validation 10 true))
udp_do_validate_packet-IsUdpAnswer_example =
    udp_do_validate_packet-IsUdpAnswer order conf (λ a. true) ports mem 29 9 validation 10 true
      conf-IsConfigured
