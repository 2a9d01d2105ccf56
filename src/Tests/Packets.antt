-- ===== src/Tests/Packets.antt =====
-- src/probe_modules/packet.h, src/probe_modules/packet.c, lib/pbm.c at concrete inputs.
use zmap_embedded_ip.Base.{
  ℕ, ◌+◌, ◌/◌, ◌%◌, ◌^◌, ◌<◌, ◌≡◌, ◌↔◌, refl, true, some, [], ◌∷◌, ◌||◌, ◌==◌, ltb, if◌then◌else◌,
  ◌>>=◌, arith,
}
use zmap_embedded_ip.Ports.{pbm_init, pbm_set, pbm_check}
use zmap_embedded_ip.Ports.Bitmap.{pbm_init-IsPaged, pbm_check-set}
use zmap_embedded_ip.Packet.{
  Ip, Tcp, Memory, SourcePorts, tcp_checksum, zmap_ip_checksum, check_dst_port, get_src_port,
  icmp_helper_validate, quotes_probe,
}
use zmap_embedded_ip.Packet.Checksum.{tcp_checksum-verifies, zmap_ip_checksum-verifies}
use zmap_embedded_ip.Packet.SourcePort.{IsConfigured, check_dst_port-get_src_port}
use zmap_embedded_ip.Packet.Options.{TcpHeader, set_tcp_options}
use zmap_embedded_ip.Synscan.Parse.{tcp_opts}
use zmap_embedded_ip.Synscan.Read.{Agree, tcp_opts-Agree}
use zmap_embedded_ip.Synscan.RoundTrip.{expected_opts, tcp_opts-set_tcp_options}

pbm_check-set_example :
    pbm_check (pbm_set pbm_init 70000) 70001 ≡ (70001 == 70000 || pbm_check pbm_init 70001)
pbm_check-set_example = pbm_check-set pbm_init 70000 70001 (omega arith) pbm_init-IsPaged

tcp_checksum-verifies_example : (40 + tcp_checksum (λ n. n) 20 5 6 (1 ∷ 2 ∷ [])) % 65535 ≡ 0
tcp_checksum-verifies_example = tcp_checksum-verifies (λ n. n) 20 5 6 (1 ∷ 2 ∷ []) (omega arith)

zmap_ip_checksum-verifies_example :
    ((131071 + zmap_ip_checksum (65535 ∷ 65535 ∷ 1 ∷ [])) % 65535 ≡ 0)
    ↔ (131071 / 2 ^ 16 + 131071 % 2 ^ 16 < 2 ^ 16)
zmap_ip_checksum-verifies_example = zmap_ip_checksum-verifies (65535 ∷ 65535 ∷ 1 ∷ []) (omega arith)

-- Ten source ports and two probes for each target.
abbrev conf : SourcePorts
conf = record { source_port_first = 100; source_port_last = 109; packet_streams = 2 }

conf-IsConfigured : IsConfigured conf 10 9
conf-IsConfigured = record {
  range = refl;
  ports = omega arith;
  one_port = omega arith;
  one_stream = omega arith;
  streams = omega arith;
  no_wrap = omega arith;
}

check_dst_port-get_src_port_example :
    (check_dst_port conf 100 10 9 ≡ true) ↔ ((k : ℕ) × (k < 2) × (get_src_port conf 10 k 9 ≡ 100))
check_dst_port-get_src_port_example = check_dst_port-get_src_port conf 100 10 9 conf-IsConfigured

abbrev ip : Ip
ip = record { ip_hl = 5; ip_id = 1; ip_off = 0; ip_ttl = 64; ip_p = 1; ip_src = 9; ip_dst = 7 }

abbrev tcp : Tcp
tcp = record {
  th_sport = 80;
  th_dport = 100;
  th_seq = 3;
  th_ack = 4;
  th_off = 5;
  th_flags = 18;
  th_win = 1;
}

-- An unreachable message that quotes a probe.
abbrev message : Memory
message = record {
  ip_at = λ i. ip;
  tcp_at = λ i. tcp;
  icmp_type_at = λ i. 3;
  icmp_code_at = λ i. 1;
  byte_at = λ i. 0;
}

message-accepted : icmp_helper_validate (λ a. true) message 68 20 ≡ some (28, 40)
unfolding icmp_helper_validate quotes_probe
message-accepted = refl

-- A header of 24 bytes with other bytes behind it.
abbrev header : ℕ → TcpHeader
header rest = record { th_off = 6; byte_at = λ i. if ltb i 24 then 1 else rest }

header-Agree : Agree (header 2).byte_at (header 3).byte_at 24
header-Agree i h = ground arith

tcp_opts-Agree_example : tcp_opts (header 2) ≡ tcp_opts (header 3)
tcp_opts-Agree_example = tcp_opts-Agree (header 2) (header 3) refl header-Agree

abbrev bare : TcpHeader
bare = record { th_off = 5; byte_at = λ i. 0 }

tcp_opts-set_tcp_options_example :
    (set_tcp_options 1000 bare 1 >>= tcp_opts) ≡ some (expected_opts 1 1000 (λ i. 0))
tcp_opts-set_tcp_options_example =
    tcp_opts-set_tcp_options 1000 1 bare (omega arith) (omega arith) refl
