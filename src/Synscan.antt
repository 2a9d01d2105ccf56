-- ===== src/Synscan.antt =====
-- src/probe_modules/module_tcp_synscan.c: the probes of a TCP SYN scan, the answers that it accepts
-- and the fields that it reads from them.
-- The words of the validation are a function of their index; `none` is PACKET_INVALID, EXIT_FAILURE,
-- `log_fatal` or a failed assertion.
pub mod Answer
pub mod Parse
pub mod Read
pub mod RoundTrip
pub mod Process
pub mod Words
pub mod Record
use zmap_embedded_ip.Base.{
  ℕ, zero, suc, ◌+◌, ◌-◌, ◌*◌, ◌/◌, ◌%◌, ◌^◌, Bool, true, false, ◌&&◌, ◌||◌, not, Option, none,
  some, List, [], ◌∷◌, ◌++◌, ltb, leb, ◌==◌, if◌then◌else◌, ◌>>=◌, u16, u32, has_bit,
}
use zmap_embedded_ip.Fieldset.{Str, ascii, str_eq}
use zmap_embedded_ip.Ports.{PortConf}
use zmap_embedded_ip.Packet.{
  ByteOrder, Ip, Tcp, Memory, SourcePorts, tcp_size, check_dst_port, check_src_port, get_src_port,
  get_tcp_header, tcp_checksum, zmap_ip_checksum, icmp_helper_validate,
}
use zmap_embedded_ip.Packet.Options.{
  smallest_probes_os_options, linux_os_options, bsd_os_options, windows_os_options,
}

-- The static variables of the module.
pub record Synscan : Type 0 where
  pub tcp_header_len : ℕ
  pub packet_len : ℕ
  pub should_validate_src_port : Bool
  pub num_source_ports : ℕ
  pub os_for_tcp_options : ℕ

-- The operating system's code, and the lengths of the TCP header and of the packet.
unfoldable pub probe_lengths : Str → Option (ℕ × ℕ × ℕ)
unfolding str_eq
probe_lengths args =
    if str_eq args (ascii "smallest-probes")
    then some (smallest_probes_os_options, 24, 58)
    else if str_eq args (ascii "bsd")
    then some (bsd_os_options, 44, 78)
    else if str_eq args (ascii "windows")
    then some (windows_os_options, 32, 66)
    else if str_eq args (ascii "linux")
    then some (linux_os_options, 40, 74)
    else none

-- `disabled` tells that validating the source port is switched off.
unfoldable pub synscan_global_initialize :
    SourcePorts → Bool → Option Str → Synscan → Option Synscan
unfolding probe_lengths
synscan_global_initialize conf disabled probe_args st = do
  (os, header_len, packet_len) ←
      probe_lengths (elim probe_args [ none ↦ ascii "windows" | some args ↦ args ])
  if packet_len - header_len == 34
      then some (record st {
        tcp_header_len = header_len;
        packet_len = packet_len;
        should_validate_src_port = not disabled && st.should_validate_src_port;
        num_source_ports = u16 (conf.source_port_last - conf.source_port_first + 1);
        os_for_tcp_options = os;
      })
      else none

-- The words of a prepared packet that `synscan_make_packet` leaves as they are: the first two of
-- the IP header, its flags and its protocol, and of the TCP header the acknowledgement number, the
-- word of the length and the flags, the window, the urgent pointer, and the words of the options.
pub record Prepared : Type 0 where
  pub ip_start : ℕ × ℕ
  pub ip_off : ℕ
  pub ip_p : ℕ
  pub th_ack : ℕ
  pub th_off_flags : ℕ
  pub th_win : ℕ
  pub th_urp : ℕ
  pub options : List ℕ

-- The 16-bit words of a 32-bit number in memory, in one order or the other.
abbrev pub halves : ℕ → List ℕ
halves n = n % 2 ^ 16 ∷ n / 2 ^ 16 ∷ []

pub record Probe : Type 0 where
  pub ip_words : List ℕ
  pub ip_sum : ℕ
  pub tcp_words : List ℕ
  pub th_sport : ℕ
  pub th_dport : ℕ
  pub th_seq : ℕ
  pub th_sum : ℕ
  pub buf_len : ℕ

unfoldable pub tcp_words_of : Prepared → ℕ → ℕ → ℕ → ℕ → List ℕ
tcp_words_of prep sport dport seq sum =
    sport ∷ dport ∷ halves seq
    ++ halves prep.th_ack
    ++ prep.th_off_flags ∷ prep.th_win ∷ sum ∷ prep.th_urp ∷ prep.options

unfoldable pub ip_words_of : ByteOrder → Prepared → ℕ → ℕ → ℕ → ℕ → ℕ → List ℕ
ip_words_of order prep ip_id ttl sum src dst =
    prep.ip_start.0
      ∷ prep.ip_start.1
      ∷ ip_id
      ∷ prep.ip_off
      ∷ order.word ttl prep.ip_p
      ∷ sum
      ∷ halves src
    ++ halves dst

unfoldable pub synscan_make_packet :
    ByteOrder
    → SourcePorts
    → Synscan
    → Prepared
    → (src_ip dst_ip dport ttl : ℕ) → (ℕ → ℕ)
    → (probe_num ip_id : ℕ) → Probe
unfolding tcp_words_of ip_words_of
synscan_make_packet order conf st prep src_ip dst_ip dport ttl validation probe_num ip_id =
    let tcp_seq = validation 0 in
    let sport = get_src_port conf st.num_source_ports probe_num (validation 1) in
    let th_sport = order.htons sport in
    let th_sum =
      tcp_checksum order.htons st.tcp_header_len src_ip dst_ip
        (tcp_words_of prep th_sport dport tcp_seq 0) in
    let ip_sum = zmap_ip_checksum (ip_words_of order prep ip_id ttl 0 src_ip dst_ip) in
    record {
      ip_words = ip_words_of order prep ip_id ttl ip_sum src_ip dst_ip;
      ip_sum = ip_sum;
      tcp_words = tcp_words_of prep th_sport dport tcp_seq th_sum;
      th_sport = th_sport;
      th_dport = dport;
      th_seq = tcp_seq;
      th_sum = th_sum;
      buf_len = st.packet_len;
    }

abbrev pub ipproto_icmp : ℕ
ipproto_icmp = 1

abbrev pub ipproto_tcp : ℕ
ipproto_tcp = 6

-- Whether the acknowledgement number fits the probe's sequence number; RST is bit 2 of the flags.
unfoldable pub ack_fits : ByteOrder → Tcp → ℕ → Bool
ack_fits order tcp validation₀ =
    if has_bit tcp.th_flags 4
    then order.htonl tcp.th_ack == order.htonl validation₀
      || order.htonl tcp.th_ack == u32 (order.htonl validation₀ + 1)
    else order.htonl tcp.th_ack == u32 (order.htonl validation₀ + 1)

-- The branch of a TCP packet.
unfoldable pub validate_tcp :
    ByteOrder → SourcePorts → Synscan → (ℕ → Bool) → PortConf → Memory → ℕ → ℕ → (ℕ → ℕ) → Bool
unfolding ack_fits
validate_tcp order conf st is_allowed ports mem len src_ip validation =
    elim (get_tcp_header (mem.ip_at 0) 0 len) [
      | none ↦ false
      | some at ↦
          let tcp = mem.tcp_at at in
          (not st.should_validate_src_port || check_src_port (order.ntohs tcp.th_sport) ports)
          && check_dst_port conf (order.ntohs tcp.th_dport) st.num_source_ports (validation 1)
          && is_allowed src_ip
          && ack_fits order tcp (validation 0)
    ]

-- The branch of an ICMP packet, from the quoted probe on: the new words of the validation.
unfoldable pub validate_quoted :
    ByteOrder
    → SourcePorts
    → Synscan
    → (ℕ → ℕ → ℕ → ℕ → ℕ)
    → PortConf
    → Memory
    → ℕ
    → ℕ
    → Option (ℕ → ℕ)
validate_quoted order conf st validate_gen ports mem inner inner_len =
    elim (get_tcp_header (mem.ip_at inner) inner inner_len) [
      | none ↦ none
      | some at ↦
          let tcp = mem.tcp_at at in
          let validation =
            validate_gen (mem.ip_at 0).ip_dst (mem.ip_at inner).ip_dst tcp.th_dport in
          if not (check_src_port (order.ntohs tcp.th_dport) ports)
          then none
          else if not
              (check_dst_port conf (order.ntohs tcp.th_sport) st.num_source_ports (validation 1))
          then none
          else some validation
    ]

-- The packet's IP header is at 0. `validate_gen` gives the words of the validation for a source, a
-- destination and a port. The result is the validation that the caller's array then holds.
unfoldable pub synscan_validate_packet :
    ByteOrder
    → SourcePorts
    → Synscan
    → (ℕ → Bool)
    → (ℕ → ℕ → ℕ → ℕ → ℕ)
    → PortConf
    → Memory
    → ℕ
    → ℕ
    → (ℕ → ℕ)
    → Option (ℕ → ℕ)
unfolding validate_tcp validate_quoted
synscan_validate_packet order conf st is_allowed validate_gen ports mem len src_ip validation =
    if (mem.ip_at 0).ip_p == ipproto_tcp
    then (if validate_tcp order conf st is_allowed ports mem len src_ip validation
        then some validation
        else none)
    else if (mem.ip_at 0).ip_p == ipproto_icmp
    then elim (icmp_helper_validate is_allowed mem len tcp_size) [
      | none ↦ none
      | some (inner, inner_len) ↦
          validate_quoted order conf st validate_gen ports mem inner inner_len
    ]
    else none
