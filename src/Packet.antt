-- ===== src/Packet.antt =====
-- src/probe_modules/packet.h, src/probe_modules/packet.c: the headers of probes and answers, their
-- checksums, and the source ports that tell an answer to this scan.
-- A header is a record of the fields that the code names, with the values as they stand in memory.
-- A pointer into a received packet is the offset of the header from the start of the IP header,
-- `none` is NULL. The conversions of byte order are parameters.
pub mod Checksum
pub mod Scanned
pub mod SourcePort
pub mod Bounds
pub mod Icmp
pub mod Options
use zmap_embedded_ip.Base.{
  ℕ, zero, suc, ◌+◌, ◌-◌, ◌*◌, ◌/◌, ◌%◌, ◌^◌, Bool, true, false, ◌&&◌, ◌||◌, not, Option, none,
  some, List, [], ◌∷◌, ltb, leb, ◌==◌, if◌then◌else◌, u16, u32, u64,
}
use zmap_embedded_ip.Ports.{PortConf, bm_check}

pub record ByteOrder : Type 0 where
  -- The 16-bit word that two bytes in memory make up.
  pub word : ℕ → ℕ → ℕ
  pub htons : ℕ → ℕ
  pub ntohs : ℕ → ℕ
  pub htonl : ℕ → ℕ
  pub ntohl : ℕ → ℕ

pub record Ip : Type 0 where
  pub ip_hl : ℕ
  pub ip_id : ℕ
  pub ip_off : ℕ
  pub ip_ttl : ℕ
  pub ip_p : ℕ
  pub ip_src : ℕ
  pub ip_dst : ℕ

pub record Tcp : Type 0 where
  pub th_sport : ℕ
  pub th_dport : ℕ
  pub th_seq : ℕ
  pub th_ack : ℕ
  pub th_off : ℕ
  pub th_flags : ℕ
  pub th_win : ℕ

-- The headers that a cast of `(char *)ip_hdr + offset` reads.
pub record Memory : Type 0 where
  pub ip_at : ℕ → Ip
  pub tcp_at : ℕ → Tcp
  pub icmp_type_at : ℕ → ℕ
  pub icmp_code_at : ℕ → ℕ
  pub byte_at : ℕ → ℕ

-- `sizeof` of the headers.
abbrev pub ip_size : ℕ
ip_size = 20

abbrev pub tcp_size : ℕ
tcp_size = 20

abbrev pub udp_size : ℕ
udp_size = 8

abbrev pub icmp_size : ℕ
icmp_size = 28

abbrev pub ether_size : ℕ
ether_size = 14

abbrev pub ip6_size : ℕ
ip6_size = 40

abbrev pub icmp_header_size : ℕ
icmp_header_size = 8

abbrev pub icmp_unreach_header_size : ℕ
icmp_unreach_header_size = 8

-- The sum of the 16-bit words of a buffer in `unsigned long`, from `sum` on.
unfoldable pub add_words : ℕ → List ℕ → ℕ
add_words sum [] = sum
add_words sum (w ∷ words) = add_words (u64 (sum + w)) words

-- `~sum`, cut to 16 bits.
abbrev pub complement : ℕ → ℕ
complement sum = 65535 - sum % 2 ^ 16

-- `in_checksum`, `in_icmp_checksum`: `last` is the byte that is left of an odd length.
unfoldable pub in_checksum : List ℕ → Option ℕ → ℕ
unfolding add_words
in_checksum words last =
    let sum : ℕ = elim last [ none ↦ add_words 0 words | some b ↦ u64 (add_words 0 words + b) ] in
    complement (u64 (sum / 2 ^ 16 + sum % 2 ^ 16))

unfoldable pub zmap_ip_checksum : List ℕ → ℕ
unfolding in_checksum
zmap_ip_checksum words = in_checksum words none

unfoldable pub icmp_checksum : List ℕ → Option ℕ → ℕ
unfolding in_checksum
icmp_checksum words last = in_checksum words last

-- The two folds of the carries at the end of `tcp_checksum` and of `ipv6_payload_checksum`.
unfoldable pub fold_carries : ℕ → ℕ
fold_carries sum =
    let once = u64 (sum / 2 ^ 16 + sum % 2 ^ 16) in complement (u64 (once + once / 2 ^ 16))

-- `tcp_checksum`: the words of the segment, with the last one masked by the source if its length
-- is odd, and the pseudo header, whose addresses are two words each.
unfoldable pub tcp_checksum : (ℕ → ℕ) → ℕ → ℕ → ℕ → List ℕ → ℕ
unfolding add_words fold_carries
tcp_checksum htons len_tcp saddr daddr words =
    let sum = add_words 0 words in
    let pseudo =
      saddr % 2 ^ 16
      ∷ saddr / 2 ^ 16
      ∷ daddr % 2 ^ 16
      ∷ daddr / 2 ^ 16
      ∷ htons len_tcp
      ∷ htons 6
      ∷ [] in
    fold_carries (add_words sum pseudo)

-- `ipv6_payload_checksum`: `src` and `dst` are the eight words of each address.
unfoldable pub ipv6_payload_checksum : (ℕ → ℕ) → ℕ → List ℕ → List ℕ → List ℕ → ℕ → ℕ
unfolding add_words fold_carries
ipv6_payload_checksum htons len src dst words proto =
    let sum = add_words (add_words 0 src) dst in
    fold_carries (add_words (add_words sum (htons len ∷ htons proto ∷ [])) words)

-- What `zconf` says of the source ports.
pub record SourcePorts : Type 0 where
  pub source_port_first : ℕ
  pub source_port_last : ℕ
  pub packet_streams : ℕ

-- `!=` on truth values.
abbrev pub not_equal : Bool → Bool → Bool
not_equal true b = not b
not_equal false b = b

-- `validation₁` is `validation[1]`. The comparisons are of numbers below 2^31.
unfoldable pub check_dst_port : SourcePorts → ℕ → ℕ → ℕ → Bool
check_dst_port conf port num_ports validation₁ =
    let to_validate = port - conf.source_port_first in
    let min = validation₁ % num_ports in
    let max = u32 (validation₁ + conf.packet_streams + (2 ^ 32 - 1)) % num_ports in
    if ltb conf.source_port_last port || ltb port conf.source_port_first
    then false
    else if leb min max
    then leb to_validate max && leb min to_validate
    else not_equal (leb to_validate max) (leb min to_validate)

unfoldable pub get_src_port : SourcePorts → ℕ → ℕ → ℕ → ℕ
get_src_port conf num_ports probe_num validation₁ =
    u16 (conf.source_port_first + u32 (validation₁ + probe_num) % num_ports)

-- A port outside of the bitmap reads as not set; the source's bitmap is there if this is called.
unfoldable pub check_src_port : ℕ → PortConf → Bool
check_src_port port ports = elim ports.port_bitmap [ none ↦ false | some bm ↦ bm_check bm port ]

unfoldable pub get_ip_header : ℕ → Option ℕ
get_ip_header len = if ltb len ether_size then none else some ether_size

unfoldable pub get_tcp_header : Ip → ℕ → ℕ → Option ℕ
get_tcp_header ip at len =
    if ltb len (4 * ip.ip_hl + tcp_size) then none else some (at + 4 * ip.ip_hl)

unfoldable pub get_udp_header : Ip → ℕ → ℕ → Option ℕ
get_udp_header ip at len =
    if ltb len (4 * ip.ip_hl + udp_size) then none else some (at + 4 * ip.ip_hl)

unfoldable pub get_icmp_header : Ip → ℕ → ℕ → Option ℕ
get_icmp_header ip at len =
    if ltb len (4 * ip.ip_hl + icmp_size) then none else some (at + 4 * ip.ip_hl)

-- The headers behind an IPv6 header; `plen` is its payload length in host order.
unfoldable pub get_tcp_header_ipv6 : ℕ → ℕ → ℕ → Option ℕ
get_tcp_header_ipv6 plen at len = if ltb len plen then none else some (at + ip6_size)

unfoldable pub get_udp_header_ipv6 : ℕ → ℕ → ℕ → Option ℕ
get_udp_header_ipv6 plen at len = if ltb len plen then none else some (at + ip6_size)

unfoldable pub get_udp_payload : ℕ → ℕ
get_udp_payload udp = udp + udp_size

unfoldable pub get_inner_ip_header : ℕ → ℕ → Option ℕ
get_inner_ip_header icmp len =
    if ltb len (icmp_unreach_header_size + ip_size)
    then none
    else some (icmp + icmp_unreach_header_size)

-- The ICMP messages that quote a probe: unreachable, source quench, redirect, time exceeded.
unfoldable pub quotes_probe : ℕ → Bool
quotes_probe icmp_type = icmp_type == 3 || icmp_type == 4 || icmp_type == 5 || icmp_type == 11

-- `icmp_helper_validate` on an ICMP packet whose IP header is at 0: the quoted probe and the
-- length that is left from there.
unfoldable pub icmp_helper_validate : (ℕ → Bool) → Memory → ℕ → ℕ → Option (ℕ × ℕ)
unfolding quotes_probe
icmp_helper_validate is_allowed mem len min_l4_len =
    let ip = mem.ip_at 0 in
    let min_len = 4 * ip.ip_hl + icmp_header_size + ip_size + min_l4_len in
    let icmp = 4 * ip.ip_hl in
    let inner = icmp + icmp_header_size in
    let ip_inner = mem.ip_at inner in
    let inner_len = len - (4 * ip.ip_hl + icmp_header_size) in
    if ltb len min_len
    then none
    else if not (quotes_probe (mem.icmp_type_at icmp))
    then none
    else if ltb inner_len (4 * ip_inner.ip_hl + min_l4_len)
    then none
    else if not (is_allowed ip_inner.ip_dst)
    then none
    else some (inner, inner_len)
