-- ===== src/Synscan/Answer.antt =====
-- src/probe_modules/module_tcp_synscan.c: `synscan_validate_packet` accepts the answers to the
-- probes that `synscan_make_packet` makes, and no other TCP packets.
use zmap_embedded_ip.Base.{
  ℕ, ◌+◌, ◌*◌, ◌/◌, ◌%◌, ◌^◌, ◌⊎◌, ◌==◌, has_bit, has_bit-pow, ◌≤◌, ◌<◌, ◌≡◌, ◌↔◌, refl, sym, ◌∙◌,
  inl, inr, Bool, true, false, ◌&&◌, ◌||◌, not, none, some, Bool-cases, ltb, ltb→le, le→ltb,
  if◌then◌else◌, u32, arith,
}
use zmap_embedded_ip.Ports.{PortConf}
use zmap_embedded_ip.Packet.{
  ByteOrder, Tcp, Memory, SourcePorts, check_dst_port, check_src_port, get_src_port, get_tcp_header,
}
use zmap_embedded_ip.Packet.Scanned.{IsScanned, check_src_port-IsScanned}
use zmap_embedded_ip.Packet.SourcePort.{IsConfigured, check_dst_port-get_src_port}
use zmap_embedded_ip.Synscan.{
  Synscan, Prepared, Probe, synscan_make_packet, ack_fits, validate_tcp, synscan_validate_packet,
}

-- An acknowledgement of a sequence number: the number after it or, with RST, which is bit 2 of the
-- flags, this number itself.
pub Acknowledges : ByteOrder → Tcp → ℕ → Type 0
Acknowledges order tcp seq =
    (order.htonl tcp.th_ack ≡ u32 (order.htonl seq + 1))
    ⊎ ((tcp.th_flags / 4 % 2 ≡ 1) × (order.htonl tcp.th_ack ≡ order.htonl seq))

ack_fits-Acknowledges :
    (order : ByteOrder) (tcp : Tcp) (seq : ℕ)
    → (ack_fits order tcp seq ≡ true) ↔ Acknowledges order tcp seq
unfolding ack_fits Acknowledges
ack_fits-Acknowledges order tcp seq =
    let rst : has_bit tcp.th_flags 4 ≡ (tcp.th_flags / 4 % 2 == 1) = has_bit-pow 2 tcp.th_flags in
    (λ h. ground (arith, h, rst), λ a. ground (arith, a, rst))

-- A TCP packet that answers one of the probes to its source: long enough, from a port that is
-- scanned (where that is checked), to the port of a probe, from an address that is scanned, with
-- an acknowledgement of the probe's sequence number.
pub record IsAnswer (order : ByteOrder) (conf : SourcePorts) (st : Synscan) (is_allowed : ℕ → Bool)
    (ports : PortConf) (mem : Memory) (len src_ip : ℕ) (validation : ℕ → ℕ) : Type 0 where
  pub fits : 4 * (mem.ip_at 0).ip_hl + 20 ≤ len
  pub from_port :
      st.should_validate_src_port ≡ true
      → IsScanned ports (order.ntohs (mem.tcp_at (4 * (mem.ip_at 0).ip_hl)).th_sport)
  pub to_probe :
      (k : ℕ) × (k < conf.packet_streams)
      × (get_src_port conf st.num_source_ports k (validation 1)
          ≡ order.ntohs (mem.tcp_at (4 * (mem.ip_at 0).ip_hl)).th_dport)
  pub allowed : is_allowed src_ip ≡ true
  pub ack : Acknowledges order (mem.tcp_at (4 * (mem.ip_at 0).ip_hl)) (validation 0)

-- The tests of a packet that is long enough.
abbrev tests :
    ByteOrder → SourcePorts → Synscan → (ℕ → Bool) → PortConf → Memory → ℕ → (ℕ → ℕ) → Bool
tests order conf st is_allowed ports mem src_ip validation =
    let tcp = mem.tcp_at (4 * (mem.ip_at 0).ip_hl) in
    (not st.should_validate_src_port || check_src_port (order.ntohs tcp.th_sport) ports)
    && check_dst_port conf (order.ntohs tcp.th_dport) st.num_source_ports (validation 1)
    && is_allowed src_ip
    && ack_fits order tcp (validation 0)

validate_tcp-tests :
    (order : ByteOrder) (conf : SourcePorts) (st : Synscan) (is_allowed : ℕ → Bool)
    (ports : PortConf) (mem : Memory) (len src_ip : ℕ) (validation : ℕ → ℕ)
    → validate_tcp order conf st is_allowed ports mem len src_ip validation ≡ (
        if ltb len (4 * (mem.ip_at 0).ip_hl + 20)
        then false
        else tests order conf st is_allowed ports mem src_ip validation)
unfolding validate_tcp get_tcp_header
validate_tcp-tests order conf st is_allowed ports mem len src_ip validation =
    let start : 0 + 4 * (mem.ip_at 0).ip_hl ≡ 4 * (mem.ip_at 0).ip_hl = omega arith in
    elim (Bool-cases (ltb len (4 * (mem.ip_at 0).ip_hl + 20))) [
      | inl e ↦ rw (validate_tcp, get_tcp_header, e) refl
      | inr e ↦ rw (validate_tcp, get_tcp_header, e, start) refl
    ]

all_hold :
    (a b c d : Bool) → (a && b && c && d) ≡ true → (a ≡ true) × (b ≡ true) × (c ≡ true) × (d ≡ true)
all_hold a b c d h = ground (arith, h)

pub guard : {b c : Bool} → (if b then false else c) ≡ true → (b ≡ false) × (c ≡ true)
guard {b = true} {c = c} h = cc
guard {b = false} {c = c} h = (refl, h)

pub implied : {b c : Bool} → (not b || c) ≡ true → b ≡ true → c ≡ true
implied {b = true} {c = c} h e = h
implied {b = false} {c = c} h e = cc

pub implies : (b : Bool) {c : Bool} → (b ≡ true → c ≡ true) → (not b || c) ≡ true
implies true h = h refl
implies false h = refl

accepted : {b : Bool} {v : ℕ → ℕ} → (if b then some v else none) ≡ some v → b ≡ true
accepted {b = true} h = refl
accepted {b = false} h = cc

validate_tcp-IsAnswer :
    (order : ByteOrder) (conf : SourcePorts) (st : Synscan) (is_allowed : ℕ → Bool)
    (ports : PortConf) (mem : Memory) (len src_ip : ℕ) (validation : ℕ → ℕ)
    → IsConfigured conf st.num_source_ports (validation 1)
    → (validate_tcp order conf st is_allowed ports mem len src_ip validation ≡ true)
      ↔ IsAnswer order conf st is_allowed ports mem len src_ip validation
validate_tcp-IsAnswer order conf st is_allowed ports mem len src_ip validation c =
    let port = order.ntohs (mem.tcp_at (4 * (mem.ip_at 0).ip_hl)).th_dport in
    let tcp = mem.tcp_at (4 * (mem.ip_at 0).ip_hl) in
    let scanned = check_src_port-IsScanned ports (order.ntohs tcp.th_sport) in
    let acks = ack_fits-Acknowledges order tcp (validation 0) in
    let port_iff = check_dst_port-get_src_port conf port st.num_source_ports (validation 1) c in
    let run = validate_tcp-tests order conf st is_allowed ports mem len src_ip validation in
    (
      λ e.
          let held =
            guard {b = ltb len (4 * (mem.ip_at 0).ip_hl + 20)}
              {c = tests order conf st is_allowed ports mem src_ip validation} (sym run ∙ e) in
          let (long, passed) = held in
          let (src, dst, allowed, ack) =
            all_hold
              (not st.should_validate_src_port
                || check_src_port (order.ntohs (mem.tcp_at (4 * (mem.ip_at 0).ip_hl)).th_sport)
                    ports)
              (check_dst_port conf port st.num_source_ports (validation 1)) (is_allowed src_ip)
              (ack_fits order (mem.tcp_at (4 * (mem.ip_at 0).ip_hl)) (validation 0)) passed in
          record {
            fits = ltb→le len (4 * (mem.ip_at 0).ip_hl + 20) long;
            from_port = λ checked. scanned.0 (implied src checked);
            to_probe = port_iff.0 dst;
            allowed = allowed;
            ack = acks.0 ack;
          },
      λ a.
          run
          ∙ rw
              (
                le→ltb len (4 * (mem.ip_at 0).ip_hl + 20) a.fits,
                implies st.should_validate_src_port (λ checked. scanned.1 (a.from_port checked)),
                port_iff.1 a.to_probe,
                a.allowed,
              )
              (acks.1 a.ack),
    )

-- For a range of source ports with enough ports for the probes to a target, and unless the sum of
-- the second word of the validation and the number of probes is above 2^32: a TCP packet is accepted
-- exactly if it answers one of the probes to its source, and the validation is left as it is.
pub synscan_validate_packet-IsAnswer :
    (order : ByteOrder) (conf : SourcePorts) (st : Synscan) (is_allowed : ℕ → Bool)
    (validate_gen : ℕ → ℕ → ℕ → ℕ → ℕ) (ports : PortConf) (mem : Memory) (len src_ip : ℕ)
    (validation : ℕ → ℕ)
    → IsConfigured conf st.num_source_ports (validation 1)
    → (mem.ip_at 0).ip_p ≡ 6
    → (synscan_validate_packet order conf st is_allowed validate_gen ports mem len src_ip validation
        ≡ some validation)
      ↔ IsAnswer order conf st is_allowed ports mem len src_ip validation
unfolding synscan_validate_packet
synscan_validate_packet-IsAnswer order conf st is_allowed validate_gen ports mem len src_ip
      validation c is_tcp =
    let valid = validate_tcp-IsAnswer order conf st is_allowed ports mem len src_ip validation c in
    let shape : synscan_validate_packet order conf st is_allowed validate_gen ports mem len src_ip
          validation
        ≡ (if validate_tcp order conf st is_allowed ports mem len src_ip validation
            then some validation
            else none) =
      rw (synscan_validate_packet, is_tcp) refl in
    (λ e. valid.0 (accepted (sym shape ∙ e)), λ a. shape ∙ rw (valid.1 a) refl)

-- The conversions of 16-bit numbers undo one another.
abbrev pub IsFaithful : ByteOrder → Type 0
IsFaithful order = (x : ℕ) → x < 2 ^ 16 → order.ntohs (order.htons x) ≡ x

-- A target's answer to a probe with the ports of the probe swapped, and the sequence number plus one
-- as its acknowledgement number.
pub record Replies (order : ByteOrder) (probe : Probe) (mem : Memory) (len : ℕ) : Type 0 where
  pub is_tcp : (mem.ip_at 0).ip_p ≡ 6
  pub fits : 4 * (mem.ip_at 0).ip_hl + 20 ≤ len
  pub sport : (mem.tcp_at (4 * (mem.ip_at 0).ip_hl)).th_sport ≡ probe.th_dport
  pub dport : (mem.tcp_at (4 * (mem.ip_at 0).ip_hl)).th_dport ≡ probe.th_sport
  pub ack :
      order.htonl (mem.tcp_at (4 * (mem.ip_at 0).ip_hl)).th_ack ≡ u32 (order.htonl probe.th_seq + 1)

get_src_port-small : (conf : SourcePorts) (n k v : ℕ) → get_src_port conf n k v < 2 ^ 16
unfolding get_src_port
get_src_port-small conf n k v = omega arith

-- For a range of source ports with enough ports for the probes to a target, and unless the sum of
-- the second word of the validation and the number of probes is above 2^32: the reply of a scanned
-- address to any of the probes that `synscan_make_packet` makes, from a scanned port, is accepted,
-- whatever the reply's flags are.
pub synscan_make_packet-answered :
    (order : ByteOrder) (conf : SourcePorts) (st : Synscan) (prep : Prepared)
    (is_allowed : ℕ → Bool) (validate_gen : ℕ → ℕ → ℕ → ℕ → ℕ) (ports : PortConf) (mem : Memory)
    (src_ip dst_ip dport ttl k ip_id len : ℕ) (validation : ℕ → ℕ)
    → IsFaithful order
    → IsConfigured conf st.num_source_ports (validation 1)
    → k < conf.packet_streams
    → is_allowed dst_ip ≡ true
    → IsScanned ports (order.ntohs dport)
    → Replies order
        (synscan_make_packet order conf st prep src_ip dst_ip dport ttl validation k ip_id)
        mem
        len
    → synscan_validate_packet order conf st is_allowed validate_gen ports mem len dst_ip validation
      ≡ some validation
unfolding synscan_make_packet Acknowledges
synscan_make_packet-answered order conf st prep is_allowed validate_gen ports mem src_ip dst_ip
      dport ttl k ip_id len validation faithful c in_range allowed scanned r =
    let at = 4 * (mem.ip_at 0).ip_hl in
    let sport = get_src_port conf st.num_source_ports k (validation 1) in
    let small : sport < 2 ^ 16 = get_src_port-small conf st.num_source_ports k (validation 1) in
    let answer : IsAnswer order conf st is_allowed ports mem len dst_ip validation = record {
      fits = r.fits;
      from_port = λ checked. rw r.sport scanned;
      to_probe = (k, in_range, rw r.dport (sym (faithful sport small)));
      allowed = allowed;
      ack = inl r.ack;
    } in
    (synscan_validate_packet-IsAnswer order conf st is_allowed validate_gen ports mem len dst_ip
        validation c r.is_tcp).1
      answer
