-- ===== src/Udp/Answer.antt =====
-- src/probe_modules/module_udp.c: `udp_do_validate_packet` accepts the answers to UDP probes and the
-- ICMP messages that quote one, and no other packets.
use mathlib.Core.Option.{some-injective}
use zmap_embedded_ip.Base.{
  ◌⊎◌, ℕ, ◌+◌, ◌*◌, ◌≤◌, ◌<◌, ◌≡◌, ◌↔◌, refl, sym, ◌∙◌, inl, inr, Bool, true, false, ◌&&◌, ◌||◌,
  not, some, Bool-cases, Option-cases, ltb, ltb→le, le→ltb, if◌then◌else◌, ◌==◌, ==_iff, arith,
}
use zmap_embedded_ip.Ports.{PortConf}
use zmap_embedded_ip.Packet.{
  ByteOrder, Memory, SourcePorts, get_src_port, check_dst_port, check_src_port, get_udp_header,
  icmp_helper_validate,
}
use zmap_embedded_ip.Packet.Bounds.{
  IsQuoted, icmp_helper_validate-IsQuoted, icmp_helper_validate-quoted,
}
use zmap_embedded_ip.Packet.Scanned.{IsScanned, check_src_port-IsScanned}
use zmap_embedded_ip.Packet.SourcePort.{IsConfigured, check_dst_port-get_src_port}
use zmap_embedded_ip.Synscan.Answer.{guard, implied, implies}
use zmap_embedded_ip.Udp.{udp_at, validate_udp, validate_quoted_udp, udp_do_validate_packet}

all_three : (a b c : Bool) → (a && b && c) ≡ true → (a ≡ true) × (b ≡ true) × (c ≡ true)
all_three a b c h = ground (arith, h)

both : (a b : Bool) → (a && b) ≡ true → (a ≡ true) × (b ≡ true)
both a b h = ground (arith, h)

module _ (order : ByteOrder) (conf : SourcePorts) (is_allowed : ℕ → Bool) (ports : PortConf)
    (mem : Memory) (len src_ip : ℕ) (validation : ℕ → ℕ) (num_ports : ℕ)
    (validate_port : Bool) where
  -- A port that one of the probes was sent from, by the words of the validation.
  pub IsProbePort : ℕ → Type 0
  IsProbePort port =
      (k : ℕ) × (k < conf.packet_streams) × (get_src_port conf num_ports k (validation 1) ≡ port)

  -- A UDP packet with a whole header, to a port of a probe, from an address that is scanned and,
  -- where that is checked, from a port that is scanned.
  pub record IsUdpAnswer : Type 0 where
    pub kind : (mem.ip_at 0).ip_p ≡ 17
    pub fits : 4 * (mem.ip_at 0).ip_hl + 8 ≤ len
    pub to_probe : IsProbePort (order.ntohs (udp_at order mem (4 * (mem.ip_at 0).ip_hl)).uh_dport)
    pub allowed : is_allowed src_ip ≡ true
    pub from_port :
        validate_port ≡ true
        → IsScanned ports (order.ntohs (udp_at order mem (4 * (mem.ip_at 0).ip_hl)).uh_sport)

  -- An ICMP message that quotes a UDP packet to a scanned address and port, from the port of a probe
  -- by the words of the validation, which are those for the sender of the message.
  pub record QuotesProbe : Type 0 where
    pub kind : (mem.ip_at 0).ip_p ≡ 1
    pub inner : ℕ
    pub inner_len : ℕ
    pub quotes : IsQuoted is_allowed mem len 8 inner inner_len
    pub to_port :
        IsScanned ports
          (order.ntohs (udp_at order mem (inner + 4 * (mem.ip_at inner).ip_hl)).uh_dport)
    pub from_probe :
        IsProbePort (order.ntohs (udp_at order mem (inner + 4 * (mem.ip_at inner).ip_hl)).uh_sport)

  -- The test of a port for a range of source ports that has enough of them.
  probe_port :
      IsConfigured conf num_ports (validation 1)
      → (port : ℕ) → (check_dst_port conf port num_ports (validation 1) ≡ true) ↔ IsProbePort port
  unfolding IsProbePort
  probe_port set port = check_dst_port-get_src_port conf port num_ports (validation 1) set

  -- The header of a quoted probe is there.
  quoted_udp :
      (inner inner_len : ℕ)
      → icmp_helper_validate is_allowed mem len 8 ≡ some (inner, inner_len)
      → validate_quoted_udp order conf ports mem inner inner_len validation num_ports ≡ (
          let udp = udp_at order mem (inner + 4 * (mem.ip_at inner).ip_hl) in
          some (
            check_src_port (order.ntohs udp.uh_dport) ports
            && check_dst_port conf (order.ntohs udp.uh_sport) num_ports (validation 1)))
  unfolding validate_quoted_udp get_udp_header
  quoted_udp inner inner_len e =
      let quoted = icmp_helper_validate-IsQuoted is_allowed mem len 8 inner inner_len e in
      let fits : ltb inner_len (4 * (mem.ip_at inner).ip_hl + 8) ≡ false =
        le→ltb _ _ quoted.l4_fits in
      rw (validate_quoted_udp, fits) refl

  udp_answer-start : 0 + 4 * (mem.ip_at 0).ip_hl ≡ 4 * (mem.ip_at 0).ip_hl
  udp_answer-start = omega arith

  -- The tests of a UDP packet that is long enough.
  abbrev tests : Bool
  tests =
      let udp = udp_at order mem (4 * (mem.ip_at 0).ip_hl) in
      check_dst_port conf (order.ntohs udp.uh_dport) num_ports (validation 1)
      && is_allowed src_ip
      && (not validate_port || check_src_port (order.ntohs udp.uh_sport) ports)

  validate_udp-tests :
      validate_udp order conf is_allowed ports mem len src_ip validation num_ports validate_port
      ≡ (if ltb len (4 * (mem.ip_at 0).ip_hl + 8) then false else tests)
  unfolding validate_udp get_udp_header
  validate_udp-tests = elim (Bool-cases (ltb len (4 * (mem.ip_at 0).ip_hl + 8))) [
    | inl e ↦ rw (validate_udp, e) refl
    | inr e ↦ rw (validate_udp, e, udp_answer-start) refl
  ]

  answer_run :
      (mem.ip_at 0).ip_p ≡ 17
      → udp_do_validate_packet order conf is_allowed ports mem len src_ip validation num_ports
          validate_port
        ≡ some (if ltb len (4 * (mem.ip_at 0).ip_hl + 8) then false else tests)
  unfolding udp_do_validate_packet
  answer_run kind =
      let is_udp : ((mem.ip_at 0).ip_p == 17) ≡ true = (==_iff _ 17).1 kind in
      rw (is_udp, validate_udp-tests) refl

  quote_run :
      (inner inner_len : ℕ)
      → (mem.ip_at 0).ip_p ≡ 1
      → icmp_helper_validate is_allowed mem len 8 ≡ some (inner, inner_len)
      → udp_do_validate_packet order conf is_allowed ports mem len src_ip validation num_ports
          validate_port
        ≡ (let udp = udp_at order mem (inner + 4 * (mem.ip_at inner).ip_hl) in
            some (
              check_src_port (order.ntohs udp.uh_dport) ports
              && check_dst_port conf (order.ntohs udp.uh_sport) num_ports (validation 1)))
  unfolding udp_do_validate_packet
  quote_run inner inner_len kind quotes =
      let no_udp : ((mem.ip_at 0).ip_p == 17) ≡ false = ground (arith, kind) in
      let is_icmp : ((mem.ip_at 0).ip_p == 1) ≡ true = (==_iff _ 1).1 kind in
      rw (no_udp, is_icmp, quotes) (quoted_udp inner inner_len quotes)

  -- No header is read through NULL.
  udp_do_validate_packet-total :
      (b : Bool) × (udp_do_validate_packet order conf is_allowed ports mem len src_ip validation
          num_ports validate_port
        ≡ some b)
  unfolding udp_do_validate_packet
  udp_do_validate_packet-total = elim (Bool-cases ((mem.ip_at 0).ip_p == 17)) [
    | inl e ↦ (_, answer_run ((==_iff _ 17).0 e))
    | inr e ↦ elim (Bool-cases ((mem.ip_at 0).ip_p == 1)) [
      | inr other ↦ (false, rw (e, other) refl)
      | inl icmp ↦ elim (Option-cases (icmp_helper_validate is_allowed mem len 8)) [
        | inl bad ↦ (false, rw (e, icmp, bad) refl)
        | inr ((inner, inner_len), good) ↦ (_, quote_run inner inner_len ((==_iff _ 1).0 icmp) good)
      ]
    ]
  ]

  answer-accepted :
      IsConfigured conf num_ports (validation 1)
      → IsUdpAnswer
      → udp_do_validate_packet order conf is_allowed ports mem len src_ip validation num_ports
          validate_port
        ≡ some true
  answer-accepted set a =
      let udp = udp_at order mem (4 * (mem.ip_at 0).ip_hl) in
      let port = (probe_port set (order.ntohs udp.uh_dport)).1 a.to_probe in
      let scanned = check_src_port-IsScanned ports (order.ntohs udp.uh_sport) in
      let fits : ltb len (4 * (mem.ip_at 0).ip_hl + 8) ≡ false = le→ltb _ _ a.fits in
      let last = implies validate_port (λ checked. scanned.1 (a.from_port checked)) in
      answer_run a.kind ∙ rw (fits, port, a.allowed, last) refl

  quote-accepted :
      IsConfigured conf num_ports (validation 1)
      → QuotesProbe
      → udp_do_validate_packet order conf is_allowed ports mem len src_ip validation num_ports
          validate_port
        ≡ some true
  quote-accepted set q =
      let udp = udp_at order mem (q.inner + 4 * (mem.ip_at q.inner).ip_hl) in
      let port = (check_src_port-IsScanned ports (order.ntohs udp.uh_dport)).1 q.to_port in
      let probe = (probe_port set (order.ntohs udp.uh_sport)).1 q.from_probe in
      let accepted =
        icmp_helper_validate-quoted is_allowed mem len 8 q.inner q.inner_len q.quotes in
      quote_run q.inner q.inner_len q.kind accepted ∙ rw (port, probe) refl

  accepted-answer :
      IsConfigured conf num_ports (validation 1)
      → (mem.ip_at 0).ip_p ≡ 17
      → udp_do_validate_packet order conf is_allowed ports mem len src_ip validation num_ports
          validate_port
        ≡ some true
      → IsUdpAnswer
  accepted-answer set kind h =
      let holds = some-injective _ _ (sym (answer_run kind) ∙ h) in
      let (fits, ok) = guard holds in
      let (port, allowed, source) = all_three _ _ _ ok in
      record {
        kind = kind;
        fits = ltb→le _ _ fits;
        to_probe = (probe_port set _).0 port;
        allowed = allowed;
        from_port = λ checked. (check_src_port-IsScanned ports _).0 (implied source checked);
      }

  accepted-quote :
      IsConfigured conf num_ports (validation 1)
      → (mem.ip_at 0).ip_p ≡ 1
      → udp_do_validate_packet order conf is_allowed ports mem len src_ip validation num_ports
          validate_port
        ≡ some true
      → QuotesProbe
  unfolding udp_do_validate_packet
  accepted-quote set kind h = elim (Option-cases (icmp_helper_validate is_allowed mem len 8)) [
    | inl bad ↦
        let no_udp : ((mem.ip_at 0).ip_p == 17) ≡ false = ground (arith, kind) in
        let is_icmp : ((mem.ip_at 0).ip_p == 1) ≡ true = (==_iff _ 1).1 kind in
        let h' = rw (no_udp, is_icmp, bad) at h in cc
    | inr ((inner, inner_len), good) ↦
        let holds = some-injective _ _ (sym (quote_run inner inner_len kind good) ∙ h) in
        let (port, probe) = both _ _ holds in
        record {
          kind = kind;
          inner = inner;
          inner_len = inner_len;
          quotes = icmp_helper_validate-IsQuoted is_allowed mem len 8 inner inner_len good;
          to_port = (check_src_port-IsScanned ports _).0 port;
          from_probe = (probe_port set _).0 probe;
        }
  ]

  -- For a range of source ports with enough ports for the probes to a target, and unless the sum of
  -- the second word of the validation and the number of probes is above 2^32: no header is read
  -- through NULL, and exactly these packets are accepted. A UDP packet with a whole header, from a
  -- scanned address and, where that is checked, a scanned port, to the source port of a probe; and an
  -- ICMP error message that quotes a whole UDP header to a scanned address and port, from the source
  -- port of a probe. Both source ports are those of the validation at hand, which is that of the
  -- sender of the packet, for an ICMP message too.
  pub udp_do_validate_packet-IsUdpAnswer :
      IsConfigured conf num_ports (validation 1)
      → ((b : Bool) × (udp_do_validate_packet order conf is_allowed ports mem len src_ip validation
              num_ports validate_port
            ≡ some b))
        × ((udp_do_validate_packet order conf is_allowed ports mem len src_ip validation num_ports
                validate_port
              ≡ some true)
            ↔ (IsUdpAnswer ⊎ QuotesProbe))
  unfolding udp_do_validate_packet
  udp_do_validate_packet-IsUdpAnswer set = (
    udp_do_validate_packet-total,
    (
      λ h. elim (Bool-cases ((mem.ip_at 0).ip_p == 17)) [
        | inl e ↦ inl (accepted-answer set ((==_iff _ 17).0 e) h)
        | inr e ↦ elim (Bool-cases ((mem.ip_at 0).ip_p == 1)) [
          | inl icmp ↦ inr (accepted-quote set ((==_iff _ 1).0 icmp) h)
          | inr other ↦ let h' = rw (e, other) at h in cc
        ]
      ],
      λ a. elim a [
        | inl answer ↦ answer-accepted set answer
        | inr quote ↦ quote-accepted set quote
      ],
    ),
  )
