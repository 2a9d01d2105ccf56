-- ===== src/Scan.antt =====
-- src/send.c, src/validate.c, src/probe_modules/module_tcp_synscan.c, src/recv.c: the way of a probe
-- from the sender to its target and of the answer through the receiver.
use zmap_embedded_ip.Base.{
  ℕ, ◌+◌, ◌-◌, ◌*◌, ◌^◌, ◌≤◌, ◌<◌, ◌≡◌, refl, ◌∙◌, Bool, true, false, none, some, List, ltb, le→ltb,
  u32, has_bit, arith,
}
use zmap_embedded_ip.Fieldset.{Str}
use zmap_embedded_ip.Ports.{PortConf}
use zmap_embedded_ip.Packet.{ByteOrder, Memory, SourcePorts, get_tcp_header}
use zmap_embedded_ip.Packet.Scanned.{IsScanned}
use zmap_embedded_ip.Packet.SourcePort.{IsConfigured}
use zmap_embedded_ip.Validate.{validate_gen}
use zmap_embedded_ip.Synscan.{Synscan, Prepared, synscan_make_packet, synscan_validate_packet}
use zmap_embedded_ip.Synscan.Process.{synscan_process_packet}
use zmap_embedded_ip.Synscan.Answer.{IsFaithful, Replies, synscan_make_packet-answered}
use zmap_embedded_ip.Send.{get_src_ip}
use zmap_embedded_ip.Send
use zmap_embedded_ip.Recv.{
  ProbeModule, Conf, Captured, Answer, valid, judge, verdict_of, src_port_of, from,
}

-- `module_tcp_synscan` as the receiver calls it. It leaves the source address as it is.
unfoldable pub module_tcp_synscan :
    ByteOrder
    → SourcePorts
    → Synscan
    → (ℕ → Bool)
    → (List ℕ → ℕ → ℕ)
    → PortConf
    → (ℕ → Str)
    → ProbeModule
unfolding synscan_validate_packet synscan_process_packet validate_gen
module_tcp_synscan order ports st is_allowed encrypt target_ports inet_ntoa = record {
  validate_packet = λ mem len src_ip validation.
      elim (synscan_validate_packet order ports st is_allowed (validate_gen encrypt) target_ports
        mem len src_ip validation) [ none ↦ none | some validation' ↦ some (src_ip, validation') ];
  process_packet = λ mem len fs validation ts. synscan_process_packet order inet_ntoa mem len fs;
}

-- A scan with this module: the receiver is set up with it and with the key of the sender.
pub record IsSynscan (conf : Conf) (ports : SourcePorts) (st : Synscan) (is_allowed : ℕ → Bool)
    (encrypt : List ℕ → ℕ → ℕ) (target_ports : PortConf) : Type 0 where
  pub same_module :
      conf.probe_module
      ≡ module_tcp_synscan conf.order ports st is_allowed encrypt target_ports conf.inet_ntoa
  pub same_key : conf.validate_gen ≡ validate_gen encrypt
  pub ethernet : conf.send_ip_pkts ≡ false

-- A captured frame: from the target to the source of the probe, of a length that holds the headers.
pub record IsCaptured (conf : Conf) (src_ip dst_ip : ℕ) (c : Captured) : Type 0 where
  pub source : (c.bytes.ip_at (conf.data_link_size + 0)).ip_src ≡ dst_ip
  pub destination : (c.bytes.ip_at (conf.data_link_size + 0)).ip_dst ≡ src_ip
  pub holds_ip : 20 + conf.data_link_size ≤ c.buflen
  pub link : 14 ≤ conf.data_link_size
  pub length : c.buflen < 2 ^ 32

src_port-reply :
    (mem : Memory) (len : ℕ)
    → (mem.ip_at 0).ip_p ≡ 6
    → 4 * (mem.ip_at 0).ip_hl + 20 ≤ len
    → src_port_of mem len ≡ (mem.tcp_at (4 * (mem.ip_at 0).ip_hl)).th_sport
unfolding src_port_of get_tcp_header
src_port-reply mem len is_tcp fits =
    let start : 0 + 4 * (mem.ip_at 0).ip_hl ≡ 4 * (mem.ip_at 0).ip_hl = omega arith in
    rw (src_port_of, is_tcp, get_tcp_header, le→ltb len (4 * (mem.ip_at 0).ip_hl + 20) fits, start)
      refl

verdict_of-some :
    (c : Captured) (src_port : ℕ) (fragment : Bool) (src_ip : ℕ) (validation : ℕ → ℕ)
    → (a : Answer) × (verdict_of c src_port fragment (some (src_ip, validation)) ≡ valid a)
      × (a.src_ip ≡ src_ip)
      × (a.validation ≡ validation)
unfolding verdict_of
verdict_of-some c src_port fragment src_ip validation = (_, refl, refl, refl)

-- In a SYN scan over Ethernet, for a range of source ports with enough ports for the probes to a
-- target, and unless the sum of the second word of the validation and the number of probes is above
-- 2^32: the answer of an allowed target, from a scanned port, to the probe that the sender makes for a
-- stream is judged valid by the receiver, for the target's address and with the probe's validation.
pub judge-reply :
    (conf : Conf) (send : Send.Conf) (ports : SourcePorts) (st : Synscan) (prep : Prepared)
    (is_allowed : ℕ → Bool) (encrypt : List ℕ → ℕ → ℕ) (target_ports : PortConf) (c : Captured)
    (dst_ip port ttl k ip_id : ℕ)
    → let order = conf.order in
      let src_ip = get_src_ip send dst_ip k in
      let validation = validate_gen encrypt src_ip dst_ip (order.htons port) in
      IsSynscan conf ports st is_allowed encrypt target_ports
      → IsFaithful order
      → IsConfigured ports st.num_source_ports (validation 1)
      → k < ports.packet_streams
      → is_allowed dst_ip ≡ true
      → port < 2 ^ 16
      → IsScanned target_ports port
      → IsCaptured conf src_ip dst_ip c
      → Replies order
          (synscan_make_packet order ports st prep src_ip dst_ip
            (order.htons port)
            ttl
            validation
            k
            ip_id)
          (from conf.data_link_size c.bytes)
          (c.buflen - 14)
      → (a : Answer) × (judge conf c ≡ valid a) × (a.src_ip ≡ dst_ip) × (a.validation ≡ validation)
unfolding judge synscan_make_packet module_tcp_synscan
judge-reply conf send ports st prep is_allowed encrypt target_ports c dst_ip port ttl k ip_id scan
      faithful set in_range allowed small listed held r =
    let order = conf.order in
    let src_ip = get_src_ip send dst_ip k in
    let validation = validate_gen encrypt src_ip dst_ip (order.htons port) in
    let mem = from conf.data_link_size c.bytes in
    let len : u32 (c.buflen + (2 ^ 32 - 14)) ≡ c.buflen - 14 =
      omega (arith, held.holds_ip, held.link, held.length) in
    let long : ltb c.buflen (20 + conf.data_link_size) ≡ false = le→ltb _ _ held.holds_ip in
    let accepted =
      synscan_make_packet-answered order ports st prep is_allowed (validate_gen encrypt)
        target_ports mem src_ip dst_ip (order.htons port) ttl k ip_id (c.buflen - 14) validation
        faithful set in_range allowed (rw (faithful port small) listed) r in
    let same_port : src_port_of mem (c.buflen - 14) ≡ order.htons port =
      src_port-reply mem (c.buflen - 14) r.is_tcp r.fits ∙ r.sport in
    let accepts : (module_tcp_synscan order ports st is_allowed encrypt target_ports
            conf.inet_ntoa).validate_packet
          mem (c.buflen - 14) dst_ip validation
        ≡ some (dst_ip, validation) =
      rw (module_tcp_synscan, accepted) refl in
    let fragment = has_bit (mem.ip_at 0).ip_off (2 ^ 13) in
    let run : judge conf c ≡ verdict_of c (order.htons port) fragment (some (dst_ip, validation)) =
      rw
        (
          judge, scan.ethernet, len, long, same_port, scan.same_key, held.destination, held.source,
          scan.same_module, accepts,
        )
        refl in
    let (a, is_valid, src, words) =
      verdict_of-some c (order.htons port) fragment dst_ip validation in
    (a, run ∙ is_valid, src, words)
