-- ===== src/Packet/SourcePort.antt =====
-- src/probe_modules/packet.h: the source ports of probes, and the test of an answer's port.
use zmap_embedded_ip.Base.{
  ℕ, ◌+◌, ◌-◌, ◌%◌, ◌^◌, ◌≤◌, ◌<◌, ◌≡◌, ◌↔◌, ◌⊎◌, refl, sym, ◌∙◌, inl, inr, Bool, true, ◌&&◌, ltb,
  leb, ltb→lt, ltb→le, Bool-cases, if◌then◌else◌, u32, arith,
}
use native.Mathlib.Nat.{mod-add-mod, mod-lt, mod-eq-sub-mod, mod-eq_of_lt}
use zmap_embedded_ip.Packet.{SourcePorts, check_dst_port, get_src_port, not_equal}

-- A range of source ports, and no more probes for a target than ports. The second word of the
-- validation is so far below 2^32 that adding the number of a probe does not wrap: where it does, the
-- ports of the probes are not in a row, and `check_dst_port` refuses some and accepts others.
pub record IsConfigured (conf : SourcePorts) (num_ports validation₁ : ℕ) : Type 0 where
  pub range : conf.source_port_first + num_ports ≡ conf.source_port_last + 1
  pub ports : conf.source_port_last < 2 ^ 16
  pub one_port : 0 < num_ports
  pub one_stream : 0 < conf.packet_streams
  pub streams : conf.packet_streams ≤ num_ports
  pub no_wrap : validation₁ + conf.packet_streams ≤ 2 ^ 32

mod_shift :
    (v p n : ℕ)
    → p < n
    → ((v + p) % n ≡ v % n + p) × (v % n + p < n) ⊎ ((v + p) % n + n ≡ v % n + p)
mod_shift v p n h =
    let e : (v + p) % n ≡ (v % n + p) % n = sym (mod-add-mod v n p) in
    elim (Bool-cases (ltb (v % n + p) n)) [
      | inl l ↦ let below : v % n + p < n = ltb→lt _ _ l in inl (e ∙ mod-eq_of_lt below, below)
      | inr l ↦
          let past : n ≤ v % n + p = ltb→le _ _ l in
          let back : (v % n + p) % n ≡ v % n + p - n =
            mod-eq-sub-mod past ∙ mod-eq_of_lt (omega (arith, mod-lt v {m = n} (omega arith))) in
          inr (omega (arith, e, back, past))
    ]

-- The last probe's offset, as the code computes it.
last_offset :
    (conf : SourcePorts) (n v : ℕ)
    → IsConfigured conf n v
    → u32 (v + conf.packet_streams + (2 ^ 32 - 1)) % n ≡ (v + (conf.packet_streams - 1)) % n
last_offset conf n v c =
    let e : u32 (v + conf.packet_streams + (2 ^ 32 - 1)) ≡ v + (conf.packet_streams - 1) =
      omega (arith, c.one_stream, c.no_wrap) in
    rw e refl

probe_offset :
    (conf : SourcePorts) (n v k : ℕ)
    → IsConfigured conf n v
    → k < conf.packet_streams
    → get_src_port conf n k v ≡ conf.source_port_first + (v + k) % n
unfolding get_src_port
probe_offset conf n v k c h =
    let e : u32 (v + k) ≡ v + k = omega (arith, c.no_wrap) in
    let below : (v + k) % n < n = mod-lt (v + k) c.one_port in
    rw e (omega (arith, below, c.range, c.ports))

-- The test of `check_dst_port` on an offset `x` between the first and the last probe's.
in_turn : ℕ → ℕ → ℕ → Bool
in_turn min max x =
    if leb min max then leb x max && leb min x else not_equal (leb x max) (leb min x)

in_turn→probe :
    (v s n x : ℕ)
    → 0 < s
    → s ≤ n
    → x < n
    → in_turn (v % n) ((v + (s - 1)) % n) x ≡ true
    → (k : ℕ) × (k < s) × ((v + k) % n ≡ x)
unfolding in_turn
in_turn→probe v s n x one h l e =
    let start : v % n < n = mod-lt v {m = n} (omega arith) in
    let end : (v + (s - 1)) % n < n = mod-lt (v + (s - 1)) {m = n} (omega arith) in
    let last = mod_shift v (s - 1) n (omega arith) in
    elim (Bool-cases (ltb x (v % n))) [
      | inl lt ↦ (
        x + n - v % n,
        ground (arith, last, start, end),
        ground (
          arith,
          last,
          start,
          end,
          mod_shift v (x + n - v % n) n (omega (arith, ltb→lt _ _ lt)),
          lt,
        ),
      )
      | inr ge ↦ (
        x - v % n,
        ground (arith, last, start, end),
        ground (arith, start, mod_shift v (x - v % n) n (omega arith), ge),
      )
    ]

probe→in_turn :
    (v s n k : ℕ) → k < s → s ≤ n → in_turn (v % n) ((v + (s - 1)) % n) ((v + k) % n) ≡ true
unfolding in_turn
probe→in_turn v s n k h l =
    let start : v % n < n = mod-lt v {m = n} (omega arith) in
    ground (arith, start, mod_shift v (s - 1) n (omega arith), mod_shift v k n (omega arith))

-- For a range of 16-bit source ports with enough ports for the probes to a target, and unless the
-- sum of the second word of the validation and the number of probes is above 2^32: a port is accepted
-- as the destination of an answer exactly if it is the source port of one of the probes to the
-- target.
pub check_dst_port-get_src_port :
    (conf : SourcePorts) (port n v : ℕ)
    → IsConfigured conf n v
    → (check_dst_port conf port n v ≡ true)
      ↔ ((k : ℕ) × (k < conf.packet_streams) × (get_src_port conf n k v ≡ port))
unfolding check_dst_port in_turn
check_dst_port-get_src_port conf port n v c =
    let first = conf.source_port_first in
    rw (last_offset conf n v c) (
      λ e.
          let above : first ≤ port = ground (arith, e) in
          let below : port - first < n = ground (arith, e, c.range) in
          let (k, in_range, at) =
            in_turn→probe v conf.packet_streams n (port - first) c.one_stream c.streams below
              (ground (arith, e)) in
          (k, in_range, omega (arith, probe_offset conf n v k c in_range, at, above)),
      λ (k, in_range, at).
          let place = probe_offset conf n v k c in_range in
          let below : (v + k) % n < n = mod-lt (v + k) c.one_port in
          let back : port - first ≡ (v + k) % n = omega (arith, place, at) in
          let turn = probe→in_turn v conf.packet_streams n k in_range c.streams in
          ground (arith, turn, back, below, place, at, c.range),
    )
