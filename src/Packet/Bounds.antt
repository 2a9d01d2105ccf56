-- ===== src/Packet/Bounds.antt =====
-- src/probe_modules/packet.h, src/probe_modules/packet.c: the headers that a received packet is
-- read through lie within its length.
use zmap_embedded_ip.Base.{
  ℕ, ◌+◌, ◌-◌, ◌*◌, ◌≤◌, ◌≡◌, ◌↔◌, ◌⊎◌, refl, Bool, true, false, some, ltb, le→ltb, arith,
}
use zmap_embedded_ip.Packet.{
  Ip, Memory, tcp_size, udp_size, icmp_size, ip_size, icmp_header_size, get_tcp_header,
  get_udp_header, get_icmp_header, icmp_helper_validate, quotes_probe,
}

-- A header of `size` bytes that `get` returns for an IP header at `at` starts behind that header
-- and ends within `len` bytes from there.
pub Within : ℕ → ℕ → ℕ → ℕ → ℕ → Type 0
Within start at size limit hdr = (start ≤ hdr) × (hdr + size ≤ at + limit)

-- Whatever header length the packet claims, the TCP, UDP and ICMP headers that are returned lie
-- within the length of the packet.
pub get_header-Within :
    (ip : Ip) (at len hdr : ℕ)
    → (get_tcp_header ip at len ≡ some hdr → Within at at tcp_size len hdr)
      × (get_udp_header ip at len ≡ some hdr → Within at at udp_size len hdr)
      × (get_icmp_header ip at len ≡ some hdr → Within at at icmp_size len hdr)
unfolding Within get_tcp_header get_udp_header get_icmp_header
get_header-Within ip at len hdr =
    (λ e. ground (arith, e), λ e. ground (arith, e), λ e. ground (arith, e))

-- The types of ICMP messages that quote a packet: unreachable, source quench, redirect and time
-- exceeded.
pub IsError : ℕ → Type 0
IsError icmp_type = (icmp_type ≡ 3) ⊎ (icmp_type ≡ 4) ⊎ (icmp_type ≡ 5) ⊎ (icmp_type ≡ 11)

quotes_probe-IsError : (icmp_type : ℕ) → (quotes_probe icmp_type ≡ true) ↔ IsError icmp_type
unfolding quotes_probe IsError
quotes_probe-IsError icmp_type = (λ h. ground (arith, h), λ h. ground (arith, h))

-- A quoted packet with its length: an ICMP message of these types quotes it, behind its own header,
-- its IP header and `min_l4_len` bytes more lie within the message, and its destination is allowed.
pub record IsQuoted (is_allowed : ℕ → Bool) (mem : Memory) (len min_l4_len inner inner_len : ℕ)
    : Type 0 where
  pub place : inner ≡ 4 * (mem.ip_at 0).ip_hl + icmp_header_size
  pub rest : inner + inner_len ≡ len
  pub ip_fits : ip_size + min_l4_len ≤ inner_len
  pub l4_fits : 4 * (mem.ip_at inner).ip_hl + min_l4_len ≤ inner_len
  pub kind : IsError (mem.icmp_type_at (4 * (mem.ip_at 0).ip_hl))
  pub allowed : is_allowed (mem.ip_at inner).ip_dst ≡ true

-- An ICMP message is accepted only if it quotes a probe to an allowed address, and the probe's IP
-- header and the first `min_l4_len` bytes behind it lie within the packet.
pub icmp_helper_validate-IsQuoted :
    (is_allowed : ℕ → Bool) (mem : Memory) (len min_l4_len inner inner_len : ℕ)
    → icmp_helper_validate is_allowed mem len min_l4_len ≡ some (inner, inner_len)
    → IsQuoted is_allowed mem len min_l4_len inner inner_len
unfolding icmp_helper_validate
icmp_helper_validate-IsQuoted is_allowed mem len min_l4_len inner inner_len h = record {
  place = ground (arith, h);
  rest = ground (arith, h);
  ip_fits = ground (arith, h);
  l4_fits = ground (arith, h);
  kind = (quotes_probe-IsError _).0 (ground (arith, h));
  allowed = ground (arith, h);
}

-- Such a message is accepted.
pub icmp_helper_validate-quoted :
    (is_allowed : ℕ → Bool) (mem : Memory) (len min_l4_len inner inner_len : ℕ)
    → IsQuoted is_allowed mem len min_l4_len inner inner_len
    → icmp_helper_validate is_allowed mem len min_l4_len ≡ some (inner, inner_len)
unfolding icmp_helper_validate
icmp_helper_validate-quoted is_allowed mem len min_l4_len inner inner_len q =
    let head = 4 * (mem.ip_at 0).ip_hl + icmp_header_size in
    let long : ltb len (head + ip_size + min_l4_len) ≡ false =
      le→ltb _ _ (omega (arith, q.place, q.rest, q.ip_fits)) in
    let kind = (quotes_probe-IsError _).1 q.kind in
    let left : len - head ≡ inner_len = omega (arith, q.place, q.rest) in
    let room : ltb inner_len (4 * (mem.ip_at head).ip_hl + min_l4_len) ≡ false =
      le→ltb _ _ (rw (← q.place) q.l4_fits) in
    let allowed : is_allowed (mem.ip_at head).ip_dst ≡ true = rw (← q.place) q.allowed in
    rw (icmp_helper_validate, long, kind, left, room, allowed) (rw (← q.place) refl)
