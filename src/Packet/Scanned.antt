-- ===== src/Packet/Scanned.antt =====
-- src/probe_modules/packet.h, lib/pbm.c: `check_src_port` finds the ports whose bit is set.
use zmap_embedded_ip.Base.{
  ℕ, ◌/◌, ◌%◌, ◌^◌, ◌≡◌, ◌↔◌, inl, inr, true, some, List, get_or, ◌==◌, ==_iff, has_bit-pow,
  Option-cases,
}
use zmap_embedded_ip.Ports.{PortConf, bm_check}
use zmap_embedded_ip.Packet.{check_src_port}

-- A port that is scanned: its bit in the bitmap is set, eight ports to a byte.
pub record IsScanned (ports : PortConf) (port : ℕ) : Type 0 where
  pub bitmap : List ℕ
  pub there : ports.port_bitmap ≡ some bitmap
  pub bit : get_or bitmap (port / 8) 0 / 2 ^ (port % 8) % 2 ≡ 1

bm_check-bit :
    (bm : List ℕ) (port : ℕ) → bm_check bm port ≡ (get_or bm (port / 8) 0 / 2 ^ (port % 8) % 2 == 1)
unfolding bm_check
bm_check-bit bm port = has_bit-pow (port % 8) (get_or bm (port / 8) 0)

pub check_src_port-IsScanned :
    (ports : PortConf) (port : ℕ) → (check_src_port port ports ≡ true) ↔ IsScanned ports port
unfolding check_src_port
check_src_port-IsScanned ports port = (
  λ h. elim (Option-cases ports.port_bitmap) [
    | inl e ↦ let h' = rw (check_src_port, e) at h in cc
    | inr (bm, e) ↦
        let found : bm_check bm port ≡ true = rw (check_src_port, e) at h in
        record { bitmap = bm; there = e; bit = (==_iff _ 1).0 (rw (bm_check-bit bm port) at found) }
  ],
  λ s. rw (check_src_port, s.there, bm_check-bit s.bitmap port) ((==_iff _ 1).1 s.bit),
)
