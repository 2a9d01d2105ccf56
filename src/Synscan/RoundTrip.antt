-- ===== src/Synscan/RoundTrip.antt =====
-- src/probe_modules/packet.c, src/probe_modules/module_tcp_synscan.c: the options that
-- `set_tcp_options` writes are read back by `parse_tcp_opts`.
use zmap_embedded_ip.Base.{
  ℕ, zero, suc, ◌+◌, ◌*◌, ◌/◌, ◌%◌, ◌^◌, ◌<◌, ◌≡◌, refl, sym, ap, ◌∙◌, some, ◌==◌, if◌then◌else◌,
  ◌>>=◌, arith,
}
use zmap_embedded_ip.Packet.Options.{TcpHeader, set_tcp_options}
use zmap_embedded_ip.Fieldset.{Str}
use zmap_embedded_ip.Synscan.{probe_lengths}
use zmap_embedded_ip.Synscan.Parse.{TcpOpts, no_opts, tcp_opts, read32}

be32-value :
    (n : ℕ)
    → n < 2 ^ 32
    → n / 2 ^ 24 % 2 ^ 8 * 2 ^ 24
        + n / 2 ^ 16 % 2 ^ 8 * 2 ^ 16
        + n / 2 ^ 8 % 2 ^ 8 * 2 ^ 8
        + n % 2 ^ 8
      ≡ n
be32-value n h = omega arith

-- What a receiver should find in a probe of each kind; `echo` is the echo reply, which the code
-- leaves as it is in memory.
abbrev pub expected_opts : ℕ → ℕ → (ℕ → ℕ) → TcpOpts
expected_opts os now mem =
    let none_but_mss : TcpOpts = record no_opts { mss = some 1460 } in
    if os == 1
    then record {
      mss = some 1460;
      wscale = some 128;
      sack_perm = some 1;
      ts_val = some now;
      ts_ecr = some (read32 mem 32);
    }
    else if os == 2
    then record {
      mss = some 1460;
      wscale = some 64;
      sack_perm = some 1;
      ts_val = some now;
      ts_ecr = some (read32 mem 36);
    }
    else if os == 3
    then record none_but_mss { wscale = some 256; sack_perm = some 1 }
    else none_but_mss

with_time :
    (now now' : ℕ) (os : ℕ) (mem : ℕ → ℕ)
    → now' ≡ now
    → some (expected_opts os now' mem) ≡ some (expected_opts os now mem)
with_time now now' os mem h = ap (λ t. some (expected_opts os t mem)) h

-- The options that `set_tcp_options` writes behind a TCP header of 20 bytes are read back by
-- `parse_tcp_opts` with their values, for each of the four systems, and no others are found.
pub tcp_opts-set_tcp_options :
    (now os : ℕ) (tcp : TcpHeader)
    → now < 2 ^ 32
    → os < 4
    → tcp.th_off ≡ 5
    → (set_tcp_options now tcp os >>= tcp_opts) ≡ some (expected_opts os now tcp.byte_at)
unfolding tcp_opts set_tcp_options
tcp_opts-set_tcp_options now zero tcp t o h = rw h refl
tcp_opts-set_tcp_options now (suc zero) tcp t o h =
    rw h (with_time now _ 1 tcp.byte_at (be32-value now t))
tcp_opts-set_tcp_options now (suc (suc zero)) tcp t o h =
    rw h (with_time now _ 2 tcp.byte_at (be32-value now t))
tcp_opts-set_tcp_options now (suc (suc (suc zero))) tcp t o h = rw h refl
tcp_opts-set_tcp_options now (suc (suc (suc (suc os)))) tcp t o h = absurd (omega arith)

sized :
    (now os : ℕ) (tcp : TcpHeader)
    → tcp.th_off ≡ 5
    → os < 4
    → (tcp' : TcpHeader) × (set_tcp_options now tcp os ≡ some tcp')
      × (tcp'.th_off * 4
          ≡ (if os == 0 then 24 else if os == 1 then 40 else if os == 2 then 44 else 32))
unfolding set_tcp_options
sized now zero tcp h o = (_, refl, rw h refl)
sized now (suc zero) tcp h o = (_, refl, rw h refl)
sized now (suc (suc zero)) tcp h o = (_, refl, rw h refl)
sized now (suc (suc (suc zero))) tcp h o = (_, refl, rw h refl)
sized now (suc (suc (suc (suc os)))) tcp h o = absurd (omega arith)

listed_lengths :
    (args : Str) (os header_len packet_len : ℕ)
    → probe_lengths args ≡ some (os, header_len, packet_len)
    → (os < 4)
      × (header_len ≡ (if os == 0 then 24 else if os == 1 then 40 else if os == 2 then 44 else 32))
      × (packet_len ≡ header_len + 34)
unfolding probe_lengths
listed_lengths args os header_len packet_len h = ground (arith, h)

-- The lengths that `synscan_global_initialize` sets are those that `set_tcp_options` arrives at: the
-- TCP header's, and 34 bytes more for the packet with its other headers.
pub probe_lengths-set_tcp_options :
    (args : Str) (os header_len packet_len now : ℕ) (tcp : TcpHeader)
    → probe_lengths args ≡ some (os, header_len, packet_len)
    → tcp.th_off ≡ 5
    → (tcp' : TcpHeader) × (set_tcp_options now tcp os ≡ some tcp')
      × (tcp'.th_off * 4 ≡ header_len)
      × (packet_len ≡ header_len + 34)
probe_lengths-set_tcp_options args os header_len packet_len now tcp h five =
    let (known, len, packet) = listed_lengths args os header_len packet_len h in
    let (tcp', run, size) = sized now os tcp five known in (tcp', run, size ∙ sym len, packet)
