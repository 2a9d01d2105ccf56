-- ===== src/Synscan/Parse.antt =====
-- src/probe_modules/module_tcp_synscan.c: the loop of `parse_tcp_opts`.
use zmap_embedded_ip.Base.{
  ℕ, zero, suc, ◌+◌, ◌*◌, ◌^◌, true, false, ◌||◌, Option, none, some, ltb, leb, ◌==◌, if◌then◌else◌,
}
use zmap_embedded_ip.Packet.Options.{TcpHeader}

-- What `parse_tcp_opts` has found; `none` is -1.
pub record TcpOpts : Type 0 where
  pub mss : Option ℕ
  pub wscale : Option ℕ
  pub sack_perm : Option ℕ
  pub ts_val : Option ℕ
  pub ts_ecr : Option ℕ

abbrev pub no_opts : TcpOpts
no_opts = record { mss = none; wscale = none; sack_perm = none; ts_val = none; ts_ecr = none }

-- Numbers in network byte order.
abbrev pub read16 : (ℕ → ℕ) → ℕ → ℕ
read16 byte_at i = byte_at i * 2 ^ 8 + byte_at (i + 1)

abbrev pub read32 : (ℕ → ℕ) → ℕ → ℕ
read32 byte_at i =
    byte_at i * 2 ^ 24 + byte_at (i + 1) * 2 ^ 16 + byte_at (i + 2) * 2 ^ 8 + byte_at (i + 3)

-- The `switch` on an option's kind; `none` is the jump to `break_loop`. The power of a window scale is
-- kept as it is; in the source the conversion to `int64_t` is undefined from 2^63 on.
unfoldable pub read_option : (ℕ → ℕ) → ℕ → ℕ → ℕ → TcpOpts → Option TcpOpts
read_option byte_at kind len val opts =
    if kind == 2
    then (if len == 4 then some (record opts { mss = some (read16 byte_at val) }) else none)
    else if kind == 3
    then (if len == 3 then some (record opts { wscale = some (2 ^ byte_at val) }) else none)
    else if kind == 4
    then (if len == 2 then some (record opts { sack_perm = some 1 }) else none)
    else if kind == 8
    then (if len == 10
        then some (record opts {
          ts_val = some (read32 byte_at val);
          ts_ecr = some (read32 byte_at (val + 4));
        })
        else none)
    else some opts

-- On from an option that was read.
unfoldable pub advance : ℕ → Option TcpOpts → Option (ℕ × TcpOpts)
advance next none = none
advance next (some opts) = some (next, opts)

-- One round of the loop of `parse_tcp_opts`; `none` leaves the loop.
unfoldable pub option_step : (ℕ → ℕ) → ℕ → ℕ → TcpOpts → Option (ℕ × TcpOpts)
unfolding read_option advance
option_step byte_at header_size curr_idx opts =
    let kind = byte_at curr_idx in
    let len = byte_at (curr_idx + 1) in
    if kind == 0 || kind == 1
    then some (curr_idx + 1, opts)
    else if leb header_size (curr_idx + 1)
    then none
    else if leb len 1 || ltb header_size (curr_idx + len)
    then none
    else advance (curr_idx + len) (read_option byte_at kind len (curr_idx + 2) opts)

-- The loop, `none` if the fuel runs out.
unfoldable pub parse_loop : ℕ → (ℕ → ℕ) → ℕ → ℕ → TcpOpts → Option TcpOpts
unfolding option_step
parse_loop zero byte_at header_size curr_idx opts = none
parse_loop (suc fuel) byte_at header_size curr_idx opts = elim (ltb curr_idx header_size) [
  | false ↦ some opts
  | true ↦ elim (option_step byte_at header_size curr_idx opts) [
    | none ↦ some opts
    | some (next, opts') ↦ parse_loop fuel byte_at header_size next opts'
  ]
]

-- The options of a TCP header; 41 rounds are enough for its at most 40 bytes of options.
unfoldable pub tcp_opts : TcpHeader → Option TcpOpts
unfolding parse_loop
tcp_opts tcp = parse_loop 41 tcp.byte_at (tcp.th_off * 4) 20 no_opts
