-- ===== src/Packet/Options.antt =====
-- src/probe_modules/packet.c: `set_tcp_options` and its parts, which write the options behind a TCP
-- header. `now` is the time that `time` returns; numbers in network byte order are written by
-- their bytes. Offsets count from the start of the TCP header.
use zmap_embedded_ip.Base.{
  ℕ, suc, ◌+◌, ◌*◌, ◌/◌, ◌%◌, ◌^◌, Option, none, some, List, [], ◌∷◌, ◌==◌, if◌then◌else◌,
}

-- `th_off` has four bits.
pub record TcpHeader : Type 0 where
  pub th_off : ℕ
  pub byte_at : ℕ → ℕ

unfoldable pub store : List ℕ → ℕ → (ℕ → ℕ) → ℕ → ℕ
store [] at mem i = mem i
store (b ∷ bytes) at mem i = store bytes (suc at) (λ j. if j == at then b else mem j) i

-- `bytes` from the end of the options on, and `words` words more in the header's length.
unfoldable pub append_option : List ℕ → ℕ → TcpHeader → TcpHeader
unfolding store
append_option bytes words tcp = record {
  th_off = (tcp.th_off + words) % 2 ^ 4;
  byte_at = store bytes (tcp.th_off * 4) tcp.byte_at;
}

-- A 32-bit number in network byte order.
abbrev pub be32 : ℕ → List ℕ
be32 n = n / 2 ^ 24 % 2 ^ 8 ∷ n / 2 ^ 16 % 2 ^ 8 ∷ n / 2 ^ 8 % 2 ^ 8 ∷ n % 2 ^ 8 ∷ []

abbrev pub smallest_probes_os_options : ℕ
smallest_probes_os_options = 0

abbrev pub linux_os_options : ℕ
linux_os_options = 1

abbrev pub bsd_os_options : ℕ
bsd_os_options = 2

abbrev pub windows_os_options : ℕ
windows_os_options = 3

unfoldable pub set_mss_option : TcpHeader → TcpHeader
unfolding append_option
set_mss_option tcp = append_option (2 ∷ 4 ∷ 5 ∷ 180 ∷ []) 1 tcp

-- The scale that `set_nop_plus_windows_scale` writes for `os`; for others it writes none.
unfoldable pub window_scale : ℕ → List ℕ
window_scale os =
    if os == linux_os_options
    then 7 ∷ []
    else if os == bsd_os_options
    then 6 ∷ []
    else if os == windows_os_options
    then 8 ∷ []
    else []

unfoldable pub set_nop_plus_windows_scale : TcpHeader → ℕ → TcpHeader
unfolding append_option window_scale
set_nop_plus_windows_scale tcp os = append_option (1 ∷ 3 ∷ 3 ∷ window_scale os) 1 tcp

-- The four bytes of the echo reply are left as they are.
unfoldable pub set_timestamp_option_with_nops : ℕ → TcpHeader → TcpHeader
unfolding append_option
set_timestamp_option_with_nops now tcp = append_option (1 ∷ 1 ∷ 8 ∷ 10 ∷ be32 now) 3 tcp

unfoldable pub set_sack_permitted_with_timestamp : ℕ → TcpHeader → TcpHeader
unfolding append_option
set_sack_permitted_with_timestamp now tcp = append_option (4 ∷ 2 ∷ 8 ∷ 10 ∷ be32 now) 3 tcp

unfoldable pub set_nop_plus_sack_permitted : TcpHeader → TcpHeader
unfolding append_option
set_nop_plus_sack_permitted tcp = append_option (1 ∷ 1 ∷ 4 ∷ 2 ∷ []) 1 tcp

unfoldable pub set_sack_permitted_plus_eol : TcpHeader → TcpHeader
unfolding append_option
set_sack_permitted_plus_eol tcp = append_option (4 ∷ 2 ∷ 0 ∷ 0 ∷ []) 1 tcp

-- `none` is `log_fatal`.
unfoldable pub set_tcp_options : ℕ → TcpHeader → ℕ → Option TcpHeader
unfolding set_mss_option set_nop_plus_windows_scale set_timestamp_option_with_nops
    set_sack_permitted_with_timestamp set_nop_plus_sack_permitted set_sack_permitted_plus_eol
set_tcp_options now tcp os =
    let mss = set_mss_option tcp in
    if os == smallest_probes_os_options
    then some mss
    else if os == linux_os_options
    then some (set_nop_plus_windows_scale (set_sack_permitted_with_timestamp now mss) os)
    else if os == bsd_os_options
    then some (
        set_sack_permitted_plus_eol
          (set_timestamp_option_with_nops now (set_nop_plus_windows_scale mss os)))
    else if os == windows_os_options
    then some (set_nop_plus_sack_permitted (set_nop_plus_windows_scale mss os))
    else none
