-- ===== src/Synscan/Process.antt =====
-- src/probe_modules/module_tcp_synscan.c: `synscan_process_packet`, the fields of an answer.
use zmap_embedded_ip.Base.{
  ℕ, ◌+◌, Option, none, some, List, ◌∷◌, ◌++◌, ◌==◌, if◌then◌else◌, ◌>>=◌, has_bit,
}
use zmap_embedded_ip.Fieldset.{Str, FieldDef, Fieldset, ascii}
use zmap_embedded_ip.Fieldset.Words.{fs_add_null, fs_add_uint64, fs_add_constchar, fs_add_bool}
use zmap_embedded_ip.Packet.{ByteOrder, Tcp, Memory, get_ip_header, get_tcp_header}
use zmap_embedded_ip.Packet.Icmp.{
  icmp_fields, classification_success_fields, fs_add_null_icmp, fs_populate_icmp_from_iphdr,
}
use zmap_embedded_ip.Packet.Options.{TcpHeader}
use zmap_embedded_ip.Synscan.{ipproto_icmp, ipproto_tcp}
use zmap_embedded_ip.Synscan.Parse.{TcpOpts, tcp_opts}

abbrev pub fields : List FieldDef
fields =
    record { name = ascii "sport"; type_name = ascii "int"; desc = ascii "TCP source port" }
      ∷ record {
        name = ascii "dport";
        type_name = ascii "int";
        desc = ascii "TCP destination port";
      }
      ∷ record {
        name = ascii "seqnum";
        type_name = ascii "int";
        desc = ascii "TCP sequence number";
      }
      ∷ record {
        name = ascii "acknum";
        type_name = ascii "int";
        desc = ascii "TCP acknowledgement number";
      }
      ∷ record { name = ascii "window"; type_name = ascii "int"; desc = ascii "TCP window" }
      ∷ record { name = ascii "tcpopt_mss"; type_name = ascii "int"; desc = ascii "TCP MSS option" }
      ∷ record {
        name = ascii "tcpopt_wscale";
        type_name = ascii "int";
        desc = ascii "TCP Window scale option";
      }
      ∷ record {
        name = ascii "tcpopt_sack_perm";
        type_name = ascii "int";
        desc = ascii "TCP SACK permitted option";
      }
      ∷ record {
        name = ascii "tcpopt_ts_val";
        type_name = ascii "int";
        desc = ascii "TCP timestamp option value";
      }
      ∷ record {
        name = ascii "tcpopt_ts_ecr";
        type_name = ascii "int";
        desc = ascii "TCP timestamp option echo reply";
      }
      ∷ classification_success_fields
    ++ icmp_fields

-- `add_tcpopt_to_fs`.
unfoldable pub add_tcpopt_to_fs : Fieldset → Option ℕ → Str → Option Fieldset
unfolding fs_add_uint64 fs_add_null
add_tcpopt_to_fs fs (some val) label = fs_add_uint64 fs label val
add_tcpopt_to_fs fs none label = fs_add_null fs label

-- The end of `parse_tcp_opts`.
unfoldable pub add_tcp_opts : TcpOpts → Fieldset → Option Fieldset
unfolding add_tcpopt_to_fs
add_tcp_opts opts fs = do
  fs₁ ← add_tcpopt_to_fs fs opts.mss (ascii "tcpopt_mss")
  fs₂ ← add_tcpopt_to_fs fs₁ opts.wscale (ascii "tcpopt_wscale")
  fs₃ ← add_tcpopt_to_fs fs₂ opts.sack_perm (ascii "tcpopt_sack_perm")
  fs₄ ← add_tcpopt_to_fs fs₃ opts.ts_val (ascii "tcpopt_ts_val")
  add_tcpopt_to_fs fs₄ opts.ts_ecr (ascii "tcpopt_ts_ecr")

unfoldable pub parse_tcp_opts : TcpHeader → Fieldset → Option Fieldset
unfolding tcp_opts add_tcp_opts
parse_tcp_opts tcp fs = elim (tcp_opts tcp) [ none ↦ none | some opts ↦ add_tcp_opts opts fs ]

-- RST or SYN-ACK.
unfoldable pub add_classification : ℕ → Fieldset → Option Fieldset
unfolding fs_add_constchar fs_add_bool
add_classification th_flags fs =
    if has_bit th_flags 4
    then (do
      fs₁ ← fs_add_constchar fs (ascii "classification") (ascii "rst")
      fs_add_bool fs₁ (ascii "success") 0)
    else (do
      fs₁ ← fs_add_constchar fs (ascii "classification") (ascii "synack")
      fs_add_bool fs₁ (ascii "success") 1)

-- The fields of the TCP header.
unfoldable pub add_tcp_fields : ByteOrder → Tcp → Fieldset → Option Fieldset
unfolding fs_add_uint64
add_tcp_fields order tcp fs = do
  fs₁ ← fs_add_uint64 fs (ascii "sport") (order.ntohs tcp.th_sport)
  fs₂ ← fs_add_uint64 fs₁ (ascii "dport") (order.ntohs tcp.th_dport)
  fs₃ ← fs_add_uint64 fs₂ (ascii "seqnum") (order.ntohl tcp.th_seq)
  fs₄ ← fs_add_uint64 fs₃ (ascii "acknum") (order.ntohl tcp.th_ack)
  fs_add_uint64 fs₄ (ascii "window") (order.ntohs tcp.th_win)

-- The TCP header at `at`, as bytes.
abbrev pub header_at : Memory → ℕ → TcpHeader
header_at mem at = record { th_off = (mem.tcp_at at).th_off; byte_at = λ i. mem.byte_at (at + i) }

-- The branch of a TCP packet, whose TCP header is at `at`.
unfoldable pub process_tcp : ByteOrder → Memory → ℕ → Fieldset → Option Fieldset
unfolding add_tcp_fields parse_tcp_opts add_classification fs_add_null_icmp
process_tcp order mem at fs = do
  fs₁ ← add_tcp_fields order (mem.tcp_at at) fs
  fs₂ ← parse_tcp_opts (header_at mem at) fs₁
  fs₃ ← add_classification (mem.tcp_at at).th_flags fs₂
  fs_add_null_icmp fs₃

-- The fields of TCP, which an ICMP packet leaves empty.
unfoldable pub add_no_tcp_fields : Fieldset → Option Fieldset
unfolding fs_add_null
add_no_tcp_fields fs = do
  fs₁ ← fs_add_null fs (ascii "sport")
  fs₂ ← fs_add_null fs₁ (ascii "dport")
  fs₃ ← fs_add_null fs₂ (ascii "seqnum")
  fs₄ ← fs_add_null fs₃ (ascii "acknum")
  fs₅ ← fs_add_null fs₄ (ascii "window")
  fs₆ ← fs_add_null fs₅ (ascii "tcpopt_mss")
  fs₇ ← fs_add_null fs₆ (ascii "tcpopt_wscale")
  fs₈ ← fs_add_null fs₇ (ascii "tcpopt_sack_perm")
  fs₉ ← fs_add_null fs₈ (ascii "tcpopt_ts_val")
  fs_add_null fs₉ (ascii "tcpopt_ts_ecr")

-- The branch of an ICMP packet.
unfoldable pub process_icmp : (ℕ → Str) → Memory → ℕ → ℕ → Fieldset → Option Fieldset
unfolding add_no_tcp_fields fs_add_constchar fs_add_bool fs_populate_icmp_from_iphdr
process_icmp inet_ntoa mem ip_hdr len fs = do
  fs₁ ← add_no_tcp_fields fs
  fs₂ ← fs_add_constchar fs₁ (ascii "classification") (ascii "icmp")
  fs₃ ← fs_add_bool fs₂ (ascii "success") 0
  fs_populate_icmp_from_iphdr inet_ntoa mem ip_hdr len fs₃

-- `len` is the length of the frame at 0 of the memory.
unfoldable pub synscan_process_packet :
    ByteOrder → (ℕ → Str) → Memory → ℕ → Fieldset → Option Fieldset
unfolding process_tcp process_icmp get_ip_header get_tcp_header
synscan_process_packet order inet_ntoa mem len fs = do
  ip_hdr ← get_ip_header len
  if (mem.ip_at ip_hdr).ip_p == ipproto_tcp
      then elim (get_tcp_header (mem.ip_at ip_hdr) ip_hdr len) [
        | none ↦ none
        | some at ↦ process_tcp order mem at fs
      ]
      else if (mem.ip_at ip_hdr).ip_p == ipproto_icmp
      then process_icmp inet_ntoa mem ip_hdr len fs
      else some fs
