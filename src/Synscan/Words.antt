-- ===== src/Synscan/Words.antt =====
-- src/probe_modules/module_tcp_synscan.c: the fields of an answer as `fs_add_word` adds them.
use zmap_embedded_ip.Base.{
  ℕ, ◌≡◌, refl, inl, inr, Bool, true, false, Option, none, some, Bool-cases, leb, leb→le,
  get_elem?-inside, ◌>>=◌, bind_cong, pointwise, has_bit, arith,
}
use zmap_embedded_ip.Fieldset.{
  Str, ascii, FieldVal, null, num, fs_null, fs_uint64, Fieldset, fs_add_word,
}
use zmap_embedded_ip.Fieldset.Words.{
  fs_add_null, fs_add_string, fs_add_uint64, fs_add_constchar, fs_add_bool, fs_modify_string,
}
use zmap_embedded_ip.Packet.{ByteOrder, Memory, Ip, Tcp, get_icmp_header, get_inner_ip_header}
use zmap_embedded_ip.Packet.Options.{TcpHeader}
use zmap_embedded_ip.Packet.Icmp.{
  fs_add_null_icmp, icmp_unreach_strings, unreach_str, fs_populate_icmp_from_iphdr,
}
use zmap_embedded_ip.Synscan.Parse.{TcpOpts, tcp_opts}
use zmap_embedded_ip.Synscan.Process.{
  add_tcp_fields, add_no_tcp_fields, header_at, add_tcpopt_to_fs, add_tcp_opts, parse_tcp_opts,
  add_classification, process_tcp, process_icmp,
}

-- The field that `add_tcpopt_to_fs` adds.
pub opt_type : Option ℕ → ℕ
opt_type none = fs_null
opt_type (some v) = fs_uint64

pub opt_len : Option ℕ → ℕ
opt_len none = 0
opt_len (some v) = 8

pub opt_value : Option ℕ → FieldVal
opt_value none = null
opt_value (some v) = num v

add_tcpopt-word :
    (fs : Fieldset) (o : Option ℕ) (label : Str)
    → add_tcpopt_to_fs fs o label
      ≡ fs_add_word fs label (opt_type o) false (opt_len o) (opt_value o)
unfolding add_tcpopt_to_fs fs_add_null fs_add_uint64 opt_type opt_len opt_value
add_tcpopt-word fs none label = refl
add_tcpopt-word fs (some v) label = refl

unfoldable pub opts_words : TcpOpts → Fieldset → Option Fieldset
opts_words opts fs = do
  fs₁ ←
      fs_add_word fs (ascii "tcpopt_mss") (opt_type opts.mss) false (opt_len opts.mss)
        (opt_value opts.mss)
  fs₂ ←
      fs_add_word fs₁ (ascii "tcpopt_wscale") (opt_type opts.wscale) false (opt_len opts.wscale)
        (opt_value opts.wscale)
  fs₃ ←
      fs_add_word fs₂ (ascii "tcpopt_sack_perm") (opt_type opts.sack_perm) false
        (opt_len opts.sack_perm) (opt_value opts.sack_perm)
  fs₄ ←
      fs_add_word fs₃ (ascii "tcpopt_ts_val") (opt_type opts.ts_val) false (opt_len opts.ts_val)
        (opt_value opts.ts_val)
  fs_add_word fs₄ (ascii "tcpopt_ts_ecr") (opt_type opts.ts_ecr) false (opt_len opts.ts_ecr)
      (opt_value opts.ts_ecr)

add_opts-words : (opts : TcpOpts) (fs : Fieldset) → add_tcp_opts opts fs ≡ opts_words opts fs
unfolding add_tcp_opts opts_words
add_opts-words opts fs = bind_cong (add_tcpopt-word fs opts.mss (ascii "tcpopt_mss")) (λ fs₁.
    bind_cong (add_tcpopt-word fs₁ opts.wscale (ascii "tcpopt_wscale")) (λ fs₂.
      bind_cong (add_tcpopt-word fs₂ opts.sack_perm (ascii "tcpopt_sack_perm")) (λ fs₃.
        bind_cong (add_tcpopt-word fs₃ opts.ts_val (ascii "tcpopt_ts_val"))
          (λ fs₄. add_tcpopt-word fs₄ opts.ts_ecr (ascii "tcpopt_ts_ecr")))))

pub class_name : Bool → Str
class_name true = ascii "rst"
class_name false = ascii "synack"

-- `success` is 1 for a SYN-ACK and 0 for a RST.
pub success_of : Bool → ℕ
success_of true = 0
success_of false = 1

unfoldable pub class_words : ℕ → Fieldset → Option Fieldset
class_words flags fs = do
  fs₁ ← fs_add_constchar fs (ascii "classification") (class_name (has_bit flags 4))
  fs_add_bool fs₁ (ascii "success") (success_of (has_bit flags 4))

classification-words :
    (flags : ℕ) (fs : Fieldset) → add_classification flags fs ≡ class_words flags fs
unfolding class_words add_classification class_name success_of
classification-words flags fs = elim (Bool-cases (has_bit flags 4)) [
  | inl e ↦ rw e refl
  | inr e ↦ rw e refl
]

-- `process_tcp` once the options are known.
unfoldable pub tcp_words : ByteOrder → Tcp → TcpOpts → Fieldset → Option Fieldset
unfolding add_tcp_fields opts_words class_words fs_add_null_icmp fs_add_constchar fs_add_bool
tcp_words order tcp opts fs = do
  fs₁ ← add_tcp_fields order tcp fs
  fs₂ ← opts_words opts fs₁
  fs₃ ← class_words tcp.th_flags fs₂
  fs_add_null_icmp fs₃

parse-words :
    (tcp : TcpHeader) (opts : TcpOpts) (fs : Fieldset)
    → tcp_opts tcp ≡ some opts
    → parse_tcp_opts tcp fs ≡ opts_words opts fs
unfolding parse_tcp_opts opts_words
parse-words tcp opts fs found = rw (parse_tcp_opts, found) (add_opts-words opts fs)

pub process_tcp-words :
    (order : ByteOrder) (mem : Memory) (at : ℕ) (opts : TcpOpts) (fs : Fieldset)
    → tcp_opts (header_at mem at) ≡ some opts
    → process_tcp order mem at fs ≡ tcp_words order (mem.tcp_at at) opts fs
unfolding process_tcp tcp_words
process_tcp-words order mem at opts fs found =
    pointwise (add_tcp_fields order (mem.tcp_at at) fs) _ _ (λ fs₁.
      bind_cong (parse-words (header_at mem at) opts fs₁ found)
        (λ fs₂. bind_cong (classification-words (mem.tcp_at at).th_flags fs₂) (λ fs₃. refl)))

pub unreach_known : (code : ℕ) → (s : Str) × (unreach_str code ≡ some s)
unfolding unreach_str
unreach_known code = elim (Bool-cases (leb code 15)) [
  | inr e ↦ (ascii "unknown", rw e refl)
  | inl e ↦
      let (s, found) = get_elem?-inside icmp_unreach_strings code (omega (arith, leb→le _ _ e)) in
      (s, rw e found)
]

-- `process_icmp` once the message is found.
unfoldable pub icmp_part : (ℕ → Str) → Ip → Ip → ℕ → ℕ → Str → Fieldset → Option Fieldset
unfolding fs_modify_string fs_add_string fs_add_uint64 fs_add_constchar
icmp_part inet_ntoa ip quoted icmp_type icmp_code unreach fs = do
  fs₁ ← fs_modify_string fs (ascii "saddr") (inet_ntoa quoted.ip_dst) true
  fs₂ ← fs_add_string fs₁ (ascii "icmp_responder") (inet_ntoa ip.ip_src) true
  fs₃ ← fs_add_uint64 fs₂ (ascii "icmp_type") icmp_type
  fs₄ ← fs_add_uint64 fs₃ (ascii "icmp_code") icmp_code
  fs_add_constchar fs₄ (ascii "icmp_unreach_str") unreach

unfoldable pub icmp_words : (ℕ → Str) → Ip → Ip → ℕ → ℕ → Str → Fieldset → Option Fieldset
unfolding add_no_tcp_fields fs_add_constchar fs_add_bool icmp_part
icmp_words inet_ntoa ip quoted icmp_type icmp_code unreach fs = do
  fs₁ ← add_no_tcp_fields fs
  fs₂ ← fs_add_constchar fs₁ (ascii "classification") (ascii "icmp")
  fs₃ ← fs_add_bool fs₂ (ascii "success") 0
  icmp_part inet_ntoa ip quoted icmp_type icmp_code unreach fs₃

pub populate :
    (inet_ntoa : ℕ → Str) (mem : Memory) (at len icmp inner : ℕ) (unreach : Str) (fs : Fieldset)
    → get_icmp_header (mem.ip_at at) at len ≡ some icmp
    → get_inner_ip_header icmp len ≡ some inner
    → unreach_str (mem.icmp_code_at icmp) ≡ some unreach
    → fs_populate_icmp_from_iphdr inet_ntoa mem at len fs
      ≡ icmp_part inet_ntoa
          (mem.ip_at at)
          (mem.ip_at inner)
          (mem.icmp_type_at icmp)
          (mem.icmp_code_at icmp)
          unreach
          fs
unfolding fs_populate_icmp_from_iphdr icmp_part
populate inet_ntoa mem at len icmp inner unreach fs found quoted named =
    rw (fs_populate_icmp_from_iphdr, found, quoted, named) refl

pub process_icmp-words :
    (inet_ntoa : ℕ → Str) (mem : Memory) (at len icmp inner : ℕ) (unreach : Str) (fs : Fieldset)
    → get_icmp_header (mem.ip_at at) at len ≡ some icmp
    → get_inner_ip_header icmp len ≡ some inner
    → unreach_str (mem.icmp_code_at icmp) ≡ some unreach
    → process_icmp inet_ntoa mem at len fs
      ≡ icmp_words inet_ntoa
          (mem.ip_at at)
          (mem.ip_at inner)
          (mem.icmp_type_at icmp)
          (mem.icmp_code_at icmp)
          unreach
          fs
unfolding process_icmp icmp_words
process_icmp-words inet_ntoa mem at len icmp inner unreach fs found quoted named =
    pointwise (add_no_tcp_fields fs) _ _ (λ fs₁.
      pointwise (fs_add_constchar fs₁ (ascii "classification") (ascii "icmp")) _ _ (λ fs₂.
        pointwise (fs_add_bool fs₂ (ascii "success") 0) _ _
          (λ fs₃. populate inet_ntoa mem at len icmp inner unreach fs₃ found quoted named)))
