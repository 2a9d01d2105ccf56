-- ===== src/Packet/Icmp.antt =====
-- src/probe_modules/packet.h, src/probe_modules/packet.c: the fields that describe an ICMP answer.
use zmap_embedded_ip.Base.{
  ℕ, true, Option, some, List, [], ◌∷◌, get_elem?, leb, ◌>>=◌, if◌then◌else◌,
}
use zmap_embedded_ip.Fieldset.{Str, FieldDef, Fieldset, ascii}
use zmap_embedded_ip.Fieldset.Words.{
  fs_add_null, fs_add_string, fs_add_uint64, fs_add_constchar, fs_modify_string,
}
use zmap_embedded_ip.Packet.{Memory, get_icmp_header, get_inner_ip_header}

abbrev pub icmp_fields : List FieldDef
icmp_fields =
    record {
      name = ascii "icmp_responder";
      type_name = ascii "string";
      desc = ascii "Source IP of ICMP_UNREACH messages";
    }
    ∷ record { name = ascii "icmp_type"; type_name = ascii "int"; desc = ascii "icmp message type" }
    ∷ record {
      name = ascii "icmp_code";
      type_name = ascii "int";
      desc = ascii "icmp message sub type code";
    }
    ∷ record {
      name = ascii "icmp_unreach_str";
      type_name = ascii "string";
      desc =
          ascii
            "for icmp_unreach responses, the string version of icmp_code (e.g. network-unreach)";
    }
    ∷ []

abbrev pub classification_success_fields : List FieldDef
classification_success_fields =
    record {
      name = ascii "classification";
      type_name = ascii "string";
      desc = ascii "packet classification";
    }
    ∷ record {
      name = ascii "success";
      type_name = ascii "bool";
      desc = ascii "is response considered success";
    }
    ∷ []

unfoldable pub fs_add_null_icmp : Fieldset → Option Fieldset
unfolding fs_add_null
fs_add_null_icmp fs = do
  fs₁ ← fs_add_null fs (ascii "icmp_responder")
  fs₂ ← fs_add_null fs₁ (ascii "icmp_type")
  fs₃ ← fs_add_null fs₂ (ascii "icmp_code")
  fs_add_null fs₃ (ascii "icmp_unreach_str")

abbrev pub icmp_unreach_strings : List Str
icmp_unreach_strings =
    ascii "network unreachable"
    ∷ ascii "host unreachable"
    ∷ ascii "protocol unreachable"
    ∷ ascii "port unreachable"
    ∷ ascii "fragments required"
    ∷ ascii "source route failed"
    ∷ ascii "network unknown"
    ∷ ascii "host unknown"
    ∷ ascii "source host isolated"
    ∷ ascii "network admin. prohibited"
    ∷ ascii "host admin. prohibited"
    ∷ ascii "network unreachable TOS"
    ∷ ascii "host unreachable TOS"
    ∷ ascii "communication admin. prohibited"
    ∷ ascii "host presdence violation"
    ∷ ascii "precedence cutoff"
    ∷ []

-- `ICMP_UNREACH_PRECEDENCE_CUTOFF` of the system's headers.
abbrev pub precedence_cutoff : ℕ
precedence_cutoff = 15

unfoldable pub unreach_str : ℕ → Option Str
unreach_str icmp_code =
    if leb icmp_code precedence_cutoff
    then get_elem? icmp_unreach_strings icmp_code
    else some (ascii "unknown")

-- `fs_populate_icmp_from_iphdr` on an IP header at `at`; `inet_ntoa` prints an address. `none` is
-- also a failed assertion and the use of NULL as a header.
unfoldable pub fs_populate_icmp_from_iphdr : (ℕ → Str) → Memory → ℕ → ℕ → Fieldset → Option Fieldset
unfolding fs_modify_string fs_add_string fs_add_uint64 fs_add_constchar unreach_str
fs_populate_icmp_from_iphdr inet_ntoa mem at len fs = do
  icmp ← get_icmp_header (mem.ip_at at) at len
  inner ← get_inner_ip_header icmp len
  unreach ← unreach_str (mem.icmp_code_at icmp)
  fs₁ ← fs_modify_string fs (ascii "saddr") (inet_ntoa (mem.ip_at inner).ip_dst) true
  fs₂ ← fs_add_string fs₁ (ascii "icmp_responder") (inet_ntoa (mem.ip_at at).ip_src) true
  fs₃ ← fs_add_uint64 fs₂ (ascii "icmp_type") (mem.icmp_type_at icmp)
  fs₄ ← fs_add_uint64 fs₃ (ascii "icmp_code") (mem.icmp_code_at icmp)
  fs_add_constchar fs₄ (ascii "icmp_unreach_str") unreach
