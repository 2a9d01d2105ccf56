-- ===== src/ProbeModules.antt =====
-- src/probe_modules/probe_modules.c: the fields that every record of an answer starts and ends with.
use zmap_embedded_ip.Base.{ℕ, ◌/◌, Bool, true, Option, List, [], ◌∷◌, to_nat, ◌>>=◌}
use zmap_embedded_ip.Fieldset.{Str, FieldDef, Fieldset, ascii}
use zmap_embedded_ip.Fieldset.Words.{fs_add_string, fs_add_uint64, fs_add_bool}
use zmap_embedded_ip.Packet.{ByteOrder, Ip}

abbrev pub ip_fields : List FieldDef
ip_fields =
    record {
      name = ascii "saddr";
      type_name = ascii "string";
      desc = ascii "source IP address of response";
    }
    ∷ record {
      name = ascii "saddr_raw";
      type_name = ascii "int";
      desc = ascii "network order integer form of source IP address";
    }
    ∷ record {
      name = ascii "daddr";
      type_name = ascii "string";
      desc = ascii "destination IP address of response";
    }
    ∷ record {
      name = ascii "daddr_raw";
      type_name = ascii "int";
      desc = ascii "network order integer form of destination IP address";
    }
    ∷ record {
      name = ascii "ipid";
      type_name = ascii "int";
      desc = ascii "IP identification number of response";
    }
    ∷ record {
      name = ascii "ttl";
      type_name = ascii "int";
      desc = ascii "time-to-live of response packet";
    }
    ∷ []

abbrev pub sys_fields : List FieldDef
sys_fields =
    record {
      name = ascii "repeat";
      type_name = ascii "bool";
      desc = ascii "Is response a repeat response from host";
    }
    ∷ record {
      name = ascii "cooldown";
      type_name = ascii "bool";
      desc = ascii "Was response received during the cooldown period";
    }
    ∷ record {
      name = ascii "timestamp_str";
      type_name = ascii "string";
      desc = ascii "timestamp of when response arrived in ISO8601 format.";
    }
    ∷ record {
      name = ascii "timestamp_ts";
      type_name = ascii "int";
      desc = ascii "timestamp of when response arrived in seconds since Epoch";
    }
    ∷ record {
      name = ascii "timestamp_us";
      type_name = ascii "int";
      desc = ascii "microsecond part of timestamp (e.g. microseconds since 'timestamp-ts')";
    }
    ∷ []

-- `inet_ntoa` prints an address, as `make_ip_str` passes it on.
unfoldable pub fs_add_ip_fields : ByteOrder → (ℕ → Str) → Ip → Fieldset → Option Fieldset
unfolding fs_add_string fs_add_uint64
fs_add_ip_fields order inet_ntoa ip fs = do
  fs₁ ← fs_add_string fs (ascii "saddr") (inet_ntoa ip.ip_src) true
  fs₂ ← fs_add_uint64 fs₁ (ascii "saddr_raw") ip.ip_src
  fs₃ ← fs_add_string fs₂ (ascii "daddr") (inet_ntoa ip.ip_dst) true
  fs₄ ← fs_add_uint64 fs₃ (ascii "daddr_raw") ip.ip_dst
  fs₅ ← fs_add_uint64 fs₄ (ascii "ipid") (order.ntohs ip.ip_id)
  fs_add_uint64 fs₅ (ascii "ttl") ip.ip_ttl

-- `timespec`.
pub record Timespec : Type 0 where
  pub tv_sec : ℕ
  pub tv_nsec : ℕ

-- `time_string` stands for the calls of `localtime`, `strftime` and `snprintf`.
unfoldable pub fs_add_system_fields :
    (Timespec → Str) → Bool → Bool → Timespec → Fieldset → Option Fieldset
unfolding fs_add_bool fs_add_string fs_add_uint64
fs_add_system_fields time_string is_repeat in_cooldown ts fs = do
  fs₁ ← fs_add_bool fs (ascii "repeat") (to_nat is_repeat)
  fs₂ ← fs_add_bool fs₁ (ascii "cooldown") (to_nat in_cooldown)
  fs₃ ← fs_add_string fs₂ (ascii "timestamp_str") (time_string ts) true
  fs₄ ← fs_add_uint64 fs₃ (ascii "timestamp_ts") ts.tv_sec
  fs_add_uint64 fs₄ (ascii "timestamp_us") (ts.tv_nsec / 1000)
