-- ===== src/Recv/Data.antt =====
-- src/recv.c, src/state.h: the settings of the receiver, its state and the packets that it is given.
use zmap_embedded_ip.Base.{ℕ, Bool, Option, List}
use zmap_embedded_ip.Fieldset.{Str, FieldDef, Fieldset}
use zmap_embedded_ip.Expression.{Node}
use zmap_embedded_ip.Packet.{ByteOrder, Memory}
use zmap_embedded_ip.ProbeModules.{Timespec}

-- `target_t` as the key of the window.
pub record Target : Type 0 where
  pub ip : ℕ
  pub port : ℕ

-- A cache of targets: `cachehash_get` tells whether a target is there and may reorder the entries.
pub record Cache : Type 1 where
  pub State : Type 0
  pub cachehash_get : State → Target → Bool × State
  pub cachehash_put : State → Target → State

pub data DedupMethod : Type 0 where
  no_dedup : DedupMethod
  full : DedupMethod
  window : DedupMethod

-- The functions of the probe module. `validate_packet` is given the packet from its IP header on,
-- the length, the source and the validation, and returns the last two as it leaves them.
pub record ProbeModule : Type 0 where
  pub validate_packet : Memory → ℕ → ℕ → (ℕ → ℕ) → Option (ℕ × (ℕ → ℕ))
  pub process_packet : Memory → ℕ → Fieldset → (ℕ → ℕ) → Timespec → Option Fieldset

-- What the receiver reads of `zconf` and `zsend`, in IPv4 mode; `none` for `app_success_index` is -1.
pub record Conf : Type 0 where
  pub order : ByteOrder
  pub send_ip_pkts : Bool
  pub data_link_size : ℕ
  pub dedup_method : DedupMethod
  pub default_mode : Bool
  pub defs : List FieldDef
  pub success_index : ℕ
  pub app_success_index : Option ℕ
  pub filter : Option Node
  pub translation : List ℕ
  pub probe_module : ProbeModule
  pub validate_gen : ℕ → ℕ → ℕ → ℕ → ℕ
  pub inet_ntoa : ℕ → Str
  pub time_string : Timespec → Str
  pub process_ip : Bool

-- `zrecv`.
pub record Recv : Type 0 where
  pub success_total : ℕ
  pub success_unique : ℕ
  pub app_success_total : ℕ
  pub app_success_unique : ℕ
  pub cooldown_total : ℕ
  pub cooldown_unique : ℕ
  pub failure_total : ℕ
  pub filter_success : ℕ
  pub ip_fragments : ℕ
  pub validation_passed : ℕ
  pub validation_failed : ℕ

abbrev pub zrecv_init : Recv
zrecv_init = record {
  success_total = 0;
  success_unique = 0;
  app_success_total = 0;
  app_success_unique = 0;
  cooldown_total = 0;
  cooldown_unique = 0;
  failure_total = 0;
  filter_success = 0;
  ip_fragments = 0;
  validation_passed = 0;
  validation_failed = 0;
}

-- The counters, the bitmap `seen`, the cache `ch`, and the records passed to `process_ip`.
pub record State (C : Cache) : Type 0 where
  pub zrecv : Recv
  pub seen : List (Option (List ℕ))
  pub ch : C.State
  pub output : List Fieldset

-- A captured packet: its length, its bytes from the link layer on and its time, and whether sending
-- was complete when it was handled.
pub record Captured : Type 0 where
  pub buflen : ℕ
  pub bytes : Memory
  pub ts : Timespec
  pub complete : Bool

-- A validated packet.
pub record Answer : Type 0 where
  pub packet : Captured
  pub src_ip : ℕ
  pub src_port : ℕ
  pub validation : ℕ → ℕ
  pub fragment : Bool

pub data Verdict : Type 0 where
  too_short : Verdict
  invalid : Verdict
  valid : Answer → Verdict
