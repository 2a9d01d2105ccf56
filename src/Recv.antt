-- ===== src/Recv.antt =====
-- src/recv.c: `handle_packet`, what the receiver does with a captured packet, in IPv4 mode.
-- `judge` stands for the part up to the validation, `handle_answer` for the rest. Printing, times,
-- the probe module and the cache are parameters; the call of the output module's `update` at the
-- end, which only reads, is left out. `none` is `log_fatal`, a failed assertion or a read outside of
-- an array.
mod Data
pub mod Unique
pub mod Counters
pub use Data.*
use zmap_embedded_ip.Base.{
  ℕ, zero, suc, ◌+◌, ◌-◌, ◌*◌, ◌/◌, ◌%◌, ◌^◌, Bool, true, false, ◌&&◌, ◌||◌, not, Option, none,
  some, List, [], ◌∷◌, ◌++◌, length, ltb, leb, ◌==◌, if◌then◌else◌, ◌>>=◌, to_nat, u32, u64,
  has_bit,
}
use zmap_embedded_ip.Fieldset.{
  Str, FieldDef, Fieldset, fs_new_fieldset, fs_get_uint64_by_index, translate_fieldset,
}
use zmap_embedded_ip.Expression.{Node, evaluate_expression}
use zmap_embedded_ip.Ports.{pbm_check, pbm_set, pbm_init}
use zmap_embedded_ip.Packet.{
  ByteOrder, Ip, Memory, ip_size, ether_size, get_tcp_header, get_udp_header,
}
use zmap_embedded_ip.ProbeModules.{Timespec, fs_add_ip_fields, fs_add_system_fields}

-- The memory from an offset on.
abbrev pub from : ℕ → Memory → Memory
from o mem = record {
  ip_at = λ i. mem.ip_at (o + i);
  tcp_at = λ i. mem.tcp_at (o + i);
  icmp_type_at = λ i. mem.icmp_type_at (o + i);
  icmp_code_at = λ i. mem.icmp_code_at (o + i);
  byte_at = λ i. mem.byte_at (o + i);
}

-- A header that `get` finds, with its source port: `uh_sport` stands where `th_sport` does.
abbrev pub sport_at : Memory → Option ℕ → ℕ
sport_at mem none = 0
sport_at mem (some at) = (mem.tcp_at at).th_sport

-- The source port of a TCP or UDP packet, in network order, else 0.
unfoldable pub src_port_of : Memory → ℕ → ℕ
src_port_of mem len =
    let ip = mem.ip_at 0 in
    if ip.ip_p == 6
    then sport_at mem (get_tcp_header ip 0 len)
    else if ip.ip_p == 17
    then sport_at mem (get_udp_header ip 0 len)
    else 0

-- The header that `recv_run` makes: zeros but for the type, ETHERTYPE_IP, in network order.
abbrev pub fake_eth_hdr : ℕ → ℕ
fake_eth_hdr i = if i == 12 then 8 else 0

-- The frame for `process_packet`: without a link layer, the packet is copied behind an Ethernet
-- header in a buffer of 65535 bytes.
unfoldable pub frame_of : Conf → Captured → Option (Memory × ℕ)
frame_of conf p =
    if not conf.send_ip_pkts
    then some (p.bytes, p.buflen)
    else if leb p.buflen conf.data_link_size
    then none
    else (let rest = p.buflen - conf.data_link_size in
        let kept = if ltb (65535 - ether_size) rest then 65535 - ether_size else rest in
        let at : ℕ → ℕ = λ i. conf.data_link_size + i - ether_size in
        some (
          record {
            ip_at = λ i. p.bytes.ip_at (at i);
            tcp_at = λ i. p.bytes.tcp_at (at i);
            icmp_type_at = λ i. p.bytes.icmp_type_at (at i);
            icmp_code_at = λ i. p.bytes.icmp_code_at (at i);
            byte_at = λ i. if ltb i ether_size then fake_eth_hdr i else p.bytes.byte_at (at i);
          },
          kept + ether_size,
        ))

-- What follows from the answer of `validate_packet`.
unfoldable pub verdict_of : Captured → ℕ → Bool → Option (ℕ × (ℕ → ℕ)) → Verdict
verdict_of p src_port fragment none = invalid
verdict_of p src_port fragment (some (src_ip, validation)) = valid (record {
  packet = p;
  src_ip = src_ip;
  src_port = src_port;
  validation = validation;
  fragment = fragment;
})

-- The part of `handle_packet` up to the validation; bit 13 of `ip_off` is `IP_MF`.
unfoldable pub judge : Conf → Captured → Verdict
unfolding src_port_of verdict_of
judge conf p =
    let len = u32 (p.buflen + (if conf.send_ip_pkts then 0 else 2 ^ 32 - ether_size)) in
    let mem = from conf.data_link_size p.bytes in
    let ip = mem.ip_at 0 in
    let src_port = src_port_of mem len in
    let validation = conf.validate_gen ip.ip_dst ip.ip_src src_port in
    if ltb p.buflen (ip_size + conf.data_link_size)
    then too_short
    else verdict_of p src_port (has_bit ip.ip_off (2 ^ 13))
        (conf.probe_module.validate_packet mem len ip.ip_src validation)

-- Whether the answer is a repetition, with the cache that is left.
unfoldable pub check_repeat :
    (C : Cache) → Conf → List (Option (List ℕ)) → C.State → Answer → Bool × C.State
unfolding pbm_check
check_repeat C conf seen ch a = elim conf.dedup_method [
  | no_dedup ↦ (false, ch)
  | full ↦ (pbm_check seen (conf.order.ntohl a.src_ip), ch)
  | window ↦
      let t : Target = record { ip = a.src_ip; port = a.src_port } in
      let (found, ch') = C.cachehash_get ch t in
      (found, if found then ch' else C.cachehash_put ch' t)
]

-- The record of an answer.
unfoldable pub record_answer : Conf → Answer → Bool → Option Fieldset
unfolding fs_new_fieldset fs_add_ip_fields fs_add_system_fields frame_of
record_answer conf a is_repeat = do
  fs₁ ←
      fs_add_ip_fields conf.order conf.inet_ntoa (a.packet.bytes.ip_at conf.data_link_size)
        (fs_new_fieldset (some conf.defs))
  frame ← frame_of conf a.packet
  fs₂ ← conf.probe_module.process_packet frame.0 frame.1 fs₁ a.validation a.packet.ts
  fs_add_system_fields conf.time_string is_repeat a.packet.complete a.packet.ts fs₂

abbrev pub nonzero : ℕ → Bool
nonzero n = not (n == 0)

-- The value of the success field as an `int`.
unfoldable pub is_success : Conf → Fieldset → Option Bool
unfolding fs_get_uint64_by_index
is_success conf fs = do
  n ← fs_get_uint64_by_index fs.fields conf.success_index
  some (nonzero (u32 n))

-- The same for the success of the application, no success if the module has no such field.
unfoldable pub is_app_success : Conf → Fieldset → Option Bool
unfolding fs_get_uint64_by_index
is_app_success conf fs = elim conf.app_success_index [
  | none ↦ some false
  | some i ↦ do n ← fs_get_uint64_by_index fs.fields i; some (nonzero (u32 n))
]

abbrev pub inc : ℕ → Bool → ℕ
inc n b = u64 (n + to_nat b)

-- The counters after an answer.
unfoldable pub count_answer : Recv → (fragment is_repeat success complete app : Bool) → Recv
count_answer r fragment is_repeat success complete app = record r {
  success_total = inc r.success_total success;
  success_unique = inc r.success_unique (success && not is_repeat);
  app_success_total = inc r.app_success_total app;
  app_success_unique = inc r.app_success_unique (app && not is_repeat);
  cooldown_total = inc r.cooldown_total (success && complete);
  cooldown_unique = inc r.cooldown_unique (success && complete && not is_repeat);
  failure_total = inc r.failure_total (not success);
  ip_fragments = u32 (r.ip_fragments + to_nat fragment);
  validation_passed = inc r.validation_passed true;
}

-- `pbm_set` on a success that is no repetition.
unfoldable pub remember :
    Conf → List (Option (List ℕ)) → Answer → Bool → Bool → List (Option (List ℕ))
unfolding pbm_set
remember conf seen a is_repeat success = elim conf.dedup_method [
  | no_dedup ↦ seen
  | full ↦ if success && not is_repeat then pbm_set seen (conf.order.ntohl a.src_ip) else seen
  | window ↦ seen
]

-- An expression that is not given holds of every record.
abbrev pub filter_holds : Option Node → Fieldset → Option Bool
filter_holds none fs = some true
filter_holds (some node) fs = evaluate_expression node fs.fields

-- The record for the output module, if the answer is one to put out: `some none` is none.
unfoldable pub output_of : Conf → Fieldset → Bool → Bool → Option (Option Fieldset)
unfolding evaluate_expression translate_fieldset
output_of conf fs is_repeat success =
    if not success && conf.default_mode || is_repeat && conf.default_mode then some none else (do
      holds ← filter_holds conf.filter fs
      if holds then (do o ← translate_fieldset fs conf.translation; some (some o)) else some none)

abbrev pub put_out : Bool → Option Fieldset → List Fieldset → List Fieldset
put_out process_ip none output = output
put_out process_ip (some o) output = if process_ip then output ++ o ∷ [] else output

abbrev pub is_some : Option Fieldset → Bool
is_some none = false
is_some (some o) = true

-- The state after an answer that was handled.
unfoldable pub finish :
    (C : Cache)
    → Conf
    → State C
    → Answer
    → (is_repeat : Bool) → C.State
    → (success app : Bool) → Option Fieldset
    → State C
unfolding count_answer remember
finish C conf st a is_repeat ch' success app out = record {
  zrecv = record (count_answer st.zrecv a.fragment is_repeat success a.packet.complete app) {
    filter_success = inc st.zrecv.filter_success (is_some out);
  };
  seen = remember conf st.seen a is_repeat success;
  ch = ch';
  output = put_out conf.process_ip out st.output;
}

-- The part of `handle_packet` behind the validation.
unfoldable pub handle_answer : (C : Cache) → Conf → State C → Answer → Option (State C)
unfolding check_repeat record_answer is_success is_app_success output_of finish
handle_answer C conf st a =
    let (is_repeat, ch') = check_repeat C conf st.seen st.ch a in
    do
      fs ← record_answer conf a is_repeat
      success ← is_success conf fs
      app ← is_app_success conf fs
      out ← output_of conf fs is_repeat success
      some (finish C conf st a is_repeat ch' success app out)

unfoldable pub handle_packet : (C : Cache) → Conf → State C → Captured → Option (State C)
unfolding judge handle_answer
handle_packet C conf st p = elim (judge conf p) [
  | too_short ↦ some st
  | invalid ↦ some (record st {
    zrecv = record st.zrecv { validation_failed = inc st.zrecv.validation_failed true };
  })
  | valid a ↦ handle_answer C conf st a
]
