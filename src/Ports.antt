-- ===== src/Ports.antt =====
-- src/ports.c and lib/pbm.c: the list of target ports, and bitmaps.
-- A port definition is the list of its parts between commas, each with the numbers that `atoi`
-- reads. `none` stands for `log_fatal`.
pub mod Bitmap
pub mod Listed
use zmap_embedded_ip.Base.{
  ℕ, zero, suc, ◌+◌, ◌-◌, ◌*◌, ◌/◌, ◌%◌, ◌^◌, Bool, true, false, Option, none, some, List, [], ◌∷◌,
  ◌++◌, length, get_or, set, replicate, ltb, leb, if◌then◌else◌, u8, has_bit, bit_or,
}

unfoldable pub bm_init : List ℕ
bm_init = replicate 8192 0

unfoldable pub bm_check : List ℕ → ℕ → Bool
bm_check bm v = has_bit (get_or bm (v / 8) 0) (2 ^ (v % 8))

unfoldable pub bm_set : List ℕ → ℕ → List ℕ
bm_set bm v = set bm (v / 8) (u8 (bit_or (get_or bm (v / 8) 0) (2 ^ (v % 8))))

-- A paged bitmap: a page that is not there is `none`.
unfoldable pub pbm_init : List (Option (List ℕ))
pbm_init = replicate 65536 none

-- `b[top] && bm_check(b[top], bottom)`
unfoldable pub page_check : Option (List ℕ) → ℕ → Bool
unfolding bm_check
page_check none bottom = false
page_check (some page) bottom = bm_check page bottom

unfoldable pub pbm_check : List (Option (List ℕ)) → ℕ → Bool
unfolding page_check
pbm_check b v = page_check (get_or b (v / 2 ^ 16) none) (v % 2 ^ 16)

-- The page that `pbm_set` writes to, made at need.
unfoldable pub page_for : Option (List ℕ) → List ℕ
unfolding bm_init
page_for none = bm_init
page_for (some page) = page

unfoldable pub pbm_set : List (Option (List ℕ)) → ℕ → List (Option (List ℕ))
unfolding bm_set page_for
pbm_set b v =
    let top = v / 2 ^ 16 in set b top (some (bm_set (page_for (get_or b top none)) (v % 2 ^ 16)))

-- `struct port_conf`: the first `port_count` ports of the array, and the bitmap if there is one. The
-- array has 65536 entries; behind them the source writes past it, and the list here just grows.
pub record PortConf : Type 0 where
  pub ports : List ℕ
  pub port_bitmap : Option (List ℕ)

abbrev pub set_bitmap : Option (List ℕ) → ℕ → Option (List ℕ)
set_bitmap none port = none
set_bitmap (some bm) port = some (bm_set bm port)

unfoldable pub add_port : PortConf → ℕ → Option PortConf
add_port conf port =
    if ltb 65535 port
    then none
    else some (record conf {
      ports = conf.ports ++ port ∷ [];
      port_bitmap = set_bitmap conf.port_bitmap port;
    })

-- The loops over a range: `n` ports from `i` on.
unfoldable pub add_range : ℕ → ℕ → PortConf → Option PortConf
unfolding add_port
add_range zero i conf = some conf
add_range (suc n) i conf = elim (add_port conf i) [
  | none ↦ none
  | some conf' ↦ add_range n (suc i) conf'
]

-- A part of the definition: a port, or a range whose last port `none` is a negative number.
pub data Part : Type 0 where
  one : ℕ → Part
  range : ℕ → Option ℕ → Part

unfoldable pub add_part : PortConf → Part → Option PortConf
unfolding add_port add_range
add_part conf (one port) = add_port conf port
add_part conf (range first none) = none
add_part conf (range first (some last)) =
    let added = add_range (last + 1 - first) first conf in
    if ltb 65535 last then none else if ltb last first then none else added

unfoldable pub add_parts : PortConf → List Part → Option PortConf
unfolding add_part
add_parts conf [] = some conf
add_parts conf (part ∷ parts) = elim (add_part conf part) [
  | none ↦ none
  | some conf' ↦ add_parts conf' parts
]

-- `parse_ports`: `none` is the definition "*".
unfoldable pub parse_ports : Option (List Part) → PortConf → Option PortConf
unfolding add_parts add_range
parse_ports none conf = add_range 65536 0 conf
parse_ports (some parts) conf = add_parts conf parts
