-- ===== src/Tests/Lists.antt =====
-- src/ports.c at a concrete input: the definition "80,443-444".
use zmap_embedded_ip.Base.{
  ◌+◌, ◌≤◌, ◌≡◌, ◌⊎◌, refl, true, false, none, some, List, [], ◌∷◌, length, arith,
}
use zmap_embedded_ip.Ports.{PortConf, Part, bm_init, parse_ports}
use zmap_embedded_ip.Ports.Bitmap.{bm_init-length}
use zmap_embedded_ip.Ports.Listed.{
  HasBitmap, Extended, numbers, part_ports, listed_ports, is_definition, parse_ports-Extended,
}

abbrev parts : List Part
parts = Part.one 80 ∷ Part.range 443 (some 444) ∷ []

abbrev before : PortConf
before = record { ports = 22 ∷ []; port_bitmap = some bm_init }

before-HasBitmap : HasBitmap before
before-HasBitmap = record { bitmap = bm_init; there = refl; bytes = bm_init-length }

few_ports : length before.ports + length (listed_ports (some parts)) ≤ 65536
unfolding listed_ports part_ports numbers
few_ports = omega arith

parse_ports-Extended_example :
    ((is_definition (some parts) ≡ true)
      × ((conf' : PortConf) × (parse_ports (some parts) before ≡ some conf')
          × Extended before conf' (listed_ports (some parts))))
    ⊎ ((is_definition (some parts) ≡ false) × (parse_ports (some parts) before ≡ none))
parse_ports-Extended_example = parse_ports-Extended (some parts) before before-HasBitmap few_ports
