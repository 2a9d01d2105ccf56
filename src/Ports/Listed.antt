-- ===== src/Ports/Listed.antt =====
-- src/ports.c: the ports that `parse_ports` lists.
use zmap_embedded_ip.Base.{
  ℕ, zero, suc, ◌+◌, ◌-◌, ◌≤◌, ◌<◌, ◌≡◌, ◌⊎◌, refl, sym, ap, ◌∙◌, inl, inr, Bool, true, false, ◌&&◌,
  ◌||◌, Option, none, some, List, [], ◌∷◌, ◌++◌, length, length-append, Bool-cases, ltb, leb,
  ltb→lt, ltb→le, lt→ltb, le→ltb, ◌==◌, arith,
}
use mathlib.Core.List.{append_assoc, append-nil}
use zmap_embedded_ip.Ports.{
  PortConf, bm_set, add_port, add_range, Part, one, range, add_part, add_parts, parse_ports,
}
use zmap_embedded_ip.Ports.Bitmap.{bm_check-set, bm_set-length}
use zmap_embedded_ip.Packet.{check_src_port}

-- The numbers from `i` on, `n` of them.
unfoldable pub numbers : ℕ → ℕ → List ℕ
numbers zero i = []
numbers (suc n) i = i ∷ numbers n (suc i)

-- The ports of a part.
unfoldable pub part_ports : Part → List ℕ
unfolding numbers
part_ports (one port) = port ∷ []
part_ports (range first none) = []
part_ports (range first (some last)) = numbers (last + 1 - first) first

-- What a definition means: all ports in order for "*", and else those of its parts in order.
unfoldable pub listed_ports : Option (List Part) → List ℕ
unfolding part_ports numbers
listed_ports none = numbers 65536 0
listed_ports (some []) = []
listed_ports (some (part ∷ parts)) = part_ports part ++ listed_ports (some parts)

-- A port of 16 bits, or a range that does not go down to one.
is_part : Part → Bool
is_part (one port) = ltb port 65536
is_part (range first none) = false
is_part (range first (some last)) = ltb last 65536 && leb first last

pub is_definition : Option (List Part) → Bool
unfolding is_part
is_definition none = true
is_definition (some []) = true
is_definition (some (part ∷ parts)) = is_part part && is_definition (some parts)

-- Whether a number is in a list.
pub is_in : List ℕ → ℕ → Bool
is_in [] p = false
is_in (x ∷ xs) p = p == x || is_in xs p

-- A configuration with a bitmap for the ports of 16 bits.
pub record HasBitmap (conf : PortConf) : Type 0 where
  pub bitmap : List ℕ
  pub there : conf.port_bitmap ≡ some bitmap
  pub bytes : length bitmap ≡ 8192

-- That a configuration got the ports: in its array, and in its bitmap, which has no others.
pub record Extended (conf conf' : PortConf) (ports : List ℕ) : Type 0 where
  pub appended : conf'.ports ≡ conf.ports ++ ports
  pub marked : HasBitmap conf'
  pub found : (p : ℕ) → check_src_port p conf' ≡ (is_in ports p || check_src_port p conf)

nothing-Extended : (conf : PortConf) → HasBitmap conf → Extended conf conf []
unfolding is_in
nothing-Extended conf has = record {
  appended = sym (append-nil conf.ports);
  marked = has;
  found = λ p. refl;
}

is_in-append : (xs ys : List ℕ) (p : ℕ) → is_in (xs ++ ys) p ≡ (is_in xs p || is_in ys p)
unfolding is_in
is_in-append [] ys p = refl
is_in-append (x ∷ xs) ys p = ground (arith, is_in-append xs ys p)

then-Extended :
    (a b c : PortConf) (xs ys : List ℕ)
    → Extended a b xs
    → Extended b c ys
    → Extended a c (xs ++ ys)
then-Extended a b c xs ys p q = record {
  appended = q.appended ∙ ap (λ l. l ++ ys) p.appended ∙ append_assoc a.ports xs ys;
  marked = q.marked;
  found = λ port. ground (arith, q.found port, p.found port, is_in-append xs ys port);
}

-- The result of a step that gets the ports if they are valid, and else ends the program.
Outcome : Bool → Option PortConf → PortConf → List ℕ → Type 0
Outcome valid result conf ports =
    ((valid ≡ true) × ((conf' : PortConf) × (result ≡ some conf') × Extended conf conf' ports))
    ⊎ ((valid ≡ false) × (result ≡ none))

add_port-Extended :
    (conf : PortConf) (port : ℕ)
    → HasBitmap conf
    → port < 65536
    → (conf' : PortConf) × (add_port conf port ≡ some conf') × Extended conf conf' (port ∷ [])
unfolding add_port check_src_port is_in
add_port-Extended conf port has small =
    let valid : ltb 65535 port ≡ false = le→ltb _ _ (omega arith) in
    let conf' : PortConf = record {
      ports = conf.ports ++ port ∷ [];
      port_bitmap = some (bm_set has.bitmap port);
    } in
    (
      conf',
      rw (valid, has.there) refl,
      record {
        appended = refl;
        marked = record {
          bitmap = bm_set has.bitmap port;
          there = refl;
          bytes = bm_set-length has.bitmap port ∙ has.bytes;
        };
        found = λ p.
            rw (check_src_port, has.there)
              (ground (arith, bm_check-set has.bitmap port p (omega (arith, has.bytes))));
      },
    )

add_range-Extended :
    (n i : ℕ) (conf : PortConf)
    → HasBitmap conf
    → i + n ≤ 65536
    → (conf' : PortConf) × (add_range n i conf ≡ some conf') × Extended conf conf' (numbers n i)
unfolding add_range numbers
add_range-Extended zero i conf has small = (conf, refl, nothing-Extended conf has)
add_range-Extended (suc n) i conf has small =
    let (mid, added, got) = add_port-Extended conf i has (omega arith) in
    let (conf', runs, rest) = add_range-Extended n (suc i) mid got.marked (omega arith) in
    (
      conf',
      rw (add_range, added) runs,
      then-Extended conf mid conf' (i ∷ []) (numbers n (suc i)) got rest,
    )

add_part-Outcome :
    (conf : PortConf) (part : Part)
    → HasBitmap conf
    → Outcome (is_part part) (add_part conf part) conf (part_ports part)
unfolding Outcome add_part part_ports is_part add_port
add_part-Outcome conf (one port) has = elim (Bool-cases (ltb port 65536)) [
  | inl valid ↦ inl (valid, add_port-Extended conf port has (ltb→lt _ _ valid))
  | inr bad ↦
      let large : ltb 65535 port ≡ true = lt→ltb _ _ (omega (arith, ltb→le _ _ bad)) in
      inr (bad, rw large refl)
]
add_part-Outcome conf (range first none) has = inr (refl, refl)
add_part-Outcome conf (range first (some last)) has =
    let shape = add_range (last + 1 - first) first conf in
    elim (Bool-cases (ltb last 65536 && leb first last)) [
      | inl valid ↦
          let small : ltb 65535 last ≡ false = ground (arith, valid) in
          let up : ltb last first ≡ false = ground (arith, valid) in
          let (conf', runs, got) =
            add_range-Extended (last + 1 - first) first conf has (ground (arith, valid)) in
          inl (valid, (conf', rw (small, up) runs, got))
      | inr bad ↦ elim (Bool-cases (ltb 65535 last)) [
        | inl large ↦ inr (bad, rw large refl)
        | inr small ↦
            let down : ltb last first ≡ true = ground (arith, bad, small) in
            inr (bad, rw (small, down) refl)
      ]
    ]

-- If each port and each end of a range is below 65536, and no range goes down, then `parse_ports`
-- appends exactly the ports that the definition means, in order, and `check_src_port` finds these
-- and the ones before them, and no others; and else it ends the program. The array has room for
-- all of them: this is a condition, since the code does not test it.
pub parse_ports-Extended :
    (definition : Option (List Part)) (conf : PortConf)
    → HasBitmap conf
    → length conf.ports + length (listed_ports definition) ≤ 65536
    → ((is_definition definition ≡ true)
        × ((conf' : PortConf) × (parse_ports definition conf ≡ some conf')
            × Extended conf conf' (listed_ports definition)))
      ⊎ ((is_definition definition ≡ false) × (parse_ports definition conf ≡ none))
unfolding parse_ports add_parts listed_ports is_definition Outcome
parse_ports-Extended none conf has room =
    inl (refl, add_range-Extended 65536 0 conf has (omega arith))
parse_ports-Extended (some []) conf has room = inl (refl, (conf, refl, nothing-Extended conf has))
parse_ports-Extended (some (part ∷ parts)) conf has room = elim (add_part-Outcome conf part has) [
  | inr (bad, fails) ↦ inr (rw bad refl, rw (parse_ports, add_parts, fails) refl)
  | inl (valid, (mid, runs, got)) ↦
      let left : length mid.ports + length (listed_ports (some parts)) ≤ 65536 = rw got.appended (
        omega (
          arith,
          room,
          length-append conf.ports (part_ports part),
          length-append (part_ports part) (listed_ports (some parts)),
        )) in
      elim (parse_ports-Extended (some parts) mid got.marked left) [
        | inr (bad, fails) ↦ inr (rw (valid, bad) refl, rw (parse_ports, add_parts, runs) fails)
        | inl (rest_valid, (conf', rest_runs, rest)) ↦ inl (
          rw (valid, rest_valid) refl,
          (
            conf',
            rw (parse_ports, add_parts, runs) rest_runs,
            then-Extended conf mid conf' (part_ports part) (listed_ports (some parts)) got rest,
          ),
        )
      ]
]
