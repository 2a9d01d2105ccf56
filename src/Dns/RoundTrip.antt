-- ===== src/Dns/RoundTrip.antt =====
-- src/probe_modules/module_dns.c: `get_name` reads back the domain that `domain_to_qname` encodes.
use mathlib.Core.Path.{subst}
use mathlib.Core.List.{append_assoc}
use zmap_embedded_ip.Base.{
  sym, ◌∙◌, ℕ, zero, suc, ◌+◌, ◌-◌, ◌≤◌, ◌<◌, ◌≡◌, ◌≢◌, refl, ap, true, false, some, List, [], ◌∷◌,
  ◌++◌, length, leb, ◌==◌, length-append, u8, u16, arith,
}
use zmap_embedded_ip.Fieldset.{Str}
use zmap_embedded_ip.Dns.{
  NameResult, found, until_dot, to_labels, domain_to_qname, write, dot_room, label_room, read_bytes,
  labels_loop, get_name_helper, get_name,
}

-- The bytes of memory from an address on.
abbrev pub Holds : (ℕ → ℕ) → ℕ → List ℕ → Type 0
Holds mem at [] = Unit {0}
Holds mem at (b ∷ bytes) = (mem at ≡ b) × Holds mem (at + 1) bytes

pub Holds-append :
    (mem : ℕ → ℕ) (at : ℕ) (xs ys : List ℕ)
    → Holds mem at (xs ++ ys)
    → Holds mem at xs × Holds mem (at + length xs) ys
Holds-append mem at [] ys h = let e : at + 0 ≡ at = omega arith in (tt, rw e h)
Holds-append mem at (x ∷ xs) ys h =
    let (left, right) = Holds-append mem (at + 1) xs ys h.1 in
    let e : at + suc (length xs) ≡ at + 1 + length xs = omega arith in ((h.0, left), rw e right)

read_bytes-Holds :
    (mem : ℕ → ℕ) (at : ℕ) (bytes : List ℕ)
    → Holds mem at bytes
    → read_bytes mem at (length bytes) ≡ bytes
unfolding read_bytes
read_bytes-Holds mem at [] h = refl
read_bytes-Holds mem at (b ∷ bytes) h = rw (h.0, read_bytes-Holds mem (at + 1) bytes h.1) refl

abbrev NoDot : Str → Type 0
NoDot [] = Unit {0}
NoDot (c ∷ label) = (c ≢ 46) × NoDot label

-- A label that is not empty, has no dot in it, and whose length is not read as a pointer.
abbrev pub IsLabel : Str → Type 0
IsLabel label = (0 < length label) × (length label < 192) × NoDot label

abbrev pub AreLabels : List Str → Type 0
AreLabels [] = Unit {0}
AreLabels (label ∷ labels) = IsLabel label × AreLabels labels

-- The labels with a dot in front of each, and with the length in front of each.
abbrev pub dotted : List Str → Str
dotted [] = []
dotted (label ∷ labels) = b'.' ∷ label ++ dotted labels

abbrev pub wire : List Str → List ℕ
wire [] = []
wire (label ∷ labels) = length label ∷ label ++ wire labels

length-wire : (labels : List Str) → length (wire labels) ≡ length (dotted labels)
length-wire [] = refl
length-wire (label ∷ labels) = omega (
  arith,
  length-append label (wire labels),
  length-append label (dotted labels),
  length-wire labels,
)

until_dot-label :
    (label : Str) (labels : List Str)
    → NoDot label
    → until_dot (label ++ dotted labels) ≡ length label
unfolding until_dot
until_dot-label [] [] h = refl
until_dot-label [] (label ∷ labels) h = refl
until_dot-label (c ∷ label) labels h = ground (arith, h.0, until_dot-label label labels h.1)

to_labels-label :
    (label rest : Str) → NoDot label → to_labels (label ++ rest) ≡ label ++ to_labels rest
unfolding to_labels
to_labels-label [] rest h = refl
to_labels-label (c ∷ label) rest h =
    let other : (c == 46) ≡ false = ground (arith, h.0) in
    rw (other, to_labels-label label rest h.1) refl

to_labels-dotted : (labels : List Str) → AreLabels labels → to_labels (dotted labels) ≡ wire labels
unfolding to_labels
to_labels-dotted [] h = refl
to_labels-dotted (label ∷ labels) h =
    let size : u8 (length label) ≡ length label = omega (arith, h.0.1) in
    rw
      (
        until_dot-label label labels h.0.2,
        size,
        to_labels-label label (dotted labels) h.0.2,
        to_labels-dotted labels h.1,
      )
      refl

module _ (recurse : ℕ → ℕ → NameResult) (mem : ℕ → ℕ) (payload_len level : ℕ) where
  -- A round over a label.
  labels_loop-label :
      (fuel at data_len name_len consumed room : ℕ) (label rest dot : List ℕ)
      → IsLabel label
      → Holds mem at (length label ∷ label ++ rest)
      → label_room (length label) data_len name_len consumed ≡ some (dot, room)
      → 0 < data_len
      → labels_loop (suc fuel) recurse mem payload_len level at data_len name_len consumed
        ≡ write (dot ++ label) (
            labels_loop fuel recurse mem payload_len level
              (at + 1 + length label)
              (data_len - 1 - length label)
              (room - length label)
              (consumed + 1 + length label))
  unfolding labels_loop
  labels_loop-label fuel at data_len name_len consumed room label rest dot ok h space some_data =
      let e = h.0 in
      let more : (data_len == 0) ≡ false = ground arith in
      let short : leb 192 (mem at) ≡ false = ground (arith, ok.1, e) in
      let full : (mem at == 0) ≡ false = ground (arith, ok.0, e) in
      let bytes =
        read_bytes-Holds mem (at + 1) label (Holds-append mem (at + 1) label rest h.1).0 in
      let space' : label_room (mem at) data_len name_len consumed ≡ some (dot, room) =
        subst (λ b. label_room b data_len name_len consumed ≡ some (dot, room)) (sym e) space in
      rw (labels_loop, more, short, full, space', e, bytes) refl

  label_room-dot :
      (size data_len name_len consumed : ℕ)
      → 0 < consumed
      → size + 1 < data_len
      → size < name_len
      → label_room size data_len name_len consumed ≡ some (b'.' ∷ [], name_len - 1)
  unfolding label_room dot_room
  label_room-dot size data_len name_len consumed later data_fits name_fits = ground arith

  label_room-first :
      (size data_len name_len : ℕ)
      → size + 1 < data_len
      → size ≤ name_len
      → label_room size data_len name_len 0 ≡ some ([], name_len)
  unfolding label_room dot_room
  label_room-first size data_len name_len data_fits name_fits = ground arith

  labels_loop-wire :
      (fuel at data_len name_len consumed : ℕ) (labels : List Str)
      → AreLabels labels
      → Holds mem at (wire labels ++ 0 ∷ [])
      → 0 < consumed
      → length (wire labels) < data_len
      → data_len < fuel
      → length (dotted labels) ≤ name_len
      → labels_loop fuel recurse mem payload_len level at data_len name_len consumed
        ≡ found (consumed + length (wire labels) + 1) (dotted labels)
  unfolding labels_loop
  labels_loop-wire zero at data_len name_len consumed labels ok h later data_fits enough name_fits =
      absurd (omega arith)
  labels_loop-wire (suc fuel) at data_len name_len consumed [] ok h later data_fits enough
        name_fits =
      let e = h.0 in
      let more : (data_len == 0) ≡ false = ground arith in
      let short : leb 192 (mem at) ≡ false = ground (arith, e) in
      let end : (mem at == 0) ≡ true = ground (arith, e) in
      let same : consumed + 0 ≡ consumed = omega arith in
      rw (labels_loop, more, short, end, same) refl
  labels_loop-wire (suc fuel) at data_len name_len consumed (label ∷ labels) ok h later data_fits
        enough name_fits =
      let sizes = length-append label (wire labels) in
      let sizes' = length-append label (dotted labels) in
      let holds : Holds mem at (length label ∷ label ++ (wire labels ++ 0 ∷ [])) =
        rw (append_assoc label (wire labels) (0 ∷ [])) at h in
      let behind = (Holds-append mem (at + 1) label (wire labels ++ 0 ∷ []) holds.1).1 in
      let rest =
        labels_loop-wire fuel (at + 1 + length label) (data_len - 1 - length label)
          (name_len - 1 - length label) (consumed + 1 + length label) labels ok.1 behind
          (omega arith) (omega arith) (omega arith) (omega (arith, length-wire labels)) in
      let total : consumed + 1 + length label + length (wire labels) + 1
          ≡ consumed + suc (length (label ++ wire labels)) + 1 =
        omega arith in
      labels_loop-label fuel at data_len name_len consumed (name_len - 1) label
        (wire labels ++ 0 ∷ []) (b'.' ∷ []) ok.0 holds
        (label_room-dot (length label) data_len name_len consumed later (omega arith) (omega arith))
        (omega arith)
      ∙ (ap (write (b'.' ∷ label)) rest ∙ rw (write, total) refl)

get_name_helper-wire :
    (levels : ℕ) (mem : ℕ → ℕ) (payload_len level at data_len : ℕ) (label : Str) (labels : List Str)
    → AreLabels (label ∷ labels)
    → Holds mem at (wire (label ∷ labels) ++ 0 ∷ [])
    → length (label ++ dotted labels) ≤ 511
    → length (label ++ dotted labels) + 2 ≤ data_len
    → 0 < payload_len
    → get_name_helper (suc levels) mem payload_len level at data_len 511
      ≡ found (length (label ++ dotted labels) + 2) (label ++ dotted labels)
unfolding get_name_helper
get_name_helper-wire levels mem payload_len level at data_len label labels ok h' size fits
      some_payload =
    let sizes = length-append label (dotted labels) in
    let sizes' = length-wire labels in
    let holds : Holds mem at (length label ∷ label ++ (wire labels ++ 0 ∷ [])) =
      rw (append_assoc label (wire labels) (0 ∷ [])) at h' in
    let data_some : (data_len == 0) ≡ false = ground arith in
    let payload_some : (payload_len == 0) ≡ false = ground arith in
    let recurse = λ (offset room : ℕ).
      get_name_helper levels mem payload_len (level + 1) offset (payload_len - offset) room in
    let behind = (Holds-append mem (at + 1) label (wire labels ++ 0 ∷ []) holds.1).1 in
    let rest =
      labels_loop-wire recurse mem payload_len level data_len (at + 1 + length label)
        (data_len - 1 - length label) (511 - length label) (0 + 1 + length label) labels ok.1 behind
        (omega arith) (omega arith) (omega arith) (omega arith) in
    let first =
      labels_loop-label recurse mem payload_len level data_len at data_len 511 0 511 label
        (wire labels ++ 0 ∷ []) [] ok.0 holds
        (label_room-first recurse mem payload_len level (length label) data_len 511 (omega arith)
          (omega arith))
        (omega arith) in
    let next : data_len + 1 ≡ suc data_len = omega arith in
    let total : 0 + 1 + length label + length (wire labels) + 1
        ≡ length (label ++ dotted labels) + 2 =
      omega arith in
    rw (get_name_helper, data_some, payload_some, next)
      (first ∙ (ap (write label) rest ∙ rw (write, total) refl))

-- `get_name` reads back a domain of non-empty labels of at most 191 bytes from where its qname
-- stands in memory, for a domain of at most 511 bytes, and consumes the length of the qname.
pub get_name-domain_to_qname :
    (mem : ℕ → ℕ) (at data_len payload_len : ℕ) (label : Str) (labels : List Str)
    → AreLabels (label ∷ labels)
    → Holds mem at (domain_to_qname (label ++ dotted labels)).0
    → length (label ++ dotted labels) ≤ 511
    → (domain_to_qname (label ++ dotted labels)).1 ≤ data_len
    → 0 < payload_len
    → get_name mem at data_len payload_len
      ≡ found (domain_to_qname (label ++ dotted labels)).1 (label ++ dotted labels)
unfolding get_name domain_to_qname
get_name-domain_to_qname mem at data_len payload_len label labels ok h size data_fits some_payload =
    let encoded : to_labels (b'.' ∷ label ++ dotted labels) ≡ wire (label ∷ labels) =
      to_labels-dotted (label ∷ labels) ok in
    let len : u16 (length (label ++ dotted labels) + 1 + 1) ≡ length (label ++ dotted labels) + 2 =
      omega arith in
    rw len (
      get_name_helper-wire 10 mem payload_len 0 at data_len label labels ok
        (subst (λ bytes. Holds mem at (bytes ++ 0 ∷ [])) encoded h) size (rw len at data_fits)
        some_payload)
