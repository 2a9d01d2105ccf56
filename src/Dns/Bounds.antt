-- ===== src/Dns/Bounds.antt =====
-- src/probe_modules/module_dns.c: `get_name` ends without a failed assertion, consumes no more than
-- it is given, and writes no more than the buffer holds.
use zmap_embedded_ip.Base.{
  ℕ, zero, suc, ◌+◌, ◌-◌, ◌≤◌, ◌<◌, ◌≡◌, refl, inl, inr, Bool, true, false, some, List, ◌++◌,
  length, ltb, leb, ◌==◌, ◌||◌, ltb→le, leb→lt, Bool-cases, Option-cases, length-append, ap, ◌*◌,
  ◌%◌, arith,
}
use zmap_embedded_ip.Dns.{
  NameResult, error, aborted, found, write, at_pointer, dot_room, label_room, read_bytes,
  follow_pointer, labels_loop, get_name_helper, get_name,
}

-- An error, or a name of at most `room` bytes for between 1 and `most` consumed bytes.
abbrev pub Fits : ℕ → ℕ → NameResult → Type 0
Fits most room error = Unit {0}
Fits most room aborted = ⊥
Fits most room (found consumed name) = (1 ≤ consumed) × (consumed ≤ most) × (length name ≤ room)

Fits-write :
    (most room rest : ℕ) (piece : List ℕ) (r : NameResult)
    → Fits most rest r
    → length piece + rest ≤ room
    → Fits most room (write piece r)
unfolding write
Fits-write most room rest piece error h fits = tt
Fits-write most room rest piece aborted h fits = h
Fits-write most room rest piece (found consumed name) h fits =
    (h.0, h.1, omega (arith, length-append piece name))

Fits-at_pointer :
    (most room consumed most' : ℕ) (r : NameResult)
    → Fits most' room r
    → consumed + 2 ≤ most
    → Fits most room (at_pointer consumed r)
unfolding at_pointer
Fits-at_pointer most room consumed most' error h fits = tt
Fits-at_pointer most room consumed most' aborted h fits = h
Fits-at_pointer most room consumed most' (found c name) h fits = (omega arith, fits, h.2)

length-read_bytes : (mem : ℕ → ℕ) (at n : ℕ) → length (read_bytes mem at n) ≡ n
unfolding read_bytes
length-read_bytes mem at zero = refl
length-read_bytes mem at (suc n) = ap suc (length-read_bytes mem (at + 1) n)

dot_room-length :
    (b : Bool) (name_len room : ℕ) (dot : List ℕ)
    → dot_room b name_len ≡ some (dot, room)
    → length dot + room ≡ name_len
unfolding dot_room
dot_room-length true name_len room dot h = ground arith
dot_room-length false name_len room dot h = ground arith

-- A label that is read lies within the data, and there is room for it and its dot.
pub label_room-fits :
    (byte data_len name_len consumed room : ℕ) (dot : List ℕ)
    → label_room byte data_len name_len consumed ≡ some (dot, room)
    → (byte + 1 < data_len) × (length dot + room ≡ name_len) × (byte ≤ room)
unfolding label_room
label_room-fits byte data_len name_len consumed room dot h =
    elim (Option-cases (dot_room (ltb 0 consumed) name_len)) [
      | inl e ↦ ground (arith, h, e)
      | inr ((d, r), e) ↦ ground (arith, h, e, dot_room-length (ltb 0 consumed) name_len r d e)
    ]

-- What a call at an offset of the message may come to.
abbrev CallsFit : ℕ → (ℕ → ℕ → NameResult) → Type 0
CallsFit payload_len recurse =
    (offset room : ℕ)
    → offset < payload_len
    → Fits (payload_len - offset) room (recurse offset room)

module _ (recurse : ℕ → ℕ → NameResult) (mem : ℕ → ℕ) (payload_len level : ℕ) where
  follow_pointer-Fits :
      (at data_len name_len consumed : ℕ)
      → CallsFit payload_len recurse
      → Fits
          (consumed + data_len)
          name_len
          (follow_pointer recurse mem payload_len level at data_len name_len consumed)
  unfolding follow_pointer
  follow_pointer-Fits at data_len name_len consumed calls =
      let offset = mem at % 4 * 256 + mem (at + 1) in
      elim (Bool-cases (ltb data_len 2)) [
        | inl e ↦ rw e tt
        | inr two ↦ elim (Bool-cases (leb payload_len offset)) [
          | inl e ↦ rw (two, e) tt
          | inr inside ↦ elim (Option-cases (dot_room (ltb 0 level || ltb 0 consumed) name_len)) [
            | inl e ↦ rw (two, inside, e) tt
            | inr ((dot, room), e) ↦
                let call = calls offset room (leb→lt _ _ inside) in
                let back =
                  Fits-at_pointer (consumed + data_len) room consumed (payload_len - offset)
                    (recurse offset room) call (omega (arith, ltb→le _ _ two)) in
                rw (two, inside, e)
                  (Fits-write (consumed + data_len) name_len room dot
                    (at_pointer consumed (recurse offset room)) back
                    (omega (arith, dot_room-length _ name_len room dot e)))
          ]
        ]
      ]

  labels_loop-Fits :
      (fuel at data_len name_len consumed most : ℕ)
      → CallsFit payload_len recurse
      → consumed + data_len ≡ most
      → 0 < data_len
      → data_len < fuel
      → Fits most name_len
          (labels_loop fuel recurse mem payload_len level at data_len name_len consumed)
  unfolding labels_loop
  labels_loop-Fits zero at data_len name_len consumed most calls sum some_data enough =
      absurd (omega arith)
  labels_loop-Fits (suc fuel) at data_len name_len consumed most calls sum some_data enough =
      let more : (data_len == 0) ≡ false = ground arith in
      elim (Bool-cases (leb 192 (mem at))) [
        | inl e ↦
            rw (more, labels_loop, labels_loop, e)
              (rw (← sum) (follow_pointer-Fits at data_len name_len consumed calls))
        | inr label ↦ elim (Bool-cases (mem at == 0)) [
          | inl e ↦ rw (more, labels_loop, label, e) (omega arith, omega arith, omega arith)
          | inr full ↦ elim (Option-cases (label_room (mem at) data_len name_len consumed)) [
            | inl e ↦ rw (more, labels_loop, label, full, e) tt
            | inr ((dot, room), e) ↦
                let fits = label_room-fits (mem at) data_len name_len consumed room dot e in
                let rest =
                  labels_loop-Fits fuel (at + 1 + mem at) (data_len - 1 - mem at) (room - mem at)
                    (consumed + 1 + mem at) most calls (omega arith) (omega arith) (omega arith) in
                rw (more, labels_loop, label, full, e)
                  (Fits-write most name_len (room - mem at)
                    (dot ++ read_bytes mem (at + 1) (mem at)) _ rest
                    (omega (
                      arith,
                      length-append dot (read_bytes mem (at + 1) (mem at)),
                      length-read_bytes mem (at + 1) (mem at),
                    )))
          ]
        ]
      ]

get_name_helper-Fits :
    (levels : ℕ) (mem : ℕ → ℕ) (payload_len level at data_len name_len : ℕ)
    → Fits data_len name_len (get_name_helper levels mem payload_len level at data_len name_len)
unfolding get_name_helper
get_name_helper-Fits zero mem payload_len level at data_len name_len = tt
get_name_helper-Fits (suc levels) mem payload_len level at data_len name_len =
    elim (Bool-cases (data_len == 0 || name_len == 0 || payload_len == 0)) [
      | inl e ↦ rw e tt
      | inr e ↦ rw e (
          labels_loop-Fits
            (λ offset room.
              get_name_helper levels mem payload_len (level + 1) offset (payload_len - offset) room)
            mem payload_len level (data_len + 1) at data_len name_len 0 data_len
            (λ offset room inside.
              get_name_helper-Fits levels mem payload_len (level + 1) offset (payload_len - offset)
                room)
            (omega arith) (ground (arith, e)) (omega arith))
    ]

-- Whatever the bytes are, `get_name` ends and no assertion fails; a name that it returns was read
-- from at least one and at most `data_len` bytes, and has at most 511 bytes, so that the last byte of
-- the buffer stays 0.
pub get_name-Fits :
    (mem : ℕ → ℕ) (at data_len payload_len : ℕ)
    → Fits data_len 511 (get_name mem at data_len payload_len)
unfolding get_name
get_name-Fits mem at data_len payload_len =
    get_name_helper-Fits 11 mem payload_len 0 at data_len 511
