-- ===== src/Dns/Reads.antt =====
-- src/probe_modules/module_dns.c: `get_name` reads no byte outside of the message.
use mathlib.Core.Path.{subst}
use zmap_embedded_ip.Base.{
  ℕ, zero, suc, ◌+◌, ◌-◌, ◌*◌, ◌%◌, ◌≤◌, ◌<◌, ◌≡◌, refl, inl, inr, true, false, ◌||◌, none, some,
  ltb, leb, ◌==◌, leb→lt, ltb→le, Bool-cases, Option-cases, ap, ◌∙◌, arith,
}
use zmap_embedded_ip.Synscan.Read.{Agree}
use zmap_embedded_ip.Dns.{
  NameResult, write, at_pointer, dot_room, label_room, read_bytes, follow_pointer, labels_loop,
  get_name_helper, get_name,
}
use zmap_embedded_ip.Dns.Bounds.{label_room-fits}

read_bytes-Agree :
    (mem mem' : ℕ → ℕ) (size at n : ℕ)
    → Agree mem mem' size
    → at + n ≤ size
    → read_bytes mem at n ≡ read_bytes mem' at n
unfolding read_bytes
read_bytes-Agree mem mem' size at zero same inside = refl
read_bytes-Agree mem mem' size at (suc n) same inside =
    rw (same at (omega arith), read_bytes-Agree mem mem' size (at + 1) n same (omega arith)) refl

-- The calls at the offsets of a message.
abbrev SameCalls : ℕ → (ℕ → ℕ → NameResult) → (ℕ → ℕ → NameResult) → Type 0
SameCalls size recurse recurse' =
    (offset room : ℕ) → offset < size → recurse offset room ≡ recurse' offset room

module _ (recurse recurse' : ℕ → ℕ → NameResult) (mem mem' : ℕ → ℕ) (size level : ℕ)
    (calls : SameCalls size recurse recurse') (same : Agree mem mem' size) where
  follow_pointer-Agree :
      (at data_len name_len consumed : ℕ)
      → at + data_len ≤ size
      → follow_pointer recurse mem size level at data_len name_len consumed
        ≡ follow_pointer recurse' mem' size level at data_len name_len consumed
  unfolding follow_pointer
  follow_pointer-Agree at data_len name_len consumed inside = elim (Bool-cases (ltb data_len 2)) [
    | inl e ↦ rw e refl
    | inr two ↦
        let first = same at (omega (arith, ltb→le _ _ two)) in
        let second = same (at + 1) (omega (arith, ltb→le _ _ two)) in
        let offset = mem at % 4 * 256 + mem (at + 1) in
        let offset' = mem' at % 4 * 256 + mem' (at + 1) in
        let moved : offset ≡ offset' = rw (first, second) refl in
        elim (Bool-cases (leb size offset)) [
          | inl e ↦
              let e' : leb size offset' ≡ true = rw moved at e in
              rw (follow_pointer, two, e, e') refl
          | inr within ↦
              let within' : leb size offset' ≡ false = rw moved at within in
              elim (Option-cases (dot_room (ltb 0 level || ltb 0 consumed) name_len)) [
                | inl e ↦ rw (follow_pointer, two, within, within', e) refl
                | inr ((dot, room), e) ↦
                    rw (follow_pointer, two, within, within', e)
                      (ap (λ r. write dot (at_pointer consumed r))
                        (calls offset room (leb→lt _ _ within) ∙ ap (λ o. recurse' o room) moved))
              ]
        ]
  ]

  labels_loop-Agree :
      (fuel at data_len name_len consumed : ℕ)
      → at + data_len ≤ size
      → labels_loop fuel recurse mem size level at data_len name_len consumed
        ≡ labels_loop fuel recurse' mem' size level at data_len name_len consumed
  unfolding labels_loop
  labels_loop-Agree zero at data_len name_len consumed inside = refl
  labels_loop-Agree (suc fuel) at data_len name_len consumed inside =
      elim (Bool-cases (data_len == 0)) [
        | inl e ↦ rw (labels_loop, e) refl
        | inr more ↦
            let first = same at (ground (arith, more)) in
            elim (Bool-cases (leb 192 (mem at))) [
              | inl e ↦
                  let e' : leb 192 (mem' at) ≡ true = rw first at e in
                  rw (labels_loop, more, e, e')
                    (follow_pointer-Agree at data_len name_len consumed inside)
              | inr label ↦
                  let label' : leb 192 (mem' at) ≡ false = rw first at label in
                  elim (Bool-cases (mem at == 0)) [
                    | inl e ↦
                        let e' : (mem' at == 0) ≡ true = rw first at e in
                        rw (labels_loop, more, label, label', e, e') refl
                    | inr full ↦
                        let full' : (mem' at == 0) ≡ false = rw first at full in
                        elim (Option-cases (label_room (mem at) data_len name_len consumed)) [
                          | inl e ↦
                              let e' : label_room (mem' at) data_len name_len consumed ≡ none =
                                subst (λ b. label_room b data_len name_len consumed ≡ none) first
                                  e in
                              rw (labels_loop, more, label, label', full, full', e, e') refl
                          | inr ((dot, room), e) ↦
                              let e' : label_room (mem' at) data_len name_len consumed
                                  ≡ some (dot, room) =
                                subst
                                  (λ b. label_room b data_len name_len consumed ≡ some (dot, room))
                                  first e in
                              let fits =
                                label_room-fits (mem at) data_len name_len consumed room dot e in
                              let bytes =
                                read_bytes-Agree mem mem' size (at + 1) (mem at) same
                                  (omega arith) in
                              let rest =
                                labels_loop-Agree fuel (at + 1 + mem at) (data_len - 1 - mem at)
                                  (room - mem at) (consumed + 1 + mem at) (omega arith) in
                              rw
                                (
                                  labels_loop, more, label, label', full, full', e, e', bytes, rest,
                                  first,
                                )
                                refl
                        ]
                  ]
            ]
      ]

get_name_helper-Agree :
    (levels : ℕ) (mem mem' : ℕ → ℕ) (size level at data_len name_len : ℕ)
    → Agree mem mem' size
    → at + data_len ≤ size
    → get_name_helper levels mem size level at data_len name_len
      ≡ get_name_helper levels mem' size level at data_len name_len
unfolding get_name_helper
get_name_helper-Agree zero mem mem' size level at data_len name_len same inside = refl
get_name_helper-Agree (suc levels) mem mem' size level at data_len name_len same inside =
    elim (Bool-cases (data_len == 0 || name_len == 0 || size == 0)) [
      | inl e ↦ rw (get_name_helper, e) refl
      | inr e ↦
          rw (get_name_helper, e)
            (labels_loop-Agree
              (λ offset room.
                get_name_helper levels mem size (level + 1) offset (size - offset) room)
              (λ offset room.
                get_name_helper levels mem' size (level + 1) offset (size - offset) room)
              mem mem' size level
              (λ offset room within.
                get_name_helper-Agree levels mem mem' size (level + 1) offset (size - offset) room
                  same (omega arith))
              same (data_len + 1) at data_len name_len 0 inside)
    ]

-- For data within the message, the result of `get_name` depends only on the bytes of the message:
-- with or without pointers, it reads no byte behind `payload_len`.
pub get_name-Agree :
    (mem mem' : ℕ → ℕ) (at data_len payload_len : ℕ)
    → Agree mem mem' payload_len
    → at + data_len ≤ payload_len
    → get_name mem at data_len payload_len ≡ get_name mem' at data_len payload_len
unfolding get_name
get_name-Agree mem mem' at data_len payload_len same inside =
    get_name_helper-Agree 11 mem mem' payload_len 0 at data_len 511 same inside
