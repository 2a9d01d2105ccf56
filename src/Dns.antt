-- ===== src/Dns.antt =====
-- src/probe_modules/module_dns.c: the names of DNS messages, from a domain to the labels of a
-- question (`domain_to_qname`) and back (`get_name`).
-- Memory is a function from the offset in the DNS message to the byte there; `payload` is at 0 and
-- `data` is an offset. The lengths are `uint16_t`; no sum of the loop exceeds `data_len`, as
-- Dns/Bounds.antt shows, so none wraps.
pub mod Bounds
pub mod Reads
pub mod RoundTrip
pub mod Types
pub mod Records
pub mod Fields
pub mod Sections
pub mod Loop
pub mod Process
pub mod Answer
pub mod Complete
pub mod Words
pub mod Names
pub mod Pointer
use zmap_embedded_ip.Base.{
  ℕ, zero, suc, ◌+◌, ◌-◌, ◌*◌, ◌%◌, Bool, true, false, ◌||◌, Option, none, some, List, [], ◌∷◌,
  ◌++◌, length, ltb, leb, ◌==◌, if◌then◌else◌, u8, u16,
}
use zmap_embedded_ip.Fieldset.{Str}

abbrev pub max_name_length : ℕ
max_name_length = 512

abbrev pub max_label_recursion : ℕ
max_label_recursion = 10

-- The number of bytes in front of the next dot, or all of them: `j - i - 1`.
unfoldable pub until_dot : Str → ℕ
until_dot [] = 0
until_dot (c ∷ rest) = if c == b'.' then 0 else suc (until_dot rest)

-- The loop over the buffer, which holds a dot and the domain. A dot becomes the length of the label
-- behind it; the loop only looks at what it has not changed yet.
unfoldable pub to_labels : Str → List ℕ
unfolding until_dot
to_labels [] = []
to_labels (c ∷ rest) = (if c == b'.' then u8 (until_dot rest) else c) ∷ to_labels rest

-- The qname and its length.
unfoldable pub domain_to_qname : Str → List ℕ × ℕ
unfolding to_labels
domain_to_qname domain = (to_labels (b'.' ∷ domain) ++ 0 ∷ [], u16 (length domain + 1 + 1))

-- What `get_name_helper` comes to: it returns 0; an assertion fails or the fuel is used up; it
-- returns the number of bytes that it has consumed and has written a name.
pub data NameResult : Type 0 where
  error : NameResult
  aborted : NameResult
  found : ℕ → List ℕ → NameResult

-- Bytes that stand in front of what is written later.
unfoldable pub write : List ℕ → NameResult → NameResult
write piece error = error
write piece aborted = aborted
write piece (found consumed name) = found consumed (piece ++ name)

-- The return behind a pointer.
unfoldable pub at_pointer : ℕ → NameResult → NameResult
at_pointer consumed error = error
at_pointer consumed aborted = aborted
at_pointer consumed (found rec_consumed name) = found (consumed + 2) name

-- The dot in front of a label, and the room that is left; `none` if there is no room for it.
unfoldable pub dot_room : Bool → ℕ → Option (List ℕ × ℕ)
dot_room true name_len = if ltb name_len 1 then none else some (b'.' ∷ [], name_len - 1)
dot_room false name_len = some ([], name_len)

unfoldable pub read_bytes : (ℕ → ℕ) → ℕ → ℕ → List ℕ
read_bytes mem at zero = []
read_bytes mem at (suc n) = mem at ∷ read_bytes mem (at + 1) n

-- The branch of a pointer; `recurse` is the call at an offset with the room that is left.
unfoldable pub follow_pointer :
    (ℕ → ℕ → NameResult)
    → (ℕ → ℕ)
    → (payload_len level at data_len name_len consumed : ℕ) → NameResult
unfolding dot_room write at_pointer
follow_pointer recurse mem payload_len level at data_len name_len consumed =
    let offset = mem at % 4 * 256 + mem (at + 1) in
    if ltb data_len 2
    then error
    else if leb payload_len offset
    then error
    else elim (dot_room (ltb 0 level || ltb 0 consumed) name_len) [
      | none ↦ error
      | some (dot, room) ↦ write dot (at_pointer consumed (recurse offset room))
    ]

-- The checks in front of a label of `byte` bytes: the dot, and the room for the label and what
-- follows it; `none` if the data or the room do not suffice.
unfoldable pub label_room : (byte data_len name_len consumed : ℕ) → Option (List ℕ × ℕ)
unfolding dot_room
label_room byte data_len name_len consumed =
    if ltb (data_len - 1) (byte + 1) then none else elim (dot_room (ltb 0 consumed) name_len) [
      | none ↦ none
      | some (dot, room) ↦ if ltb room byte then none else some (dot, room)
    ]

-- The loop over the labels. A round consumes a byte at least.
unfoldable pub labels_loop :
    ℕ
    → (ℕ → ℕ → NameResult)
    → (ℕ → ℕ)
    → (payload_len level at data_len name_len consumed : ℕ) → NameResult
unfolding follow_pointer label_room write read_bytes
labels_loop zero recurse mem payload_len level at data_len name_len consumed = aborted
labels_loop (suc fuel) recurse mem payload_len level at data_len name_len consumed =
    elim (data_len == 0) [
      | true ↦ aborted
      | false ↦ elim (leb 192 (mem at)) [
        | true ↦ follow_pointer recurse mem payload_len level at data_len name_len consumed
        | false ↦ elim (mem at == 0) [
          | true ↦ found (consumed + 1) []
          | false ↦ elim (label_room (mem at) data_len name_len consumed) [
            | none ↦ error
            | some (dot, room) ↦ write (dot ++ read_bytes mem (at + 1) (mem at)) (
                labels_loop fuel recurse mem payload_len level (at + 1 + mem at)
                  (data_len - 1 - mem at) (room - mem at) (consumed + 1 + mem at))
          ]
        ]
      ]
    ]

-- `levels` counts down the levels of recursion that are allowed.
unfoldable pub get_name_helper :
    ℕ → (ℕ → ℕ) → (payload_len level at data_len name_len : ℕ) → NameResult
unfolding labels_loop
get_name_helper zero mem payload_len level at data_len name_len = error
get_name_helper (suc levels) mem payload_len level at data_len name_len =
    if data_len == 0 || name_len == 0 || payload_len == 0
    then error
    else labels_loop (data_len + 1)
        (λ offset room.
          get_name_helper levels mem payload_len (level + 1) offset (payload_len - offset) room)
        mem payload_len level at data_len name_len 0

unfoldable pub get_name : (ℕ → ℕ) → (at data_len payload_len : ℕ) → NameResult
unfolding get_name_helper
get_name mem at data_len payload_len =
    get_name_helper (max_label_recursion + 1) mem payload_len 0 at data_len (max_name_length - 1)
