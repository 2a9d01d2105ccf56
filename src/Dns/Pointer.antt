-- ===== src/Dns/Pointer.antt =====
-- src/probe_modules/module_dns.c: where a pointer in a name leads.
use zmap_embedded_ip.Base.{
  ℕ, suc, ◌+◌, ◌-◌, ◌*◌, ◌/◌, ◌%◌, ◌≤◌, ◌<◌, ◌≡◌, refl, ap, false, true, [], ltb, leb, ◌==◌, ◌∙◌,
  arith,
}
use zmap_embedded_ip.Dns.{
  NameResult, error, aborted, found, write, at_pointer, dot_room, follow_pointer, labels_loop,
  get_name_helper,
}

follow_first :
    (recurse : ℕ → ℕ → NameResult) (mem : ℕ → ℕ) (payload_len at data_len name_len target : ℕ)
    → mem at % 4 * 256 + mem (at + 1) ≡ target
    → 2 ≤ data_len
    → target < payload_len
    → follow_pointer recurse mem payload_len 0 at data_len name_len 0
      ≡ write [] (at_pointer 0 (recurse target name_len))
unfolding follow_pointer dot_room
follow_first recurse mem payload_len at data_len name_len target leads room inside =
    let two : ltb data_len 2 ≡ false = ground arith in
    let within : leb payload_len target ≡ false = ground arith in
    rw (follow_pointer, leads, two, within) refl

-- What a pointer makes of the name that is read where it leads.
abbrev pub after_pointer : NameResult → NameResult
after_pointer error = error
after_pointer aborted = aborted
after_pointer (found consumed name) = found 2 name

two_bytes : (there : NameResult) → write [] (at_pointer 0 there) ≡ after_pointer there
unfolding write at_pointer
two_bytes error = refl
two_bytes aborted = refl
two_bytes (found consumed name) = refl

-- A name that starts with a pointer to any offset of 14 bits is the name at the offset without its
-- four highest bits, since the mask keeps two of the six bits of the first byte. If that offset lies
-- within the message and a name is read there at the next level of recursion, the call returns
-- this name and two consumed bytes, however many the other name has; if none is read, it fails.
pub get_name-pointer :
    (levels : ℕ) (mem : ℕ → ℕ) (at data_len payload_len name_len target : ℕ) (there : NameResult)
    → mem at ≡ 192 + target / 256
    → mem (at + 1) ≡ target % 256
    → target < 16384
    → 2 ≤ data_len
    → 0 < name_len
    → target % 1024 < payload_len
    → get_name_helper levels mem payload_len 1
        (target % 1024)
        (payload_len - target % 1024)
        name_len
      ≡ there
    → get_name_helper (suc levels) mem payload_len 0 at data_len name_len ≡ after_pointer there
unfolding get_name_helper labels_loop
get_name-pointer levels mem at data_len payload_len name_len target there high low small room space
      inside reads =
    let recurse = λ (offset room : ℕ).
      get_name_helper levels mem payload_len (0 + 1) offset (payload_len - offset) room in
    let data_some : (data_len == 0) ≡ false = ground arith in
    let name_some : (name_len == 0) ≡ false = ground arith in
    let payload_some : (payload_len == 0) ≡ false = ground arith in
    let next : data_len + 1 ≡ suc data_len = omega arith in
    let is_pointer : leb 192 (mem at) ≡ true = ground (arith, high) in
    let leads : mem at % 4 * 256 + mem (at + 1) ≡ target % 1024 = omega arith in
    let round : labels_loop (suc data_len) recurse mem payload_len 0 at data_len name_len 0
        ≡ follow_pointer recurse mem payload_len 0 at data_len name_len 0 =
      rw (labels_loop, data_some, is_pointer) refl in
    rw (get_name_helper, data_some, name_some, payload_some, next)
      (round
        ∙ follow_first recurse mem payload_len at data_len name_len (target % 1024) leads room
            inside
        ∙ ap (λ r. write [] (at_pointer 0 r)) reads
        ∙ two_bytes there)
