-- ===== src/Fieldset/Unsafe.antt =====
-- src/fieldset.c: strings from a packet, whose bytes need not be UTF-8. `u8_check` of libunistring and
-- `memcpy` are parameters. `none` stands for a failed assertion or an undefined copy.
use zmap_embedded_ip.Base.{
  ℕ, zero, suc, ◌+◌, ◌*◌, Bool, true, false, Option, none, some, [], ◌∷◌, ◌++◌, length, take, ltb,
  ◌==◌, if◌then◌else◌, ◌>>=◌,
}
use zmap_embedded_ip.Fieldset.{Str, Fieldset, fs_string, chars, fs_add_word}
use zmap_embedded_ip.Fieldset.Words.{fs_add_null}

unfoldable pub drop : ℕ → Str → Str
drop zero s = s
drop (suc n) [] = []
drop (suc n) (c ∷ s) = drop n s

-- The UTF-8 replacement rune.
abbrev pub rune : Str
rune = 0xef ∷ 0xbf ∷ 0xbd ∷ []

-- The libraries for strings: `u8_check` gives the index of the first invalid byte, `none` for NULL;
-- `memcpy` gives for a distance and some bytes what stands at the place that is so much higher after
-- they have been copied there, `none` if the copy is undefined.
pub record Strings : Type 0 where
  pub u8_check : Str → Option ℕ
  pub memcpy : ℕ → Str → Option Str

-- "Shift the rest of the string by 2 bytes": the regions overlap if there are more bytes than that.
unfoldable pub shift_rest : Strings → Str → Option Str
shift_rest strings [] = some []
shift_rest strings (c ∷ s) = strings.memcpy 2 (c ∷ s)

-- The field with a sanitized string.
unfoldable pub add_safe : Fieldset → Str → Option Str → Option Fieldset
unfolding fs_add_word
add_safe fs name none = none
add_safe fs name (some safe_value) =
    fs_add_word fs name fs_string true (length safe_value) (chars safe_value)

module _ (strings : Strings) where
  -- The first loop of `sanitize_utf8`: the number of errors in what is left, at most `rounds`.
  unfoldable pub count_errors : ℕ → Str → Option ℕ
  unfolding drop
  count_errors zero ptr = some 0
  count_errors (suc rounds) ptr = if length ptr == 0 then some 0 else elim (strings.u8_check ptr) [
    | none ↦ some 0
    | some p ↦ elim (ltb p (length ptr)) [
      | false ↦ none
      | true ↦ elim (count_errors rounds (drop (p + 1) ptr)) [ none ↦ none | some n ↦ some (suc n) ]
    ]
  ]

  -- The second loop: the working buffer, and the number of errors that were fixed. The bytes behind
  -- an error move up by two.
  unfoldable pub fix_errors : ℕ → Str → Option (Str × ℕ)
  unfolding drop shift_rest
  fix_errors zero safe_buf = some (safe_buf, 0)
  fix_errors (suc errors) safe_buf = elim (strings.u8_check safe_buf) [
    | none ↦ some (safe_buf, 0)
    | some p ↦ elim (ltb p (length safe_buf)) [
      | false ↦ none
      | true ↦ do
        rest ← shift_rest strings (drop (p + 1) safe_buf)
        (fixed, n) ← fix_errors errors (take p safe_buf ++ rune ++ rest)
        some (fixed, suc n)
    ]
  ]

  -- The assertions at the end of `sanitize_utf8`.
  unfoldable pub is_sanitized : Str → Str → ℕ → Bool
  is_sanitized buf safe_buf i = elim (strings.u8_check safe_buf) [
    | none ↦ length safe_buf == length buf + i * 2
    | some p ↦ false
  ]

  unfoldable pub sanitize_utf8 : Str → Option Str
  unfolding count_errors fix_errors is_sanitized
  sanitize_utf8 buf = do
    errors ← count_errors (length buf) buf
    (safe_buf, i) ← fix_errors errors buf
    if is_sanitized buf safe_buf i then some safe_buf else none

  unfoldable pub fs_add_unsafe_string : Fieldset → Str → Str → Bool → Option Fieldset
  unfolding sanitize_utf8 add_safe
  fs_add_unsafe_string fs name value free_ = elim (strings.u8_check value) [
    | none ↦ fs_add_word fs name fs_string free_ (length value) (chars value)
    | some p ↦ add_safe fs name (sanitize_utf8 value)
  ]

  unfoldable pub fs_chkadd_unsafe_string : Fieldset → Str → Option Str → Bool → Option Fieldset
  unfolding fs_add_unsafe_string fs_add_null
  fs_chkadd_unsafe_string fs name none free_ = fs_add_null fs name
  fs_chkadd_unsafe_string fs name (some value) free_ = fs_add_unsafe_string fs name value free_
