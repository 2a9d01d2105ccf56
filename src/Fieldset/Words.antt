-- ===== src/Fieldset/Words.antt =====
-- src/fieldset.c: the functions that add or modify a field of one type, and make repeated fields.
use zmap_embedded_ip.Base.{ℕ, Bool, true, false, Option, none, some, length}
use zmap_embedded_ip.Fieldset.{
  Str, Fieldset, null, chars, block, num, fs_string, fs_uint64, fs_binary, fs_null, fs_fieldset,
  fs_repeated, fs_bool, fs_add_word, fs_modify_word, fs_new_repeated_field,
}

unfoldable pub fs_add_null : Fieldset → Str → Option Fieldset
unfolding fs_add_word
fs_add_null fs name = fs_add_word fs name fs_null false 0 null

unfoldable pub fs_add_string : Fieldset → Str → Str → Bool → Option Fieldset
unfolding fs_add_word
fs_add_string fs name value free_ = fs_add_word fs name fs_string free_ (length value) (chars value)

unfoldable pub fs_chkadd_string : Fieldset → Str → Option Str → Bool → Option Fieldset
unfolding fs_add_string fs_add_null
fs_chkadd_string fs name none free_ = fs_add_null fs name
fs_chkadd_string fs name (some value) free_ = fs_add_string fs name value free_

unfoldable pub fs_add_constchar : Fieldset → Str → Str → Option Fieldset
unfolding fs_add_word
fs_add_constchar fs name value = fs_add_word fs name fs_string false (length value) (chars value)

unfoldable pub fs_add_uint64 : Fieldset → Str → ℕ → Option Fieldset
unfolding fs_add_word
fs_add_uint64 fs name value = fs_add_word fs name fs_uint64 false 8 (num value)

unfoldable pub fs_add_bool : Fieldset → Str → ℕ → Option Fieldset
unfolding fs_add_word
fs_add_bool fs name value = fs_add_word fs name fs_bool false 4 (num value)

unfoldable pub fs_add_binary : Fieldset → Str → ℕ → ℕ → Bool → Option Fieldset
unfolding fs_add_word
fs_add_binary fs name len address free_ = fs_add_word fs name fs_binary free_ len (block address)

unfoldable pub fs_add_fieldset : Fieldset → Str → ℕ → Option Fieldset
unfolding fs_add_word
fs_add_fieldset fs name child = fs_add_word fs name fs_fieldset true 8 (block child)

unfoldable pub fs_add_repeated : Fieldset → Str → ℕ → Option Fieldset
unfolding fs_add_word
fs_add_repeated fs name child = fs_add_word fs name fs_repeated true 8 (block child)

unfoldable pub fs_modify_uint64 : Fieldset → Str → ℕ → Option Fieldset
unfolding fs_modify_word
fs_modify_uint64 fs name value = fs_modify_word fs name fs_uint64 false 8 (num value)

unfoldable pub fs_modify_string : Fieldset → Str → Str → Bool → Option Fieldset
unfolding fs_modify_word
fs_modify_string fs name value free_ =
    fs_modify_word fs name fs_string free_ (length value) (chars value)

unfoldable pub fs_new_repeated_uint64 : Fieldset
unfolding fs_new_repeated_field
fs_new_repeated_uint64 = fs_new_repeated_field fs_uint64 false

unfoldable pub fs_new_repeated_bool : Fieldset
unfolding fs_new_repeated_field
fs_new_repeated_bool = fs_new_repeated_field fs_bool false

unfoldable pub fs_new_repeated_string : Bool → Fieldset
unfolding fs_new_repeated_field
fs_new_repeated_string free_ = fs_new_repeated_field fs_string free_

unfoldable pub fs_new_repeated_binary : Bool → Fieldset
unfolding fs_new_repeated_field
fs_new_repeated_binary free_ = fs_new_repeated_field fs_binary free_

unfoldable pub fs_new_repeated_fieldset : Fieldset
unfolding fs_new_repeated_field
fs_new_repeated_fieldset = fs_new_repeated_field fs_fieldset false

unfoldable pub fs_modify_null : Fieldset → Str → Option Fieldset
unfolding fs_modify_word
fs_modify_null fs name = fs_modify_word fs name fs_null false 0 null

unfoldable pub fs_modify_constchar : Fieldset → Str → Str → Option Fieldset
unfolding fs_modify_word
fs_modify_constchar fs name value =
    fs_modify_word fs name fs_string false (length value) (chars value)

unfoldable pub fs_modify_bool : Fieldset → Str → ℕ → Option Fieldset
unfolding fs_modify_word
fs_modify_bool fs name value = fs_modify_word fs name fs_bool false 4 (num value)

unfoldable pub fs_modify_binary : Fieldset → Str → ℕ → ℕ → Bool → Option Fieldset
unfolding fs_modify_word
fs_modify_binary fs name len address free_ =
    fs_modify_word fs name fs_binary free_ len (block address)
