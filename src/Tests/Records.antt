-- ===== src/Tests/Records.antt =====
-- src/fieldset.c and src/iterator.c at concrete inputs.
use zmap_embedded_ip.Base.{ℕ, ◌≡◌, refl, some, false, List, [], ◌∷◌}
use zmap_embedded_ip.Fieldset.{
  Str, str_eq, FieldDef, FieldVal, Field, Fieldset, fs_add_word, name_expected,
  generate_translation, translate_fieldset, fds_get_index_by_name,
}
use zmap_embedded_ip.Fieldset.Translate.{Aligned, field_names, translate_fieldset-names}

abbrev def : Str → FieldDef
def name = record { name = name; type_name = []; desc = [] }

-- The definitions of "a" and "b".
abbrev defs : List FieldDef
defs = def (97 ∷ []) ∷ def (98 ∷ []) ∷ []

abbrev word : Str → ℕ → Field
word name n = record { name = name; type = 2; free_ = false; len = 8; value = FieldVal.num n }

abbrev empty : Fieldset
empty = record { fields = []; fds = some defs; inner_type = 0; type = 5; free_ = false }

abbrev one : Fieldset
one = record empty { fields = word (97 ∷ []) 7 ∷ [] }

abbrev two : Fieldset
two = record empty { fields = word (97 ∷ []) 7 ∷ word (98 ∷ []) 9 ∷ [] }

one-Aligned : Aligned one defs
one-Aligned = record { made_for = refl; rest = (98 ∷ []) ∷ []; in_order = refl }

added : fs_add_word one (98 ∷ []) 2 false 8 (FieldVal.num 9) ≡ some two
unfolding fs_add_word name_expected str_eq
added = refl

swapped : generate_translation defs ((98 ∷ []) ∷ (97 ∷ []) ∷ []) ≡ some (1 ∷ 0 ∷ [])
unfolding generate_translation fds_get_index_by_name str_eq
swapped = refl

translate_fieldset-names_example :
    (out : Fieldset) × ((translate_fieldset two (1 ∷ 0 ∷ []) ≡ some out)
      × (field_names out.fields ≡ (98 ∷ []) ∷ (97 ∷ []) ∷ []))
translate_fieldset-names_example =
    translate_fieldset-names two defs ((98 ∷ []) ∷ (97 ∷ []) ∷ []) (1 ∷ 0 ∷ []) swapped refl
