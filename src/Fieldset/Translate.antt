-- ===== src/Fieldset/Translate.antt =====
-- src/fieldset.c: the fields of a fieldset stand in the order of its definitions, so that a
-- translation made from the definitions gives the output module the fields that it asked for.
use zmap_embedded_ip.Base.{
  ℕ, zero, suc, ◌≡◌, refl, sym, ap, ◌∙◌, Bool, true, none, some, List, [], ◌∷◌, ◌++◌, length,
  get_elem?, inl, inr, Bool-cases, Bool-clash, Option-cases, arith,
}
use mathlib.Core.Option.{some-injective}
use zmap_embedded_ip.Fieldset.{
  fs_new_fieldset, Str, str_eq, FieldDef, FieldVal, Field, Fieldset, name_expected, fs_add_word,
  fds_get_index_by_name, generate_translation, translate_fields, translate_fieldset,
}

pub str_eq_sound : (a b : Str) → str_eq a b ≡ true → a ≡ b
unfolding str_eq
str_eq_sound [] [] h = refl
str_eq_sound [] (y ∷ ys) h = cc
str_eq_sound (x ∷ xs) [] h = cc
str_eq_sound (x ∷ xs) (y ∷ ys) h = ground (arith, str_eq_sound xs ys)

abbrev pub field_names : List Field → List Str
field_names [] = []
field_names (f ∷ fields) = f.name ∷ field_names fields

abbrev pub def_names : List FieldDef → List Str
def_names [] = []
def_names (d ∷ defs) = d.name ∷ def_names defs

-- What the translation of an index reads is the field with the name.
get_index-name :
    (defs : List FieldDef) (name : Str) (i : ℕ)
    → fds_get_index_by_name defs name ≡ some i
    → get_elem? (def_names defs) i ≡ some name
unfolding fds_get_index_by_name
get_index-name [] name i h = cc
get_index-name (d ∷ defs) name i h = elim (Bool-cases (str_eq d.name name)) [
  | inl e ↦
      let first : 0 ≡ i = ground arith in rw (sym first) (ap some (str_eq_sound d.name name e))
  | inr e ↦ elim (Option-cases (fds_get_index_by_name defs name)) [
    | inl n ↦ ground arith
    | inr (j, p) ↦
        let later : suc j ≡ i = ground arith in rw (sym later) (get_index-name defs name j p)
  ]
]

get_elem?-names :
    (fields : List Field) (i : ℕ) (name : Str)
    → get_elem? (field_names fields) i ≡ some name
    → (f : Field) × ((get_elem? fields i ≡ some f) × (f.name ≡ name))
get_elem?-names [] i name h = cc
get_elem?-names (f ∷ fields) zero name h = (f, (refl, some-injective _ _ h))
get_elem?-names (f ∷ fields) (suc i) name h = get_elem?-names fields i name h

translate_fields-step :
    (fields : List Field) (l : ℕ) (t : List ℕ) (f : Field) (out : List Field)
    → get_elem? fields l ≡ some f
    → translate_fields fields t ≡ some out
    → translate_fields fields (l ∷ t) ≡ some (f ∷ out)
unfolding translate_fields
translate_fields-step fields l t f out read rest = cc

translate_fields-names :
    (fields : List Field) (avail : List FieldDef) (req : List Str) (t : List ℕ)
    → generate_translation avail req ≡ some t
    → field_names fields ≡ def_names avail
    → (out : List Field) × ((translate_fields fields t ≡ some out) × (field_names out ≡ req))
unfolding generate_translation translate_fields
translate_fields-names fields avail [] t h same =
    ([], (rw (sym (some-injective [] t h)) refl, refl))
translate_fields-names fields avail (name ∷ req) t h same =
    elim (Option-cases (fds_get_index_by_name avail name)) [
      | inl n ↦ ground arith
      | inr (l, p) ↦ elim (Option-cases (generate_translation avail req)) [
        | inl n ↦ ground arith
        | inr (t', q) ↦
            let (f, (read, named)) =
              get_elem?-names fields l name (rw same (get_index-name avail name l p)) in
            let (out, (rest, names)) = translate_fields-names fields avail req t' q same in
            let made : some (l ∷ t') ≡ some t = ground arith in
            (
              f ∷ out,
              (
                rw (sym (some-injective (l ∷ t') t made))
                    (translate_fields-step fields l t' f out read rest),
                ap (λ x. x ∷ field_names out) named ∙ ap (λ x. name ∷ x) names,
              ),
            )
      ]
    ]

-- When a translation could be made for the requested names and a fieldset has all the fields of
-- its definitions in their order, then `translate_fieldset` succeeds, and the fields of the result
-- have the requested names in the requested order.
pub translate_fieldset-names :
    (fs : Fieldset) (avail : List FieldDef) (req : List Str) (t : List ℕ)
    → generate_translation avail req ≡ some t
    → field_names fs.fields ≡ def_names avail
    → (out : Fieldset) × ((translate_fieldset fs t ≡ some out) × (field_names out.fields ≡ req))
unfolding translate_fieldset fs_new_fieldset
translate_fieldset-names fs avail req t h same =
    let (out, (done, names)) = translate_fields-names fs.fields avail req t h same in
    (record (fs_new_fieldset none) { fields = out }, (rw (done, translate_fieldset) refl, names))

-- A fieldset that was made for definitions: its fields have their first names.
pub record Aligned (fs : Fieldset) (defs : List FieldDef) : Type 0 where
  pub made_for : fs.fds ≡ some defs
  pub rest : List Str
  pub in_order : field_names fs.fields ++ rest ≡ def_names defs

field_names-append :
    (fields : List Field) (f : Field) (rest : List Str)
    → field_names (fields ++ f ∷ []) ++ rest ≡ field_names fields ++ f.name ∷ rest
field_names-append [] f rest = refl
field_names-append (x ∷ fields) f rest = ap (λ y. x.name ∷ y) (field_names-append fields f rest)

-- The name expected after the fields that are there is the next one.
next_name :
    (fields : List Field) (defs : List FieldDef) (rest : List Str) (d : FieldDef)
    → field_names fields ++ rest ≡ def_names defs
    → get_elem? defs (length fields) ≡ some d
    → (after : List Str) × (rest ≡ d.name ∷ after)
next_name [] [] rest d same h = cc
next_name [] (x ∷ defs) rest d same h =
    (def_names defs, same ∙ ap (λ (y : FieldDef). y.name ∷ def_names defs) (some-injective x d h))
next_name (f ∷ fields) [] rest d same h = cc
next_name (f ∷ fields) (x ∷ defs) rest d same h = next_name fields defs rest d (cc) h

expected-name :
    (defs : List FieldDef) (i : ℕ) (name : Str)
    → name_expected (some defs) i name ≡ true
    → (d : FieldDef) × ((get_elem? defs i ≡ some d) × (d.name ≡ name))
unfolding name_expected
expected-name defs i name h = elim (Option-cases (get_elem? defs i)) [
  | inl n ↦ Bool-clash h (rw (n, name_expected) refl)
  | inr (d, p) ↦ (d, (p, str_eq_sound d.name name (cc)))
]

-- A word that is added to an aligned fieldset without an error leaves it aligned.
pub fs_add_word-Aligned :
    (fs fs' : Fieldset) (defs : List FieldDef) (name : Str) (type : ℕ) (free_ : Bool) (len : ℕ)
    (value : FieldVal)
    → Aligned fs defs
    → fs_add_word fs name type free_ len value ≡ some fs'
    → Aligned fs' defs
unfolding fs_add_word name_expected
fs_add_word-Aligned fs fs' defs name type free_ len value aligned h =
    let f : Field = record { name = name; type = type; free_ = free_; len = len; value = value } in
    let made : fs' ≡ record fs { fields = fs.fields ++ f ∷ [] } = ground arith in
    let expected : name_expected fs.fds (length fs.fields) name ≡ true = ground arith in
    let known : name_expected (some defs) (length fs.fields) name ≡ true =
      rw (sym aligned.made_for) expected in
    let d : (d : FieldDef) × ((get_elem? defs (length fs.fields) ≡ some d) × (d.name ≡ name)) =
      expected-name defs (length fs.fields) name known in
    let next : (after : List Str) × (aligned.rest ≡ d.0.name ∷ after) =
      next_name fs.fields defs aligned.rest d.0 aligned.in_order d.1.0 in
    rw made (record {
      made_for = aligned.made_for;
      rest = next.0;
      in_order =
          field_names-append fs.fields f next.0
          ∙ ap (λ x. field_names fs.fields ++ x ∷ next.0) (sym d.1.1)
          ∙ ap (λ x. field_names fs.fields ++ x) (sym next.1)
          ∙ aligned.in_order;
    })
