-- ===== src/Fieldset.antt =====
-- src/fieldset.c, src/fieldset.h: the records that a probe module fills in and their translation
-- for the output module. A C string is the list of its bytes, the address of a block or of a child
-- is a number. `none` stands for `log_fatal` and for a read outside of an array or of a NULL name.
-- A fieldset's `fields` are the first `len` entries of its array.
pub mod Translate
pub mod Words
pub mod Unsafe
pub mod Sanitize
use Prim.Native.String.{String}
use Prim.Native.Char.{code}
use zmap_embedded_ip.Base.{
  ℕ, zero, suc, ◌+◌, Bool, true, false, ◌&&◌, ◌||◌, not, Option, none, some, List, [], ◌∷◌, ◌++◌,
  length, get_elem?, ltb, leb, ◌==◌, if◌then◌else◌,
}

-- A C string: its bytes without the final 0.
abbrev pub Str : Type 0
Str = List ℕ

-- The bytes of a string constant.
abbrev pub ascii : String → Str
ascii String.[] = []
ascii (String.◌∷◌ c s) = code c ∷ ascii s

-- `strcmp(a, b) == 0`.
unfoldable pub str_eq : Str → Str → Bool
str_eq [] [] = true
str_eq [] (y ∷ ys) = false
str_eq (x ∷ xs) [] = false
str_eq (x ∷ xs) (y ∷ ys) = (x == y) && str_eq xs ys

abbrev pub max_fields : ℕ
max_fields = 128

-- The `FS_` constants of a field's type.
abbrev pub fs_string : ℕ
fs_string = 1

abbrev pub fs_uint64 : ℕ
fs_uint64 = 2

abbrev pub fs_binary : ℕ
fs_binary = 3

abbrev pub fs_null : ℕ
fs_null = 4

abbrev pub fs_fieldset : ℕ
fs_fieldset = 5

abbrev pub fs_repeated : ℕ
fs_repeated = 6

abbrev pub fs_bool : ℕ
fs_bool = 7

pub record FieldDef : Type 0 where
  pub name : Str
  pub type_name : Str
  pub desc : Str

-- `field_val_t`: the union of a pointer (NULL, to a string, to another block) and a number.
pub data FieldVal : Type 0 where
  null : FieldVal
  chars : Str → FieldVal
  block : ℕ → FieldVal
  num : ℕ → FieldVal

pub record Field : Type 0 where
  pub name : Str
  pub type : ℕ
  pub free_ : Bool
  pub len : ℕ
  pub value : FieldVal

pub record Fieldset : Type 0 where
  pub fields : List Field
  pub fds : Option (List FieldDef)
  pub inner_type : ℕ
  pub type : ℕ
  pub free_ : Bool

unfoldable pub gen_fielddef_set : List FieldDef → List FieldDef → Option (List FieldDef)
gen_fielddef_set fds fs = if ltb max_fields (length fds + length fs) then none else some (fds ++ fs)

unfoldable pub fs_new_fieldset : Option (List FieldDef) → Fieldset
fs_new_fieldset fds = record {
  fields = [];
  fds = fds;
  inner_type = 0;
  type = fs_fieldset;
  free_ = false;
}

unfoldable pub fs_new_repeated_field : ℕ → Bool → Fieldset
fs_new_repeated_field type free_ = record {
  fields = [];
  fds = none;
  inner_type = type;
  type = fs_repeated;
  free_ = free_;
}

-- Whether `name` is the one that the definitions expect at `i`.
unfoldable pub name_expected : Option (List FieldDef) → ℕ → Str → Bool
unfolding str_eq
name_expected none i name = true
name_expected (some defs) i name = elim (get_elem? defs i) [
  | none ↦ false
  | some d ↦ str_eq d.name name
]

unfoldable pub fs_add_word : Fieldset → Str → ℕ → Bool → ℕ → FieldVal → Option Fieldset
unfolding name_expected
fs_add_word fs name type free_ len value =
    if leb max_fields (length fs.fields + 1)
    then none
    else if (fs.type == fs_repeated) && not (fs.inner_type == type)
    then none
    else if not (name_expected fs.fds (length fs.fields) name)
    then none
    else some (record fs {
      fields =
          fs.fields
          ++ record { name = name; type = type; free_ = free_; len = len; value = value } ∷ [];
    })

-- The loop of `fs_modify_word`, over the fields.
unfoldable pub modify_loop : List Field → Str → ℕ → Bool → ℕ → FieldVal → Option (List Field)
unfolding str_eq
modify_loop [] name type free_ len value = none
modify_loop (f ∷ fields) name type free_ len value =
    let rest = modify_loop fields name type free_ len value in
    if str_eq f.name name
    then some (record f { type = type; free_ = free_; len = len; value = value } ∷ fields)
    else elim rest [ none ↦ none | some fields' ↦ some (f ∷ fields') ]

unfoldable pub fs_modify_word : Fieldset → Str → ℕ → Bool → ℕ → FieldVal → Option Fieldset
unfolding modify_loop
fs_modify_word fs name type free_ len value =
    elim (modify_loop fs.fields name type free_ len value) [
      | none ↦ none
      | some fields ↦ some (record fs { fields = fields })
    ]

-- The number of a field. `none`: the union holds a pointer, whose bits are not modelled.
unfoldable pub fs_get_uint64_by_index : List Field → ℕ → Option ℕ
fs_get_uint64_by_index fields index = elim (get_elem? fields index) [
  | none ↦ none
  | some f ↦ elim f.value [ null ↦ some 0 | chars s ↦ none | block a ↦ none | num n ↦ some n ]
]

-- The string of a field. `none`: the pointer is NULL or not one to a string.
unfoldable pub fs_get_string_by_index : List Field → ℕ → Option Str
fs_get_string_by_index fields index = elim (get_elem? fields index) [
  | none ↦ none
  | some f ↦ elim f.value [ null ↦ none | chars s ↦ some s | block a ↦ none | num n ↦ none ]
]

-- `fds_get_index_by_name`; `none` is -1.
unfoldable pub fds_get_index_by_name : List FieldDef → Str → Option ℕ
unfolding str_eq
fds_get_index_by_name [] name = none
fds_get_index_by_name (d ∷ fds) name =
    let rest = fds_get_index_by_name fds name in
    if str_eq d.name name then some 0 else elim rest [ none ↦ none | some i ↦ some (suc i) ]

-- `fs_generate_fieldset_translation`.
unfoldable pub generate_translation : List FieldDef → List Str → Option (List ℕ)
unfolding fds_get_index_by_name
generate_translation avail [] = some []
generate_translation avail (name ∷ req) =
    let rest = generate_translation avail req in
    elim (fds_get_index_by_name avail name) [
      | none ↦ none
      | some l ↦ elim rest [ none ↦ none | some t ↦ some (l ∷ t) ]
    ]

-- `fs_generate_full_fieldset_translation`.
unfoldable pub full_translation_from : ℕ → List FieldDef → List ℕ
full_translation_from i [] = []
full_translation_from i (d ∷ avail) = i ∷ full_translation_from (suc i) avail

-- The loop of `translate_fieldset`.
unfoldable pub translate_fields : List Field → List ℕ → Option (List Field)
translate_fields fields [] = some []
translate_fields fields (o ∷ t) =
    let rest = translate_fields fields t in
    elim (get_elem? fields o) [
      | none ↦ none
      | some f ↦ elim rest [ none ↦ none | some fs ↦ some (f ∷ fs) ]
    ]

unfoldable pub translate_fieldset : Fieldset → List ℕ → Option Fieldset
unfolding translate_fields fs_new_fieldset
translate_fieldset fs t = elim (translate_fields fs.fields t) [
  | none ↦ none
  | some fields ↦ some (record (fs_new_fieldset none) { fields = fields })
]
