-- ===== src/Dns/Types.antt =====
-- src/probe_modules/module_dns.c, src/probe_modules/module_dns.h: the types of records and their names.
use zmap_embedded_ip.Base.{
  ℕ, ◌+◌, ◌≡◌, refl, Option, none, some, List, [], ◌∷◌, ltb, ◌==◌, if◌then◌else◌, get_or, set,
  replicate, inl, inr, Bool-cases, ltb→le, every_under, every_under_at, true, arith,
}
use zmap_embedded_ip.Fieldset.{Str, ascii, str_eq}
use zmap_embedded_ip.Fieldset.Translate.{str_eq_sound}

abbrev pub dns_qtype_a : ℕ
dns_qtype_a = 1

abbrev pub dns_qtype_ns : ℕ
dns_qtype_ns = 2

abbrev pub dns_qtype_cname : ℕ
dns_qtype_cname = 5

abbrev pub dns_qtype_mx : ℕ
dns_qtype_mx = 15

abbrev pub dns_qtype_txt : ℕ
dns_qtype_txt = 16

abbrev pub dns_qtype_aaaa : ℕ
dns_qtype_aaaa = 28

abbrev pub max_qtype : ℕ
max_qtype = 255

abbrev pub qtype_strs : List Str
qtype_strs =
    ascii "A"
    ∷ ascii "NS"
    ∷ ascii "CNAME"
    ∷ ascii "SOA"
    ∷ ascii "PTR"
    ∷ ascii "MX"
    ∷ ascii "TXT"
    ∷ ascii "AAAA"
    ∷ ascii "RRSIG"
    ∷ ascii "ALL"
    ∷ []

abbrev pub qtype_strid_to_qtype : List ℕ
qtype_strid_to_qtype = 1 ∷ 2 ∷ 5 ∷ 6 ∷ 12 ∷ 15 ∷ 16 ∷ 28 ∷ 46 ∷ 255 ∷ []

-- `qtype_qtype_to_strid` before the set-up: the initializer gives the first element, BAD_QTYPE_VAL,
-- here `none`, and the others are 0.
unfoldable pub strid_initial : List (Option ℕ)
strid_initial = none ∷ replicate 255 (some 0)

-- The assignments of `setup_qtype_str_map`, from the index `i` of a name on.
unfoldable pub set_strids : List ℕ → ℕ → List (Option ℕ) → List (Option ℕ)
set_strids [] i table = table
set_strids (qtype ∷ qtypes) i table = set_strids qtypes (i + 1) (set table qtype (some i))

unfoldable pub setup_qtype_str_map : List (Option ℕ)
unfolding strid_initial set_strids
setup_qtype_str_map = set_strids qtype_strid_to_qtype 0 strid_initial

-- The name of a type in a record.
unfoldable pub qtype_str : ℕ → Str
unfolding setup_qtype_str_map
qtype_str qtype =
    if ltb max_qtype qtype
    then ascii "BAD QTYPE"
    else elim (get_or setup_qtype_str_map qtype none) [
      | none ↦ ascii "BAD QTYPE"
      | some i ↦ get_or qtype_strs i []
    ]

-- The loop of `qtype_str_to_code`, over the names and their types.
unfoldable pub str_to_code : List Str → List ℕ → Str → ℕ
unfolding str_eq
str_to_code [] codes str = 0
str_to_code (s ∷ strs) [] str = 0
str_to_code (s ∷ strs) (qtype ∷ codes) str =
    if str_eq s str then qtype else str_to_code strs codes str

unfoldable pub qtype_str_to_code : Str → ℕ
unfolding str_to_code
qtype_str_to_code str = str_to_code qtype_strs qtype_strid_to_qtype str

-- The ten types with the names and the numbers that RFC 1035, RFC 3596 and RFC 4034 give them, where
-- ALL is the query for all records. Of the others below 256, type 0 alone is a bad one.
abbrev pub name_or_a : ℕ → Str
name_or_a qtype =
    if qtype == 0
    then ascii "BAD QTYPE"
    else if qtype == 2
    then ascii "NS"
    else if qtype == 5
    then ascii "CNAME"
    else if qtype == 6
    then ascii "SOA"
    else if qtype == 12
    then ascii "PTR"
    else if qtype == 15
    then ascii "MX"
    else if qtype == 16
    then ascii "TXT"
    else if qtype == 28
    then ascii "AAAA"
    else if qtype == 46
    then ascii "RRSIG"
    else if qtype == 255
    then ascii "ALL"
    else ascii "A"

name_table : every_under (λ qtype. str_eq (qtype_str qtype) (name_or_a qtype)) 256 ≡ true
unfolding every_under qtype_str str_eq
name_table = refl

qtype_str-above : (qtype : ℕ) → ltb 255 qtype ≡ true → qtype_str qtype ≡ ascii "BAD QTYPE"
unfolding qtype_str
qtype_str-above qtype above = rw above refl

-- A type up to 255 is printed by its standard name if it is one of the ten that the module knows; of
-- the others only 0 is printed as a bad type, and each type from 1 to 255 as "A". A type above 255 is
-- a bad one.
pub qtype_str-listed :
    (qtype : ℕ) → qtype_str qtype ≡ (if ltb 255 qtype then ascii "BAD QTYPE" else name_or_a qtype)
qtype_str-listed qtype = elim (Bool-cases (ltb 255 qtype)) [
  | inl e ↦ rw e (qtype_str-above qtype e)
  | inr e ↦ rw e (
      str_eq_sound (qtype_str qtype) (name_or_a qtype) (
        every_under_at (λ t. str_eq (qtype_str t) (name_or_a t)) 256 name_table qtype
          (omega (arith, ltb→le _ _ e))))
]
