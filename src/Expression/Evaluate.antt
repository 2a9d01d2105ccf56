-- ===== src/Expression/Evaluate.antt =====
-- src/expression.c, src/filter.c: a filter that was found valid can be evaluated.
use zmap_embedded_ip.Base.{
  ℕ, ◌≡◌, ◌⊎◌, refl, Bool, true, false, not, ◌||◌, inl, inr, Option, some, List, get_elem?,
  Bool-cases, Option-cases, ltb, ◌==◌, if◌then◌else◌, arith,
}
use zmap_embedded_ip.Fieldset.Translate.{str_eq_sound}
use zmap_embedded_ip.Fieldset.{
  Str, ascii, str_eq, FieldDef, FieldVal, Field, fs_get_uint64_by_index, fs_get_string_by_index,
  fds_get_index_by_name,
}
use zmap_embedded_ip.Expression.{
  Operation, gt, lt, eq, neq, lt_eq, gt_eq, Literal, string, int, Node, comparison, and, or,
  int_type, bool_type, not_result, eval_gt_node, eval_lt_node, eval_eq_node, eval_lt_eq_node,
  eval_gt_eq_node, eval_comparison, evaluate_expression, literal_fits, validate_filter,
}

-- The comparisons of the grammar: strings are compared by `=` and `!=` only.
abbrev pub is_parsed : Operation → Literal → Bool
is_parsed op (int n) = true
is_parsed eq (string s) = true
is_parsed neq (string s) = true
is_parsed gt (string s) = false
is_parsed lt (string s) = false
is_parsed lt_eq (string s) = false
is_parsed gt_eq (string s) = false

abbrev pub IsParsed : Node → Type 0
IsParsed (comparison op name index literal) = is_parsed op literal ≡ true
IsParsed (and l r) = IsParsed l × IsParsed r
IsParsed (or l r) = IsParsed l × IsParsed r

-- The field at each index holds a value of the type that its definition names: a string for "string",
-- a number for "int" and "bool".
abbrev pub IsTyped : List Field → List FieldDef → Type 0
IsTyped fields defs =
    (i : ℕ) (d : FieldDef)
    → get_elem? defs i ≡ some d
    → (f : Field) × ((get_elem? fields i ≡ some f)
        × ((d.type_name ≡ ascii "string" → (s : Str) × (f.value ≡ FieldVal.chars s))
            × ((d.type_name ≡ ascii "int") ⊎ (d.type_name ≡ ascii "bool")
                → (n : ℕ) × (f.value ≡ FieldVal.num n))))

-- A result that evaluation gives.
abbrev Gives : Option Bool → Type 0
Gives r = (b : Bool) × (r ≡ some b)

not_result-Gives : (r : Option Bool) → Gives r → Gives (not_result r)
not_result-Gives r (b, e) = (not b, rw e refl)

read_number :
    (fields : List Field) (index n : ℕ) (f : Field)
    → get_elem? fields index ≡ some f
    → f.value ≡ FieldVal.num n
    → fs_get_uint64_by_index fields index ≡ some n
unfolding fs_get_uint64_by_index
read_number fields index n f place value = cc

read_string :
    (fields : List Field) (index : ℕ) (s : Str) (f : Field)
    → get_elem? fields index ≡ some f
    → f.value ≡ FieldVal.chars s
    → fs_get_string_by_index fields index ≡ some s
unfolding fs_get_string_by_index
read_string fields index s f place value = cc

number-Gives :
    (fields : List Field) (op : Operation) (index n m : ℕ)
    → fs_get_uint64_by_index fields index ≡ some n
    → Gives (eval_comparison fields op index (int m))
unfolding eval_comparison eval_gt_node eval_lt_node eval_eq_node eval_lt_eq_node eval_gt_eq_node
number-Gives fields gt index n m e = (ltb m n, (cc))
number-Gives fields lt index n m e = (ltb n m, (cc))
number-Gives fields eq index n m e = (n == m, (cc))
number-Gives fields neq index n m e = (not (n == m), (cc))
number-Gives fields lt_eq index n m e = (not (ltb m n), (cc))
number-Gives fields gt_eq index n m e = (not (ltb n m), (cc))

string-Gives :
    (fields : List Field) (op : Operation) (index : ℕ) (s t : Str)
    → is_parsed op (string t) ≡ true
    → fs_get_string_by_index fields index ≡ some s
    → Gives (eval_comparison fields op index (string t))
unfolding eval_comparison eval_eq_node
string-Gives fields gt index s t h e = cc
string-Gives fields lt index s t h e = cc
string-Gives fields eq index s t h e = (str_eq t s, (cc))
string-Gives fields neq index s t h e = (not (str_eq t s), (cc))
string-Gives fields lt_eq index s t h e = cc
string-Gives fields gt_eq index s t h e = cc

is_number :
    (type_name : Str)
    → (str_eq type_name int_type || str_eq type_name bool_type) ≡ true
    → (type_name ≡ ascii "int") ⊎ (type_name ≡ ascii "bool")
is_number type_name fits = elim (Bool-cases (str_eq type_name int_type)) [
  | inl is_int ↦ inl (str_eq_sound _ _ is_int)
  | inr other ↦ inr (str_eq_sound _ _ (ground (arith, fits, other)))
]

comparison-Gives :
    (fields : List Field) (defs : List FieldDef) (op : Operation) (index : ℕ) (literal : Literal)
    (d : FieldDef)
    → IsTyped fields defs
    → get_elem? defs index ≡ some d
    → literal_fits d.type_name literal ≡ true
    → is_parsed op literal ≡ true
    → Gives (eval_comparison fields op index literal)
unfolding literal_fits
comparison-Gives fields defs op index (string t) d typed at fits parsed =
    let (f, (read, (chars, nums))) = typed index d at in
    let (s, value) = chars (str_eq_sound _ _ fits) in
    string-Gives fields op index s t parsed (read_string fields index s f read value)
comparison-Gives fields defs op index (int m) d typed at fits parsed =
    let (f, (read, (chars, nums))) = typed index d at in
    let (n, value) = nums (is_number d.type_name fits) in
    number-Gives fields op index n m (read_number fields index n f read value)

-- A filter of the parser that `validate_filter` accepts gives a result, true or false, on every
-- field set whose fields hold values of the types in their definitions.
pub evaluate_expression-validate_filter :
    (node valid : Node) (defs : List FieldDef) (fields : List Field)
    → IsParsed node
    → IsTyped fields defs
    → validate_filter node defs ≡ some valid
    → (b : Bool) × (evaluate_expression valid fields ≡ some b)
unfolding validate_filter evaluate_expression
evaluate_expression-validate_filter (comparison op name index literal) valid defs fields parsed
      typed h =
    elim (Option-cases (fds_get_index_by_name defs name)) [
      | inl n ↦ ground arith
      | inr (found, p) ↦ elim (Option-cases (get_elem? defs found)) [
        | inl n ↦ ground arith
        | inr (d, q) ↦
            let fits : literal_fits d.type_name literal ≡ true = ground arith in
            let same : comparison op name found literal ≡ valid = ground arith in
            rw (← same) (comparison-Gives fields defs op found literal d typed q fits parsed)
      ]
    ]
evaluate_expression-validate_filter (and l r) valid defs fields parsed typed h =
    elim (Option-cases (validate_filter l defs)) [
      | inl n ↦ ground arith
      | inr (l', p) ↦ elim (Option-cases (validate_filter r defs)) [
        | inl n ↦ ground arith
        | inr (r', q) ↦
            let same : and l' r' ≡ valid = ground arith in
            let (b, e) = evaluate_expression-validate_filter l l' defs fields parsed.0 typed p in
            let (c, f) = evaluate_expression-validate_filter r r' defs fields parsed.1 typed q in
            rw (← same) (
              if b then c else false,
              elim (Bool-cases b) [ inl y ↦ ground arith | inr y ↦ ground arith ],
            )
      ]
    ]
evaluate_expression-validate_filter (or l r) valid defs fields parsed typed h =
    elim (Option-cases (validate_filter l defs)) [
      | inl n ↦ ground arith
      | inr (l', p) ↦ elim (Option-cases (validate_filter r defs)) [
        | inl n ↦ ground arith
        | inr (r', q) ↦
            let same : or l' r' ≡ valid = ground arith in
            let (b, e) = evaluate_expression-validate_filter l l' defs fields parsed.0 typed p in
            let (c, f) = evaluate_expression-validate_filter r r' defs fields parsed.1 typed q in
            rw (← same) (
              if b then true else c,
              elim (Bool-cases b) [ inl y ↦ ground arith | inr y ↦ ground arith ],
            )
      ]
    ]
