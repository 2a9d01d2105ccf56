-- ===== src/Expression.antt =====
-- src/expression.c, src/expression.h, src/filter.c: the output filter.
-- A node is one that the parser makes: an operation has both children, a field and a literal none.
-- `none` stands for a read that the source makes out of an array or through the wrong member of a
-- union.
pub mod Evaluate
use zmap_embedded_ip.Base.{
  ℕ, zero, suc, Bool, true, false, ◌&&◌, ◌||◌, not, Option, none, some, List, [], ◌∷◌, get_elem?,
  ltb, ◌==◌, if◌then◌else◌,
}
use zmap_embedded_ip.Fieldset.{
  Str, str_eq, FieldDef, Field, fs_get_uint64_by_index, fs_get_string_by_index,
  fds_get_index_by_name,
}

pub data Operation : Type 0 where
  gt : Operation
  lt : Operation
  eq : Operation
  neq : Operation
  lt_eq : Operation
  gt_eq : Operation

pub data Literal : Type 0 where
  string : Str → Literal
  int : ℕ → Literal

-- `compare op fieldname index literal` is a comparison node with its children: the field with its
-- name and its index, and the literal.
pub data Node : Type 0 where
  comparison : Operation → Str → ℕ → Literal → Node
  and : Node → Node → Node
  or : Node → Node → Node

abbrev pub not_result : Option Bool → Option Bool
not_result none = none
not_result (some b) = some (not b)

-- `eval_gt_node`; the literal is read as a number.
unfoldable pub eval_gt_node : List Field → ℕ → Literal → Option Bool
eval_gt_node fields index (string s) = none
eval_gt_node fields index (int expected) = elim (fs_get_uint64_by_index fields index) [
  | none ↦ none
  | some actual ↦ some (ltb expected actual)
]

unfoldable pub eval_lt_node : List Field → ℕ → Literal → Option Bool
eval_lt_node fields index (string s) = none
eval_lt_node fields index (int expected) = elim (fs_get_uint64_by_index fields index) [
  | none ↦ none
  | some actual ↦ some (ltb actual expected)
]

unfoldable pub eval_eq_node : List Field → ℕ → Literal → Option Bool
unfolding str_eq
eval_eq_node fields index (string expected) = elim (fs_get_string_by_index fields index) [
  | none ↦ none
  | some actual ↦ some (str_eq expected actual)
]
eval_eq_node fields index (int expected) = elim (fs_get_uint64_by_index fields index) [
  | none ↦ none
  | some actual ↦ some (actual == expected)
]

unfoldable pub eval_lt_eq_node : List Field → ℕ → Literal → Option Bool
unfolding eval_gt_node
eval_lt_eq_node fields index literal = not_result (eval_gt_node fields index literal)

unfoldable pub eval_gt_eq_node : List Field → ℕ → Literal → Option Bool
unfolding eval_lt_node
eval_gt_eq_node fields index literal = not_result (eval_lt_node fields index literal)

-- The cases of `evaluate_expression` for a comparison.
unfoldable pub eval_comparison : List Field → Operation → ℕ → Literal → Option Bool
unfolding eval_gt_node eval_lt_node eval_eq_node eval_lt_eq_node eval_gt_eq_node
eval_comparison fields gt index literal = eval_gt_node fields index literal
eval_comparison fields lt index literal = eval_lt_node fields index literal
eval_comparison fields eq index literal = eval_eq_node fields index literal
eval_comparison fields neq index literal = not_result (eval_eq_node fields index literal)
eval_comparison fields lt_eq index literal = eval_lt_eq_node fields index literal
eval_comparison fields gt_eq index literal = eval_gt_eq_node fields index literal

-- `&&` and `||` do not evaluate the right side where the left one decides.
unfoldable pub evaluate_expression : Node → List Field → Option Bool
unfolding eval_comparison
evaluate_expression (comparison op name index literal) fields =
    eval_comparison fields op index literal
evaluate_expression (and l r) fields =
    let right = evaluate_expression r fields in
    elim (evaluate_expression l fields) [ none ↦ none | some b ↦ if b then right else some false ]
evaluate_expression (or l r) fields =
    let right = evaluate_expression r fields in
    elim (evaluate_expression l fields) [ none ↦ none | some b ↦ if b then some true else right ]

abbrev string_type : Str
string_type = 115 ∷ 116 ∷ 114 ∷ 105 ∷ 110 ∷ 103 ∷ []

abbrev int_type : Str
int_type = 105 ∷ 110 ∷ 116 ∷ []

abbrev bool_type : Str
bool_type = 98 ∷ 111 ∷ 111 ∷ 108 ∷ []

-- Whether a literal fits the type of a field's definition, in `validate_node`.
unfoldable pub literal_fits : Str → Literal → Bool
unfolding str_eq
literal_fits type_name (string s) = str_eq type_name string_type
literal_fits type_name (int n) = str_eq type_name int_type || str_eq type_name bool_type

-- `validate_filter` with `validate_node`: `none` is the result 0, and otherwise each field of the
-- tree has the index that `validate_node` wrote.
unfoldable pub validate_filter : Node → List FieldDef → Option Node
unfolding literal_fits fds_get_index_by_name
validate_filter (comparison op name index literal) defs = elim (fds_get_index_by_name defs name) [
  | none ↦ none
  | some found ↦ elim (get_elem? defs found) [
    | none ↦ none
    | some d ↦
        if literal_fits d.type_name literal then some (comparison op name found literal) else none
  ]
]
validate_filter (and l r) defs =
    let right = validate_filter r defs in
    elim (validate_filter l defs) [
      | none ↦ none
      | some l' ↦ elim right [ none ↦ none | some r' ↦ some (and l' r') ]
    ]
validate_filter (or l r) defs =
    let right = validate_filter r defs in
    elim (validate_filter l defs) [
      | none ↦ none
      | some l' ↦ elim right [ none ↦ none | some r' ↦ some (or l' r') ]
    ]
