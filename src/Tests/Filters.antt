-- ===== src/Tests/Filters.antt =====
-- lib/blocklist.c and src/filter.c at concrete inputs.
use zmap_embedded_ip.Base.{
  ℕ, zero, suc, ◌-◌, ◌^◌, Bool-clash, ◌≡◌, refl, sym, ap, ◌∙◌, Bool, true, false, none, some, List,
  [], ◌∷◌, ltb, ◌==◌, has_bit, inl, inr, arith,
}
use zmap_embedded_ip.Base.Counting.{count_below_congr}
use mathlib.Core.Option.{some-injective}
use zmap_embedded_ip.Constraint.{
  Constraint, constraint_init, constraint_set, constraint_count_ips, constraint_paint_value,
  count_ips_recurse, set_recurse,
}
use zmap_embedded_ip.Constraint.Valid.{
  IsValid, constraint_init-IsValid, constraint_set-IsValid, constraint_paint_value-IsValid,
  constraint_lookup_ip-paint_value, constraint_count_ips-count_below,
}
use zmap_embedded_ip.Blocklist.{
  Blocklist, Resolver, blocklist_init, blocklist_is_allowed, blocklist_lookup_index,
  blocklist_count_allowed, init_from_string, init_from_array, init_from_file, allow_from,
  fresh_blocklist, add_constraint, bl_ll_add, prefix_len_of,
}
use zmap_embedded_ip.Blocklist.Allowed.{blocklist_init-IsValid, blocklist_lookup_index-allowed}
use zmap_embedded_ip.Fieldset.{Str, ascii, str_eq, FieldDef, FieldVal, Field, fds_get_index_by_name}
use zmap_embedded_ip.Expression.{
  Operation, Literal, Node, evaluate_expression, validate_filter, literal_fits,
}
use zmap_embedded_ip.Expression.Evaluate.{IsTyped, evaluate_expression-validate_filter}

-- A resolver of a big-endian machine that reads every text as 0.0.0.0.
abbrev env : Resolver
env = record {
  ntohl = λ a. a;
  is_ip_ipv6 = λ text. false;
  strtol = λ text. none;
  inet_aton = λ text. some 0;
  getaddrinfo = λ text. none;
}

abbrev tree : Constraint
tree = constraint_set (constraint_init 1) 0 32 0

abbrev bl : Blocklist
bl = record {
  constraint = constraint_paint_value tree 1;
  blocklisted_cidrs = record { ip_address = 0; prefix_len = 32 } ∷ [];
  allowlisted_cidrs = [];
}

run : blocklist_init env none none [] [] false ≡ some (ltb 0 (blocklist_count_allowed bl), bl)
unfolding blocklist_init allow_from fresh_blocklist init_from_file init_from_array init_from_string
    prefix_len_of add_constraint bl_ll_add
run = refl

tree-IsValid : IsValid tree
tree-IsValid =
    constraint_set-IsValid (constraint_init 1) 0 32 0 (omega arith) (constraint_init-IsValid 1)

tree_count : constraint_count_ips tree 1 ≡ 2 ^ 32 - 1
unfolding constraint_count_ips constraint_set count_ips_recurse set_recurse constraint_init has_bit
tree_count = refl

bl_count : blocklist_count_allowed bl ≡ 2 ^ 32 - 1
unfolding blocklist_count_allowed
bl_count =
    constraint_count_ips-count_below bl.constraint 1
      (constraint_paint_value-IsValid tree 1 tree-IsValid.well)
    ∙ count_below_congr _ _ (2 ^ 32)
        (λ a h. ap (λ v. v == 1) (constraint_lookup_ip-paint_value tree 1 a h))
    ∙ sym (constraint_count_ips-count_below tree 1 tree-IsValid)
    ∙ tree_count

blocklist_init-IsValid_example : IsValid bl.constraint
blocklist_init-IsValid_example =
    blocklist_init-IsValid env none none [] [] false (ltb 0 (blocklist_count_allowed bl)) bl run

blocklist_lookup_index-allowed_example :
    blocklist_is_allowed env.ntohl bl (blocklist_lookup_index env.ntohl bl 5).0 ≡ true
blocklist_lookup_index-allowed_example =
    blocklist_lookup_index-allowed env none none [] [] false (ltb 0 (blocklist_count_allowed bl)) bl
      5 (λ a h. refl) run (omega (arith, bl_count))

-- The definitions of an "int" field "a" and a "string" field "b", and fields for them.
abbrev defs : List FieldDef
defs =
    record { name = 97 ∷ []; type_name = 105 ∷ 110 ∷ 116 ∷ []; desc = [] }
    ∷ record { name = 98 ∷ []; type_name = 115 ∷ 116 ∷ 114 ∷ 105 ∷ 110 ∷ 103 ∷ []; desc = [] }
    ∷ []

abbrev fields : List Field
fields =
    record { name = 97 ∷ []; type = 2; free_ = false; len = 8; value = FieldVal.num 7 }
    ∷ record { name = 98 ∷ []; type = 1; free_ = false; len = 1; value = FieldVal.chars (120 ∷ []) }
    ∷ []

-- a > 5 && b != "x"
abbrev filter : ℕ → ℕ → Node
filter i j =
    Node.and (Node.comparison Operation.gt (97 ∷ []) i (Literal.int 5))
      (Node.comparison Operation.neq (98 ∷ []) j (Literal.string (120 ∷ [])))

-- Two equal definitions, of which the second one has a type.
named :
    {c d : FieldDef} (type_name : Str)
    → c ≡ d
    → d.type_name ≡ type_name
    → str_eq c.type_name type_name ≡ str_eq type_name type_name
named type_name same has =
    ap (λ (x : FieldDef). str_eq x.type_name type_name) same ∙ ap (λ s. str_eq s type_name) has

fields-IsTyped : IsTyped fields defs
unfolding str_eq
fields-IsTyped zero d at = (
  record { name = 97 ∷ []; type = 2; free_ = false; len = 8; value = FieldVal.num 7 },
  (refl, (λ h. Bool-clash (named (ascii "string") (some-injective _ d at) h) refl, λ h. (7, refl))),
)
fields-IsTyped (suc zero) d at = (
  record { name = 98 ∷ []; type = 1; free_ = false; len = 1; value = FieldVal.chars (120 ∷ []) },
  (
    refl,
    (
      λ h. (120 ∷ [], refl),
      λ h. elim h [
        | inl is_int ↦ Bool-clash (named (ascii "int") (some-injective _ d at) is_int) refl
        | inr is_bool ↦ Bool-clash (named (ascii "bool") (some-injective _ d at) is_bool) refl
      ],
    ),
  ),
)
fields-IsTyped (suc (suc i)) d at = cc

valid : validate_filter (filter 0 0) defs ≡ some (filter 0 1)
unfolding validate_filter fds_get_index_by_name literal_fits str_eq
valid = refl

evaluate_expression-validate_filter_example :
    (b : Bool) × (evaluate_expression (filter 0 1) fields ≡ some b)
evaluate_expression-validate_filter_example =
    evaluate_expression-validate_filter (filter 0 0) (filter 0 1) defs fields (refl, refl)
      fields-IsTyped valid
