-- ===== src/Models/Condition.antt =====
-- backend/app/models/detection.py, the condition tree: operators, field paths, operands, leaves and
-- the two measures of a tree.
pub mod Paths
use soc_investigation_lab.Common.{
  ℕ, ◌+◌, String, ◌≡◌, ◌↔◌, Bool, true, false, ◌&&◌, ◌||◌, not, List, [], ◌∷◌, eqb, arith, ◌==◌, Eq,
  member, all_of, if◌then◌else◌, max, suc,
}
use soc_investigation_lab.Python.Text.{startswith}
use soc_investigation_lab.Python.Value.{Value, Class, type_of, str_class, int_class, class_eq}
use soc_investigation_lab.Models.Condition.Paths.{valid_path}

pub data DetectionOperator : Type 0 where
  equals not_equals contains contains_any starts_with ends_with : DetectionOperator
  in_list not_in_list exists not_exists : DetectionOperator
  greater_than greater_or_equal less_than less_or_equal ip_in_cidr : DetectionOperator

abbrev pub operator_index : DetectionOperator → ℕ
operator_index equals = 0
operator_index not_equals = 1
operator_index contains = 2
operator_index contains_any = 3
operator_index starts_with = 4
operator_index ends_with = 5
operator_index in_list = 6
operator_index not_in_list = 7
operator_index exists = 8
operator_index not_exists = 9
operator_index greater_than = 10
operator_index greater_or_equal = 11
operator_index less_than = 12
operator_index less_or_equal = 13
operator_index ip_in_cidr = 14

-- The member's `value`.
abbrev pub operator_value : DetectionOperator → String
operator_value equals = "equals"
operator_value not_equals = "not_equals"
operator_value contains = "contains"
operator_value contains_any = "contains_any"
operator_value starts_with = "starts_with"
operator_value ends_with = "ends_with"
operator_value in_list = "in"
operator_value not_in_list = "not_in"
operator_value exists = "exists"
operator_value not_exists = "not_exists"
operator_value greater_than = "greater_than"
operator_value greater_or_equal = "greater_or_equal"
operator_value less_than = "less_than"
operator_value less_or_equal = "less_or_equal"
operator_value ip_in_cidr = "ip_in_cidr"

-- Membership of an operator in one of the source's sets of operators.
abbrev pub is_one_of : DetectionOperator → List DetectionOperator → Bool
is_one_of op [] = false
is_one_of op (o ∷ ops) = eqb (operator_index op) (operator_index o) || is_one_of op ops

abbrev pub string_operators : List DetectionOperator
string_operators = contains ∷ starts_with ∷ ends_with ∷ ip_in_cidr ∷ []

abbrev pub integer_operators : List DetectionOperator
integer_operators = greater_than ∷ greater_or_equal ∷ less_than ∷ less_or_equal ∷ []

abbrev pub list_operators : List DetectionOperator
list_operators = contains_any ∷ in_list ∷ not_in_list ∷ []

-- The `value` of a leaf or the `expected` of a trace: not among `model_fields_set`, one object, or
-- a list.
pub data Operand : Type 0 where
  omitted : Operand
  given : Value → Operand
  listed : List Value → Operand

-- `type(value) in {str, int}`
abbrev pub is_str_or_int : Class → Bool
is_str_or_int c = c == str_class || c == int_class

-- The items of a list of operands: text for `contains_any`, else all of the class of the first.
abbrev pub valid_items : DetectionOperator → List Value → Bool
valid_items op [] = false
valid_items op (v ∷ vs) =
    if is_one_of op (contains_any ∷ [])
    then all_of (λ x. type_of x == str_class) (v ∷ vs)
    else all_of (λ x. type_of x == type_of v) (v ∷ vs) && is_str_or_int (type_of v)

-- An operand that is not a list.
abbrev pub valid_scalar : DetectionOperator → Class → Bool
valid_scalar op c =
    if is_one_of op integer_operators
    then c == int_class
    else if is_one_of op string_operators
    then c == str_class
    else is_str_or_int c

unfoldable pub valid_operand : DetectionOperator → Operand → Bool
valid_operand op omitted = false
valid_operand op (given v) =
    if is_one_of op list_operators then false else valid_scalar op (type_of v)
valid_operand op (listed vs) = if is_one_of op list_operators then valid_items op vs else false

pub record LeafCondition : Type 0 where
  pub field : String
  pub op : DetectionOperator
  pub value : Operand

-- `"value" in self.model_fields_set`
abbrev pub has_value : Operand → Bool
has_value omitted = false
has_value _ = true

abbrev pub existence_operators : List DetectionOperator
existence_operators = exists ∷ not_exists ∷ []

-- Whether `LeafCondition(...)` accepts the fields.
unfoldable pub validate_leaf : LeafCondition → Bool
unfolding valid_path valid_operand
validate_leaf leaf =
    if not (valid_path leaf.field)
    then false
    else if is_one_of leaf.op existence_operators
    then not (has_value leaf.value)
    else has_value leaf.value && valid_operand leaf.op leaf.value

mutual
  pub data ConditionNode : Type 0 where
    leaf : LeafCondition → ConditionNode
    all : Nodes → ConditionNode
    any : Nodes → ConditionNode
    not_ : ConditionNode → ConditionNode

  pub data Nodes : Type 0 where
    nil : Nodes
    cons : ConditionNode → Nodes → Nodes

-- Depth and number of leaves; the children's sizes are joined by `max` and by `sum`.
unfoldable mutual
  pub measure : ConditionNode → ℕ × ℕ
  measure (leaf l) = (1, 1)
  measure (all ns) = let (depth, leaves) = measure_children ns in (1 + depth, leaves)
  measure (any ns) = let (depth, leaves) = measure_children ns in (1 + depth, leaves)
  measure (not_ n) = let (depth, leaves) = measure n in (1 + depth, leaves)

  pub measure_children : Nodes → ℕ × ℕ
  measure_children nil = (0, 0)
  measure_children (cons n ns) =
      let (depth, leaves) = measure n in
      let (depth', leaves') = measure_children ns in (max depth depth', leaves + leaves')

unfoldable mutual
  pub uses_source_data : ConditionNode → Bool
  uses_source_data (leaf l) = startswith l.field "source_data."
  uses_source_data (all ns) = children_use_source_data ns
  uses_source_data (any ns) = children_use_source_data ns
  uses_source_data (not_ n) = uses_source_data n

  pub children_use_source_data : Nodes → Bool
  children_use_source_data nil = false
  children_use_source_data (cons n ns) = uses_source_data n || children_use_source_data ns

-- Whether the models accept every node of the tree: valid leaves, and no empty list of children.
unfoldable mutual
  unfolding validate_leaf

  pub validate_tree : ConditionNode → Bool
  validate_tree (leaf l) = validate_leaf l
  validate_tree (all nil) = false
  validate_tree (all (cons n ns)) = validate_tree n && validate_trees ns
  validate_tree (any nil) = false
  validate_tree (any (cons n ns)) = validate_tree n && validate_trees ns
  validate_tree (not_ n) = validate_tree n

  pub validate_trees : Nodes → Bool
  validate_trees nil = true
  validate_trees (cons n ns) = validate_tree n && validate_trees ns
