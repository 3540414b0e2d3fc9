-- ===== src/Tests/Detection.antt =====
-- The theorems on detection at concrete events and rules.
use mathlib.Core.List.{Permᴰ}
use soc_investigation_lab.Common.{
  ◌≡◌, refl, String, Bool, true, some, List, [], ◌∷◌, ok, err, All, lookup, keep,
}
use soc_investigation_lab.Python.Text.{startswith}
use soc_investigation_lab.Python.Sorted.{sorted}
use soc_investigation_lab.Python.Datetime.{has_offset, astimezone_utc}
use soc_investigation_lab.Models.Event.{validate_context_matches_category, network}
use soc_investigation_lab.Models.Condition.{validate_tree, ConditionNode}
use soc_investigation_lab.Models.Condition.Paths.{valid_path}
use soc_investigation_lab.Models.Rule.{unset, validate_rule}
use soc_investigation_lab.Models.Trace.{ConditionTrace, evidence}
use soc_investigation_lab.Models.Match.{DetectionMatch}
use soc_investigation_lab.Detection.Errors.{controlled, engine_error}
use soc_investigation_lab.Detection.Semantics.Fields.{field_type, string_field}
use soc_investigation_lab.Detection.Semantics.{
  incompatible_field_type, validate_node, validate_detection_rule_semantics,
  validate_leaf_semantics, validated_operands, field_types, only_kind,
}
use soc_investigation_lab.Detection.Evaluator.Resolution.{IsReadable}
use soc_investigation_lab.Detection.Evaluator.Kleene.{kleene_value}
use soc_investigation_lab.Detection.Evaluator.Meaning.{
  evaluate_condition-kleene_value, evaluate_condition-de_morgan, negations,
}
use soc_investigation_lab.Detection.Evaluator.{evaluate_condition}
use soc_investigation_lab.Detection.Engine.{evaluate_event, id_leb}
use soc_investigation_lab.Detection.Engine.Order.{ids}
use soc_investigation_lab.Detection.Engine.Matches.{
  IsRule, IsMatch, is_match, rule_ids, evaluate_event-matches, evaluate_event-perm,
  evaluate_event-duplicate,
}
use soc_investigation_lab.Detection.Evaluator.Resolution.{Resolves, resolve_event_field-Resolves}
use soc_investigation_lab.Detection.Evaluator.Resolve.{resolve_event_field}
use soc_investigation_lab.Detection.Semantics.Tables.{field_type-valid_path}
use soc_investigation_lab.Detection.Evaluator.Compare.{compare_scalar}
use soc_investigation_lab.Detection.Evaluator.Comparison.{compare_scalar-total}
use soc_investigation_lab.Detection.Semantics.{of_str, scalar}
use soc_investigation_lab.Models.Condition.{equals}
use soc_investigation_lab.Models.Condition.{ip_in_cidr}
use soc_investigation_lab.Detection.Semantics.{of_address, network as network_literal}
use soc_investigation_lab.Python.Address.Ranges.{IsWithin}
use soc_investigation_lab.Detection.Evaluator.Networks.{compare_scalar-IsWithin}
use soc_investigation_lab.Common.{◌↔◌}
use soc_investigation_lab.Detection.Engine.Explained.{IsExplained, evaluate_event-IsExplained}
use soc_investigation_lab.Tests.{
  inside, ten, parsers, instant, connection, both, inside_rule, tcp_rule, rules,
}

instant-IsReadable : IsReadable instant
unfolding has_offset astimezone_utc
instant-IsReadable = record { offset = refl; in_utc = instant; converts = refl }

same_category : validate_context_matches_category connection ≡ true
unfolding validate_context_matches_category
same_category = refl

pub inside_rule-valid : validate_rule inside_rule ≡ true
unfolding validate_rule startswith
inside_rule-valid = refl

pub tcp_rule-valid : validate_rule tcp_rule ≡ true
unfolding validate_rule startswith
tcp_rule-valid = refl

pub inside_rule-checks : validate_detection_rule_semantics parsers inside_rule ≡ ok tt
unfolding validate_detection_rule_semantics validate_node validate_leaf_semantics validated_operands
    field_types only_kind field_type startswith
inside_rule-checks = refl

pub tcp_rule-checks : validate_detection_rule_semantics parsers tcp_rule ≡ ok tt
unfolding validate_detection_rule_semantics validate_node validate_leaf_semantics validated_operands
    field_types only_kind field_type startswith
tcp_rule-checks = refl

rules-AreRules : All (IsRule parsers) rules
rules-AreRules = (
  record { valid = inside_rule-valid; checks = inside_rule-checks },
  (record { valid = tcp_rule-valid; checks = tcp_rule-checks }, tt),
)

evaluate_event-matches_example :
    (ms : List DetectionMatch) × (evaluate_event parsers connection rules ≡ ok ms)
    × (rule_ids ms
        ≡ ids (
            keep
              (is_match parsers connection same_category instant-IsReadable)
              (sorted id_leb rules)))
    × All (IsMatch parsers connection same_category instant-IsReadable) ms
evaluate_event-matches_example =
    evaluate_event-matches parsers connection same_category instant-IsReadable rules rules-AreRules
      refl

evaluate_event-perm_example :
    evaluate_event parsers connection (inside_rule ∷ tcp_rule ∷ [])
    ≡ evaluate_event parsers connection (tcp_rule ∷ inside_rule ∷ [])
evaluate_event-perm_example = evaluate_event-perm parsers connection (Permᴰ.swap refl refl) refl

evaluate_event-duplicate_example :
    (id : String) × (evaluate_event parsers connection (inside_rule ∷ tcp_rule ∷ inside_rule ∷ [])
      ≡ err (controlled (engine_error "duplicate_rule_id" (some id))))
evaluate_event-duplicate_example =
    evaluate_event-duplicate parsers connection (inside_rule ∷ tcp_rule ∷ inside_rule ∷ []) refl

both-tree : validate_tree (ConditionNode.all both) ≡ true
unfolding validate_tree
both-tree = refl

both-checks : validate_node parsers (network ∷ []) unset (ConditionNode.all both) ≡ ok tt
unfolding validate_node validate_leaf_semantics validated_operands field_types only_kind field_type
    startswith
both-checks = refl

negated-tree : validate_tree (ConditionNode.not_ (ConditionNode.all both)) ≡ true
unfolding validate_tree
negated-tree = refl

negated-checks :
    validate_node parsers (network ∷ []) unset (ConditionNode.not_ (ConditionNode.all both)) ≡ ok tt
unfolding validate_node validate_leaf_semantics validated_operands field_types only_kind field_type
    startswith
negated-checks = refl

negations-tree : validate_tree (ConditionNode.any (negations both)) ≡ true
unfolding validate_tree
negations-tree = refl

negations-checks :
    validate_node parsers (network ∷ []) unset (ConditionNode.any (negations both)) ≡ ok tt
unfolding validate_node validate_leaf_semantics validated_operands field_types only_kind field_type
    startswith
negations-checks = refl

evaluate_condition-kleene_value_example :
    (t : ConditionTrace) × (evaluate_condition parsers connection (ConditionNode.all both) ≡ ok t)
    × ((evidence t).outcome ≡ kleene_value parsers connection (ConditionNode.all both))
evaluate_condition-kleene_value_example =
    evaluate_condition-kleene_value parsers connection same_category instant-IsReadable
      (network ∷ []) unset refl (ConditionNode.all both) both-tree both-checks

evaluate_condition-de_morgan_example :
    (s : ConditionTrace) × (t : ConditionTrace) × (evaluate_condition parsers connection
        (ConditionNode.not_ (ConditionNode.all both))
      ≡ ok s)
    × (evaluate_condition parsers connection (ConditionNode.any (negations both)) ≡ ok t)
    × ((evidence s).outcome ≡ (evidence t).outcome)
evaluate_condition-de_morgan_example =
    evaluate_condition-de_morgan parsers connection same_category instant-IsReadable (network ∷ [])
      unset refl both negated-tree negated-checks negations-tree negations-checks

protocol-typed : field_type "context.protocol" network ≡ ok string_field
unfolding field_type startswith lookup
protocol-typed = refl

resolve_event_field-Resolves_example :
    Resolves "context.protocol" string_field (resolve_event_field connection "context.protocol")
resolve_event_field-Resolves_example =
    resolve_event_field-Resolves connection "context.protocol" string_field same_category
      instant-IsReadable protocol-typed

field_type-valid_path_example : valid_path "context.protocol" ≡ true
field_type-valid_path_example =
    field_type-valid_path network "context.protocol" string_field protocol-typed

compare_scalar-total_example :
    (b : Bool) × (compare_scalar (of_str "tcp") equals (scalar (of_str "udp") ∷ []) ≡ ok b)
compare_scalar-total_example =
    compare_scalar-total string_field (of_str "tcp") equals (scalar (of_str "udp") ∷ []) tt refl
      (unfold incompatible_field_type in refl) (tt, tt)

compare_scalar-IsWithin_example :
    (b : Bool) × (compare_scalar (of_address inside) ip_in_cidr (network_literal ten ∷ []) ≡ ok b)
    × ((b ≡ true) ↔ IsWithin inside ten)
compare_scalar-IsWithin_example = compare_scalar-IsWithin inside ten 10 refl

-- The matches of the rules against the event.
connection_matches : (ms : List DetectionMatch) × (evaluate_event parsers connection rules ≡ ok ms)
connection_matches =
    let (ms, e, names, fine) =
      evaluate_event-matches parsers connection same_category instant-IsReadable rules
        rules-AreRules refl in
    (ms, e)

evaluate_event-IsExplained_example :
    All (IsExplained parsers connection rules) (connection_matches.0)
evaluate_event-IsExplained_example =
    evaluate_event-IsExplained parsers connection rules (connection_matches.0)
      (connection_matches.1)
