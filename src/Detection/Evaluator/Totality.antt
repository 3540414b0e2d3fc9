-- ===== src/Detection/Evaluator/Totality.antt =====
-- Conditions that the models and the semantics accept evaluate without an error on every event of a
-- category that they were checked for, and each trace passes the validator of traces.
use soc_investigation_lab.Common.{
  ℕ, ◌+◌, String, ◌≡◌, refl, true, false, List, Result, ok, >>=-eq-ok, and-eq-true, member,
  beq_refl, string_eq,
}
use soc_investigation_lab.Python.Text.{◌<>◌}
use soc_investigation_lab.Models.Event.{
  EventCategory, NormalizedEvent, validate_context_matches_category, category_eq,
}
use soc_investigation_lab.Models.Condition.{ConditionNode, Nodes, validate_tree, validate_trees}
use soc_investigation_lab.Models.Rule.{Sources}
use soc_investigation_lab.Models.Trace.Location.{valid_location}
use soc_investigation_lab.Models.Trace.Location.Laws.{
  valid_location-child_location, valid_location-not, list_kind,
}
use soc_investigation_lab.Models.Trace.{
  ConditionTrace, Traces, evidence, ConditionOutcome, validate_trace, Kind, all_kind, any_kind,
  not_kind, child_location, valid_locations, no_children,
}
use soc_investigation_lab.Detection.Errors.{Raised}
use soc_investigation_lab.Detection.Semantics.{TextParsers, validate_node, validate_nodes}
use soc_investigation_lab.Detection.Semantics.Kinds.{validate_leaf_semantics-operands}
use soc_investigation_lab.Detection.Evaluator.Resolution.{IsReadable}
use soc_investigation_lab.Detection.Evaluator.Leaves.{
  condition_trace-Returns, evaluate_leaf-Returns,
}
use soc_investigation_lab.Detection.Evaluator.{
  evaluate, evaluate_children, node_evidence, evaluate_condition, aggregate, negated,
}

validate_trace-not :
    (location : String) (o : ConditionOutcome) (t : ConditionTrace)
    → valid_location location ≡ true
    → (evidence t).location ≡ location <> ".not"
    → validate_trace (node_evidence location not_kind o) (Traces.cons t Traces.nil) ≡ true
unfolding validate_trace
validate_trace-not location o t at child = rw (at, child, beq_refl (location <> ".not")) refl

validate_trace-list :
    (location : String) (kind : Kind) (o : ConditionOutcome) (ts : Traces)
    → list_kind kind ≡ true
    → valid_location location ≡ true
    → no_children ts ≡ false
    → valid_locations location kind 0 ts ≡ true
    → validate_trace (node_evidence location kind o) ts ≡ true
unfolding validate_trace
validate_trace-list location all_kind o ts k at some children = rw (at, some, children) refl
validate_trace-list location any_kind o ts k at some children = rw (at, some, children) refl
validate_trace-list location _ o ts k at some children = cc

valid_locations-nil :
    (location : String) (kind : Kind) (index : ℕ)
    → valid_locations location kind index Traces.nil ≡ true
unfolding valid_locations
valid_locations-nil location kind index = refl

valid_locations-cons :
    (location : String) (kind : Kind) (index : ℕ) (t : ConditionTrace) (ts : Traces)
    → (evidence t).location ≡ child_location location kind index
    → valid_locations location kind (index + 1) ts ≡ true
    → valid_locations location kind index (Traces.cons t ts) ≡ true
unfolding valid_locations
valid_locations-cons location kind index t ts here there =
    rw (here, beq_refl (child_location location kind index)) there

module _ (parsers : TextParsers) (event : NormalizedEvent)
    (same : validate_context_matches_category event ≡ true) (readable : IsReadable event.timestamp)
    (categories : List EventCategory) (sources : Sources)
    (targeted : member event.category categories ≡ true) where
  -- The traces of the children, at their locations.
  abbrev ReturnsAll : String → Kind → ℕ → Nodes → Result Raised Traces → Type 0
  ReturnsAll location kind index ns r =
      (ts : Traces) × (r ≡ ok ts) × (valid_locations location kind index ts ≡ true)

  mutual
    unfolding evaluate validate_tree validate_node

    evaluate-Returns :
        (n : ConditionNode) (location : String)
        → valid_location location ≡ true
        → validate_tree n ≡ true
        → validate_node parsers categories sources n ≡ ok tt
        → (t : ConditionTrace) × (evaluate parsers event n location ≡ ok t)
          × ((evidence t).location ≡ location)
    evaluate-Returns (ConditionNode.leaf l) location at v checks =
        let (k, typed, ls, operands) =
          validate_leaf_semantics-operands parsers event.category categories sources l targeted
            checks in
        evaluate_leaf-Returns parsers event same readable l location k ls at v typed operands
    evaluate-Returns (ConditionNode.not_ n) location at v checks =
        let (t, e, here) =
          evaluate-Returns n (location <> ".not") (valid_location-not location at) v checks in
        rw e (
          condition_trace-Returns parsers event same readable
            (node_evidence location not_kind (negated (evidence t).outcome))
            (Traces.cons t Traces.nil)
            (validate_trace-not location (negated (evidence t).outcome) t at here))
    evaluate-Returns (ConditionNode.all Nodes.nil) location at v checks = cc
    evaluate-Returns (ConditionNode.any Nodes.nil) location at v checks = cc
    evaluate-Returns (ConditionNode.all (Nodes.cons n ns)) location at v checks =
        let (vn, vs) = and-eq-true (validate_tree n) (validate_trees ns) v in
        let (u, cn, cs) =
          >>=-eq-ok (validate_node parsers categories sources n)
            (λ _. validate_nodes parsers categories sources ns) checks in
        let inside = valid_location-child_location location all_kind 0 refl at in
        let (t, e, here) = evaluate-Returns n (child_location location all_kind 0) inside vn cn in
        let (ts, es, there) =
          evaluate_children-Returns ns location all_kind (0 + 1) refl at vs cs in
        rw (e, es)
          (condition_trace-Returns parsers event same readable
            (node_evidence location all_kind (aggregate true (Traces.cons t ts))) (Traces.cons t ts)
            (validate_trace-list location all_kind (aggregate true (Traces.cons t ts))
              (Traces.cons t ts) refl at refl
              (valid_locations-cons location all_kind 0 t ts here there)))
    evaluate-Returns (ConditionNode.any (Nodes.cons n ns)) location at v checks =
        let (vn, vs) = and-eq-true (validate_tree n) (validate_trees ns) v in
        let (u, cn, cs) =
          >>=-eq-ok (validate_node parsers categories sources n)
            (λ _. validate_nodes parsers categories sources ns) checks in
        let inside = valid_location-child_location location any_kind 0 refl at in
        let (t, e, here) = evaluate-Returns n (child_location location any_kind 0) inside vn cn in
        let (ts, es, there) =
          evaluate_children-Returns ns location any_kind (0 + 1) refl at vs cs in
        rw (e, es)
          (condition_trace-Returns parsers event same readable
            (node_evidence location any_kind (aggregate false (Traces.cons t ts)))
            (Traces.cons t ts)
            (validate_trace-list location any_kind (aggregate false (Traces.cons t ts))
              (Traces.cons t ts) refl at refl
              (valid_locations-cons location any_kind 0 t ts here there)))

    evaluate_children-Returns :
        (ns : Nodes) (location : String) (kind : Kind) (index : ℕ)
        → list_kind kind ≡ true
        → valid_location location ≡ true
        → validate_trees ns ≡ true
        → validate_nodes parsers categories sources ns ≡ ok tt
        → ReturnsAll location kind index ns (evaluate_children parsers event ns location kind index)
    evaluate_children-Returns Nodes.nil location kind index k at v checks =
        (Traces.nil, refl, valid_locations-nil location kind index)
    evaluate_children-Returns (Nodes.cons n ns) location kind index k at v checks =
        let (vn, vs) = and-eq-true (validate_tree n) (validate_trees ns) v in
        let (u, cn, cs) =
          >>=-eq-ok (validate_node parsers categories sources n)
            (λ _. validate_nodes parsers categories sources ns) checks in
        let inside = valid_location-child_location location kind index k at in
        let (t, e, here) = evaluate-Returns n (child_location location kind index) inside vn cn in
        let (ts, es, there) = evaluate_children-Returns ns location kind (index + 1) k at vs cs in
        (Traces.cons t ts, rw (e, es), valid_locations-cons location kind index t ts here there)

  -- A condition of a rule that passed both checks evaluates to a trace, from the root.
  pub evaluate_condition-total :
      (condition : ConditionNode)
      → validate_tree condition ≡ true
      → validate_node parsers categories sources condition ≡ ok tt
      → (t : ConditionTrace) × (evaluate_condition parsers event condition ≡ ok t)
        × ((evidence t).location ≡ "$")
  unfolding evaluate_condition
  evaluate_condition-total condition v checks =
      let (t, e, at) = evaluate-Returns condition "$" (unfold valid_location in refl) v checks in
      (t, rw e, at)
