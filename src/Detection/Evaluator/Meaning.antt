-- ===== src/Detection/Evaluator/Meaning.antt =====
-- What `evaluate_condition` answers for a condition that passed the checks.
use soc_investigation_lab.Common.{◌≡◌, refl, arith, sym, ◌∙◌, true, List, ok, member, map_err-eq-ok}
use soc_investigation_lab.Models.Event.{
  EventCategory, NormalizedEvent, validate_context_matches_category, category_eq,
}
use soc_investigation_lab.Models.Condition.{ConditionNode, Nodes, validate_tree}
use soc_investigation_lab.Models.Rule.{Sources}
use soc_investigation_lab.Models.Trace.{ConditionTrace, evidence, ConditionOutcome}
use soc_investigation_lab.Detection.Semantics.{TextParsers, validate_node}
use soc_investigation_lab.Detection.Evaluator.Resolution.{IsReadable}
use soc_investigation_lab.Detection.Evaluator.Totality.{evaluate_condition-total}
use soc_investigation_lab.Detection.Evaluator.Kleene.{
  kleene_value, kleene_meet, kleene_join, meet, join, evaluate-outcome,
}
use soc_investigation_lab.Detection.Evaluator.{evaluate, evaluate_condition, negated, guarded}

module _ (parsers : TextParsers) (event : NormalizedEvent) where
  pub evaluate_condition-outcome :
      (condition : ConditionNode) {t : ConditionTrace}
      → evaluate_condition parsers event condition ≡ ok t
      → (evidence t).outcome ≡ kleene_value parsers event condition
  unfolding evaluate_condition
  evaluate_condition-outcome condition h =
      evaluate-outcome parsers event condition "$"
        (map_err-eq-ok guarded (evaluate parsers event condition "$") h)

  -- For an event whose context is of its category and whose timestamp UTC can show, a condition
  -- that the models accept and that passed the semantic checks for the event's category evaluates to
  -- a trace, and the outcome of the trace is the three-valued (Kleene) value of the condition:
  -- minimum over an `all`, maximum over an `any`, reversal under a `not`.
  pub evaluate_condition-kleene_value :
      validate_context_matches_category event ≡ true
      → IsReadable event.timestamp
      → (categories : List EventCategory) (sources : Sources)
      → member event.category categories ≡ true
      → (condition : ConditionNode) → validate_tree condition ≡ true
      → validate_node parsers categories sources condition ≡ ok tt
      → (t : ConditionTrace) × (evaluate_condition parsers event condition ≡ ok t)
        × ((evidence t).outcome ≡ kleene_value parsers event condition)
  evaluate_condition-kleene_value same readable categories sources targeted condition v checks =
      let (t, e, at) =
        evaluate_condition-total parsers event same readable categories sources targeted condition v
          checks in
      (t, e, evaluate_condition-outcome condition e)

-- The negation of every child.
abbrev pub negations : Nodes → Nodes
negations Nodes.nil = Nodes.nil
negations (Nodes.cons n ns) = Nodes.cons (ConditionNode.not_ n) (negations ns)

negated-meet : (a b : ConditionOutcome) → negated (meet a b) ≡ join (negated a) (negated b)
negated-meet a b = ground arith

module _ (parsers : TextParsers) (event : NormalizedEvent) where
  negated-kleene_meet :
      (ns : Nodes)
      → negated (kleene_meet parsers event ns) ≡ kleene_join parsers event (negations ns)
  unfolding kleene_meet
  negated-kleene_meet Nodes.nil = refl
  negated-kleene_meet (Nodes.cons n ns) =
      rw
        (
          negated-meet (kleene_value parsers event n) (kleene_meet parsers event ns),
          negated-kleene_meet ns,
        )
        refl

  negated-kleene_value :
      (ns : Nodes)
      → kleene_value parsers event (ConditionNode.not_ (ConditionNode.all ns))
        ≡ kleene_value parsers event (ConditionNode.any (negations ns))
  unfolding kleene_value
  negated-kleene_value ns = negated-kleene_meet ns

  -- De Morgan: for an event whose context is of its category and whose timestamp UTC can show, if
  -- the negation of an `all` and the `any` of the negated children both pass the checks for the
  -- event's category, then both evaluate to a trace and the two traces have the same outcome, also
  -- where fields are absent.
  pub evaluate_condition-de_morgan :
      validate_context_matches_category event ≡ true
      → IsReadable event.timestamp
      → (categories : List EventCategory) (sources : Sources)
      → member event.category categories ≡ true
      → (ns : Nodes) → validate_tree (ConditionNode.not_ (ConditionNode.all ns)) ≡ true
      → validate_node parsers categories sources (ConditionNode.not_ (ConditionNode.all ns)) ≡ ok tt
      → validate_tree (ConditionNode.any (negations ns)) ≡ true
      → validate_node parsers categories sources (ConditionNode.any (negations ns)) ≡ ok tt
      → (s : ConditionTrace) × (t : ConditionTrace) × (evaluate_condition parsers event
            (ConditionNode.not_ (ConditionNode.all ns))
          ≡ ok s)
        × (evaluate_condition parsers event (ConditionNode.any (negations ns)) ≡ ok t)
        × ((evidence s).outcome ≡ (evidence t).outcome)
  evaluate_condition-de_morgan same readable categories sources targeted ns v checks v' checks' =
      let (s, e, a) =
        evaluate_condition-kleene_value parsers event same readable categories sources targeted
          (ConditionNode.not_ (ConditionNode.all ns)) v checks in
      let (t, e', b) =
        evaluate_condition-kleene_value parsers event same readable categories sources targeted
          (ConditionNode.any (negations ns)) v' checks' in
      (s, t, e, e', a ∙ negated-kleene_value ns ∙ sym b)
