-- ===== src/Detection/Evaluator/Explanation.antt =====
-- What a trace says of the condition and the event that it was made of.
use soc_investigation_lab.Common.{
  ℕ, ◌+◌, String, ◌≡◌, refl, sym, ap, ◌∙◌, Ensures, Ensures-ok, Ensures-err, Ensures-bind,
  Ensures-call, Ensures-eq-ok, Bool, true, false, Option, none, some, List, Result, ok, err, ◌>>=◌,
  >>=-eq-ok, map_err-eq-ok, Bool-cases, inl, inr,
}
use soc_investigation_lab.Python.Text.{◌<>◌}
use soc_investigation_lab.Python.Exceptions.{Exception}
use soc_investigation_lab.Python.Value.{Value}
use soc_investigation_lab.Models.Event.{NormalizedEvent}
use soc_investigation_lab.Models.Condition.{
  DetectionOperator, exists, not_exists, LeafCondition, ConditionNode, Nodes,
}
use soc_investigation_lab.Models.Trace.{
  ConditionTrace, Traces, trace, evidence, Evidence, ConditionOutcome, true_outcome, false_outcome,
  unknown, condition_trace, validate_trace, Kind, leaf_kind, all_kind, any_kind, not_kind,
  child_location,
}
use soc_investigation_lab.Detection.Errors.{EvaluationError, Raised, builtin, checked}
use soc_investigation_lab.Detection.Semantics.{Scalar, Literal, TextParsers, validated_operands}
use soc_investigation_lab.Detection.Evaluator.Resolve.{
  ResolvedField, resolve_event_field, scalar_object,
}
use soc_investigation_lab.Detection.Evaluator.Compare.{compare_scalar}
use soc_investigation_lab.Detection.Evaluator.Kleene.{meet, join, aggregate-meet, aggregate-join}
use soc_investigation_lab.Detection.Evaluator.{
  outcome_of, actual_of, leaf_outcome, leaf_evidence, present_value, evaluate_leaf, evaluate,
  evaluate_children, evaluate_condition, guarded, node_evidence, aggregate, negated,
}

-- The other definite outcome, and unknown for unknown.
abbrev pub opposite : ConditionOutcome → ConditionOutcome
opposite true_outcome = false_outcome
opposite false_outcome = true_outcome
opposite unknown = unknown

abbrev pub decided : Bool → ConditionOutcome
decided true = true_outcome
decided false = false_outcome

-- The least and the greatest of the outcomes of the children.
abbrev pub least : Traces → ConditionOutcome
least Traces.nil = true_outcome
least (Traces.cons t ts) = meet (evidence t).outcome (least ts)

abbrev pub greatest : Traces → ConditionOutcome
greatest Traces.nil = false_outcome
greatest (Traces.cons t ts) = join (evidence t).outcome (greatest ts)

-- What a comparison with the value of a field says.
abbrev pub Compares : Scalar → DetectionOperator → List Literal → ConditionOutcome → Type 0
Compares s op ls o = (b : Bool) × (compare_scalar s op ls ≡ ok b) × (o ≡ decided b)

-- The outcome that an operator has to have: by presence, or unknown without a value, or by comparison.
abbrev pub Decides : DetectionOperator → Option Scalar → List Literal → ConditionOutcome → Type 0
Decides exists none ls o = o ≡ false_outcome
Decides exists (some s) ls o = o ≡ true_outcome
Decides not_exists none ls o = o ≡ true_outcome
Decides not_exists (some s) ls o = o ≡ false_outcome
Decides op none ls o = o ≡ unknown
Decides op (some s) ls o = Compares s op ls o

abbrev pub shown_value : Option Scalar → Option Value
shown_value none = none
shown_value (some s) = some (scalar_object s)

outcome_of-decided : (b : Bool) → outcome_of b ≡ decided b
outcome_of-decided true = refl
outcome_of-decided false = refl

compared-Compares :
    (s : Scalar) (op : DetectionOperator) (ls : List Literal) {o : ConditionOutcome}
    → (compare_scalar s op ls >>= λ answer. ok (outcome_of answer)) ≡ ok o
    → Compares s op ls o
compared-Compares s op ls {o} h =
    let (b, e, last) = >>=-eq-ok (compare_scalar s op ls) (λ answer. ok (outcome_of answer)) h in
    let same : outcome_of b ≡ o = cc in (b, e, sym same ∙ outcome_of-decided b)

leaf_outcome-Decides :
    (op : DetectionOperator) (s : Option Scalar) (ls : List Literal) {o : ConditionOutcome}
    → leaf_outcome op s ls ≡ ok o
    → Decides op s ls o
unfolding leaf_outcome
leaf_outcome-Decides exists none ls h = cc
leaf_outcome-Decides exists (some s) ls h = cc
leaf_outcome-Decides not_exists none ls h = cc
leaf_outcome-Decides not_exists (some s) ls h = cc
leaf_outcome-Decides _ none ls h = cc
leaf_outcome-Decides op (some s) ls h = compared-Compares s op ls h

shown_value-actual : (s : Option Scalar) → actual_of s ≡ shown_value s
shown_value-actual none = refl
shown_value-actual (some s) = refl

builtin-eq-ok {ℓ} : {A : Type ℓ} (m : Result Exception A) {a : A} → builtin m ≡ ok a → m ≡ ok a
builtin-eq-ok (ok a) h = cc
builtin-eq-ok (err e) h = cc

checked-eq-ok {ℓ} :
    {A : Type ℓ} (m : Result EvaluationError A) {a : A} → checked m ≡ ok a → m ≡ ok a
checked-eq-ok (ok a) h = cc
checked-eq-ok (err e) h = cc

module _ (parsers : TextParsers) (event : NormalizedEvent) where
  -- The evidence of a leaf: its condition, the value that the event has under its field, and the
  -- outcome that the operator and that value decide.
  pub record LeafExplained (l : LeafCondition) (e : Evidence) : Type 0 where
    pub of_leaf : e.kind ≡ leaf_kind
    pub of_field : e.field ≡ some l.field
    pub of_operator : e.op ≡ some l.op
    pub found : ResolvedField
    pub resolves : resolve_event_field event l.field ≡ ok found
    pub shown : e.actual ≡ shown_value (present_value found)
    pub operands : List Literal
    pub validates : validated_operands parsers found.field_type l ≡ ok operands
    pub decides : Decides l.op (present_value found) operands e.outcome

  -- A trace has the shape of its condition, explains each leaf, and has at each other node the
  -- outcome that Kleene's logic gives to the outcomes of its children.
  unfoldable mutual
    pub Explains : ConditionNode → ConditionTrace → Type 0
    Explains (ConditionNode.leaf l) (trace e Traces.nil) = LeafExplained l e
    Explains (ConditionNode.not_ n) (trace e (Traces.cons t Traces.nil)) =
        (e.kind ≡ not_kind) × (e.outcome ≡ opposite (evidence t).outcome) × Explains n t
    Explains (ConditionNode.all ns) (trace e ts) =
        (e.kind ≡ all_kind) × (e.outcome ≡ least ts) × ExplainsAll ns ts
    Explains (ConditionNode.any ns) (trace e ts) =
        (e.kind ≡ any_kind) × (e.outcome ≡ greatest ts) × ExplainsAll ns ts
    Explains _ _ = ⊥

    pub ExplainsAll : Nodes → Traces → Type 0
    ExplainsAll Nodes.nil Traces.nil = Unit
    ExplainsAll (Nodes.cons n ns) (Traces.cons t ts) = Explains n t × ExplainsAll ns ts
    ExplainsAll _ _ = ⊥

aggregate-least : (ts : Traces) → aggregate true ts ≡ least ts
unfolding aggregate
aggregate-least Traces.nil = refl
aggregate-least (Traces.cons t ts) =
    aggregate-meet t ts ∙ ap (meet (evidence t).outcome) (aggregate-least ts)

aggregate-greatest : (ts : Traces) → aggregate false ts ≡ greatest ts
unfolding aggregate
aggregate-greatest Traces.nil = refl
aggregate-greatest (Traces.cons t ts) =
    aggregate-join t ts ∙ ap (join (evidence t).outcome) (aggregate-greatest ts)

negated-opposite : (o : ConditionOutcome) → negated o ≡ opposite o
negated-opposite true_outcome = refl
negated-opposite false_outcome = refl
negated-opposite unknown = refl

module _ (parsers : TextParsers) (event : NormalizedEvent) where
  abbrev Explained : ConditionNode → Result Raised ConditionTrace → Type 0
  Explained n r = Ensures (Explains parsers event n) r

  made-Ensures :
      (P : ConditionTrace → Type 0) (e : Evidence) (ts : Traces)
      → P (trace e ts)
      → Ensures P (builtin (condition_trace e ts))
  unfolding condition_trace
  made-Ensures P e ts h = elim (Bool-cases (validate_trace e ts)) [
    | inl fine ↦ rw fine (Ensures-ok h)
    | inr bad ↦ rw bad Ensures-err
  ]

  leaf_evidence-LeafExplained :
      (l : LeafCondition) (location : String) (f : ResolvedField) (ls : List Literal)
      (o : ConditionOutcome)
      → resolve_event_field event l.field ≡ ok f
      → validated_operands parsers f.field_type l ≡ ok ls
      → leaf_outcome l.op (present_value f) ls ≡ ok o
      → LeafExplained parsers event l (leaf_evidence location l f o)
  leaf_evidence-LeafExplained l location f ls o resolves validates outcome = record {
    of_leaf = refl;
    of_field = refl;
    of_operator = refl;
    found = f;
    resolves = resolves;
    shown = shown_value-actual (present_value f);
    operands = ls;
    validates = validates;
    decides = leaf_outcome-Decides l.op (present_value f) ls outcome;
  }

  evaluate_leaf-Explains :
      (l : LeafCondition) (location : String)
      → Explained (ConditionNode.leaf l) (evaluate_leaf parsers event l location)
  unfolding evaluate_leaf Explains
  evaluate_leaf-Explains l location =
      Ensures-bind (λ f. resolve_event_field event l.field ≡ ok f)
        (Ensures-call (resolve_event_field event l.field))
        λ f resolves.
          Ensures-bind (λ ls. checked (validated_operands parsers f.field_type l) ≡ ok ls)
            (Ensures-call (checked (validated_operands parsers f.field_type l)))
            λ ls validates.
              Ensures-bind (λ o. builtin (leaf_outcome l.op (present_value f) ls) ≡ ok o)
                (Ensures-call (builtin (leaf_outcome l.op (present_value f) ls)))
                λ o outcome.
                  made-Ensures (Explains parsers event (ConditionNode.leaf l))
                    (leaf_evidence location l f o) Traces.nil
                    (leaf_evidence-LeafExplained l location f ls o resolves
                      (checked-eq-ok (validated_operands parsers f.field_type l) validates)
                      (builtin-eq-ok (leaf_outcome l.op (present_value f) ls) outcome))

  mutual
    unfolding evaluate Explains

    evaluate-Explains :
        (n : ConditionNode) (location : String) → Explained n (evaluate parsers event n location)
    evaluate-Explains (ConditionNode.leaf l) location = evaluate_leaf-Explains l location
    evaluate-Explains (ConditionNode.not_ n) location =
        Ensures-bind (Explains parsers event n) (evaluate-Explains n (location <> ".not")) λ t h.
          made-Ensures (Explains parsers event (ConditionNode.not_ n))
            (node_evidence location not_kind (negated (evidence t).outcome))
            (Traces.cons t Traces.nil) (refl, negated-opposite (evidence t).outcome, h)
    evaluate-Explains (ConditionNode.all ns) location =
        Ensures-bind (ExplainsAll parsers event ns)
          (evaluate_children-Explains ns location all_kind 0)
          λ ts hs.
            made-Ensures (Explains parsers event (ConditionNode.all ns))
              (node_evidence location all_kind (aggregate true ts)) ts
              (refl, aggregate-least ts, hs)
    evaluate-Explains (ConditionNode.any ns) location =
        Ensures-bind (ExplainsAll parsers event ns)
          (evaluate_children-Explains ns location any_kind 0)
          λ ts hs.
            made-Ensures (Explains parsers event (ConditionNode.any ns))
              (node_evidence location any_kind (aggregate false ts)) ts
              (refl, aggregate-greatest ts, hs)

    evaluate_children-Explains :
        (ns : Nodes) (location : String) (kind : Kind) (index : ℕ)
        → Ensures
            (ExplainsAll parsers event ns)
            (evaluate_children parsers event ns location kind index)
    evaluate_children-Explains Nodes.nil location kind index = Ensures-ok tt
    evaluate_children-Explains (Nodes.cons n ns) location kind index =
        Ensures-bind (Explains parsers event n)
          (evaluate-Explains n (child_location location kind index))
          λ t h.
            Ensures-bind (ExplainsAll parsers event ns)
              (evaluate_children-Explains ns location kind (index + 1)) λ ts hs. Ensures-ok (h, hs)

  pub evaluate_condition-Explains :
      (condition : ConditionNode) {t : ConditionTrace}
      → evaluate_condition parsers event condition ≡ ok t
      → Explains parsers event condition t
  unfolding evaluate_condition
  evaluate_condition-Explains condition h =
      Ensures-eq-ok (evaluate-Explains condition "$")
        (map_err-eq-ok guarded (evaluate parsers event condition "$") h)
