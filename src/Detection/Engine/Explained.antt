-- ===== src/Detection/Engine/Explained.antt =====
-- Why the engine returns a match.
use mathlib.Core.List.{Permᴰ}
use soc_investigation_lab.Common.{
  Among, ◌≡◌, refl, ◌∙◌, true, Option, none, some, List, [], ◌∷◌, ok, inl, inr, Bool-cases, ◌==◌,
  string_eq, member, and-eq-true, All, All-map, Any, Any-holds, Ensures, Ensures-ok, Ensures-err,
  Ensures-bind, Ensures-call, Ensures-eq-ok, Ensures-map,
}
use soc_investigation_lab.Python.Sorted.{sorted}
use soc_investigation_lab.Python.Sorted.Laws.{sorted-permᴰ}
use soc_investigation_lab.Models.Event.{NormalizedEvent, EventSource, category_eq, source_eq}
use soc_investigation_lab.Models.Rule.{DetectionRule, Sources, only}
use soc_investigation_lab.Models.Trace.{ConditionTrace, evidence, true_outcome, outcome_eq}
use soc_investigation_lab.Models.Match.{DetectionMatch, validate_match}
use soc_investigation_lab.Detection.Semantics.{TextParsers}
use soc_investigation_lab.Detection.Evaluator.{evaluate_condition}
use soc_investigation_lab.Detection.Evaluator.Explanation.{Explains, evaluate_condition-Explains}
use soc_investigation_lab.Detection.Engine.{
  id_leb, check_ids, targets_source, is_applicable, match_of, construct_match, match_trace,
  match_rule, match_rules, append_match, ordered_rules, evaluate_event,
}

Among-perm : {A : Type 0} (x : A) {xs ys : List A} → Permᴰ xs ys → Among x xs → Among x ys
Among-perm x Permᴰ.nil h = h
Among-perm x (Permᴰ.cons e p) (inl here) = inl (here ∙ e)
Among-perm x (Permᴰ.cons e p) (inr there) = inr (Among-perm x p there)
Among-perm x (Permᴰ.swap e f) (inl here) = inr (inl (here ∙ e))
Among-perm x (Permᴰ.swap e f) (inr (inl next)) = inl (next ∙ f)
Among-perm x (Permᴰ.swap e f) (inr (inr there)) = inr (inr there)
Among-perm x (Permᴰ.trans p q) h = Among-perm x q (Among-perm x p h)

-- A rule without sources targets them all.
abbrev pub Targets : Sources → EventSource → Type 0
Targets (only ss) source = member source ss ≡ true
Targets _ source = Unit

module _ (parsers : TextParsers) (event : NormalizedEvent) where
  -- The match is of this rule and this event; the rule targets the event's category and source; and
  -- the trace, whose outcome is true, explains the rule's condition.
  pub record ComesFrom (r : DetectionRule) (m : DetectionMatch) : Type 0 where
    pub of_id : m.rule_id ≡ r.id
    pub of_version : m.rule_version ≡ r.version
    pub of_title : m.rule_title ≡ r.title
    pub of_event : m.event ≡ event
    pub of_category : member event.category r.categories ≡ true
    pub of_source : Targets r.sources event.source
    pub holds : (evidence m.trace).outcome ≡ true_outcome
    pub explained : Explains parsers event r.condition m.trace

  -- A rule of the list that the match comes from.
  pub record IsExplained (rs : List DetectionRule) (m : DetectionMatch) : Type 0 where
    pub rule : DetectionRule
    pub among : Among rule rs
    pub comes : ComesFrom rule m

  abbrev ComesOrNone : DetectionRule → Option DetectionMatch → Type 0
  ComesOrNone r none = Unit
  ComesOrNone r (some m) = ComesFrom r m

  targets_source-Targets :
      (sources : Sources) (source : EventSource)
      → targets_source sources source ≡ true
      → Targets sources source
  targets_source-Targets (only ss) source h = h
  targets_source-Targets _ source h = tt

  construct_match-ComesFrom :
      (r : DetectionRule) (t : ConditionTrace)
      → member event.category r.categories ≡ true
      → Targets r.sources event.source
      → (evidence t).outcome ≡ true_outcome
      → Explains parsers event r.condition t
      → Ensures (ComesFrom r) (construct_match event r t)
  unfolding construct_match
  construct_match-ComesFrom r t category source holds explained =
      elim (Bool-cases (validate_match (match_of event r t))) [
        | inr bad ↦ rw bad Ensures-err
        | inl fine ↦ rw fine (
            Ensures-ok (record {
              of_id = refl;
              of_version = refl;
              of_title = refl;
              of_event = refl;
              of_category = category;
              of_source = source;
              holds = holds;
              explained = explained;
            }))
      ]

  match_trace-ComesFrom :
      (r : DetectionRule) (t : ConditionTrace)
      → member event.category r.categories ≡ true
      → Targets r.sources event.source
      → Explains parsers event r.condition t
      → Ensures (ComesOrNone r) (match_trace event r t)
  match_trace-ComesFrom r t category source explained =
      elim (Bool-cases ((evidence t).outcome == true_outcome)) [
        | inr other ↦ rw other (Ensures-ok tt)
        | inl same ↦
            let holds = (outcome_eq.beq_iff (evidence t).outcome true_outcome).0 same in
            rw same (
              Ensures-bind (ComesFrom r)
                (construct_match-ComesFrom r t category source holds explained) λ m h. Ensures-ok h)
      ]

  match_rule-ComesFrom : (r : DetectionRule) → Ensures (ComesOrNone r) (match_rule parsers event r)
  unfolding match_rule is_applicable
  match_rule-ComesFrom r = elim (Bool-cases (is_applicable event r)) [
    | inr apart ↦ rw apart (Ensures-ok tt)
    | inl applies ↦
        let (category, source) =
          and-eq-true (member event.category r.categories) (targets_source r.sources event.source)
            applies in
        rw applies (
          Ensures-bind (λ t. evaluate_condition parsers event r.condition ≡ ok t)
            (Ensures-call (evaluate_condition parsers event r.condition))
            λ t e.
              match_trace-ComesFrom r t category
                (targets_source-Targets r.sources event.source source)
                (evaluate_condition-Explains parsers event r.condition e))
  ]

  weaken :
      (r : DetectionRule) (rs : List DetectionRule) (m : DetectionMatch)
      → IsExplained rs m
      → IsExplained (r ∷ rs) m
  weaken r rs m h = record { rule = h.rule; among = inr h.among; comes = h.comes }

  append_match-All :
      (r : DetectionRule) (rs : List DetectionRule) (o : Option DetectionMatch)
      (ms : List DetectionMatch)
      → ComesOrNone r o
      → All (IsExplained (r ∷ rs)) ms
      → All (IsExplained (r ∷ rs)) (append_match o ms)
  append_match-All r rs none ms h hs = hs
  append_match-All r rs (some m) ms h hs = (record { rule = r; among = inl refl; comes = h }, hs)

  match_rules-IsExplained :
      (rs : List DetectionRule) → Ensures (All (IsExplained rs)) (match_rules parsers event rs)
  unfolding match_rules
  match_rules-IsExplained [] = Ensures-ok tt
  match_rules-IsExplained (r ∷ rs) = Ensures-bind (ComesOrNone r) (match_rule-ComesFrom r) λ o h.
      Ensures-bind (All (IsExplained rs)) (match_rules-IsExplained rs)
        λ ms hs. Ensures-ok (append_match-All r rs o ms h (All-map ms (weaken r rs) hs))

  ordered_rules-sorted :
      (rs : List DetectionRule) → Ensures (λ ordered. ordered ≡ sorted id_leb rs) (ordered_rules rs)
  unfolding ordered_rules
  ordered_rules-sorted rs =
      Ensures-bind Any (Any-holds (check_ids [] (sorted id_leb rs))) λ u h. Ensures-ok refl

  from_sorted :
      (rs : List DetectionRule) (m : DetectionMatch)
      → IsExplained (sorted id_leb rs) m
      → IsExplained rs m
  from_sorted rs m h = record {
    rule = h.rule;
    among = Among-perm h.rule (sorted-permᴰ id_leb rs) h.among;
    comes = h.comes;
  }

  -- Every match that `evaluate_event` returns, whatever the rules and the event, comes from one of the
  -- rules: it has the rule's identity, version and title and is of this event; the rule targets the
  -- event's category, and its source if the rule lists sources; and its trace is true and explains the
  -- rule's condition. That is, the trace has the condition's shape; each leaf shows the condition's
  -- field and operator and the value that the event has there, and its outcome is decided by presence,
  -- by the comparison of that value with the condition's operands, or unknown without a value; and each
  -- other node has the Kleene outcome of its children's outcomes.
  pub evaluate_event-IsExplained :
      (rules : List DetectionRule) (ms : List DetectionMatch)
      → evaluate_event parsers event rules ≡ ok ms
      → All (IsExplained rules) ms
  unfolding evaluate_event
  evaluate_event-IsExplained rules ms h =
      Ensures-eq-ok {P = All (IsExplained rules)}
        (Ensures-bind (λ ordered. ordered ≡ sorted id_leb rules) (ordered_rules-sorted rules)
          λ ordered same.
            Ensures-map (λ found hs. All-map found (from_sorted rules) (rw same at hs))
              (match_rules-IsExplained ordered))
        h
