-- ===== src/Detection/Engine/Revalidation.antt =====
-- What the engine returns is evidence that an alert accepts.
use soc_investigation_lab.Common.{
  ◌≡◌, refl, true, Option, none, some, List, [], ◌∷◌, ok, ◌>>=◌, >>=-eq-ok, if-eq-ok, inl, inr,
  Bool-cases, ◌==◌, All, string_eq,
}
use soc_investigation_lab.Models.Event.{NormalizedEvent, validate_event}
use soc_investigation_lab.Models.Rule.{DetectionRule}
use soc_investigation_lab.Models.Trace.{ConditionTrace, evidence, true_outcome, outcome_eq}
use soc_investigation_lab.Models.Match.{DetectionMatch, validate_match}
use soc_investigation_lab.Models.Alert.Construct.{revalidate_match, validate_trace_tree}
use soc_investigation_lab.Detection.Errors.{controlled, engine_error}
use soc_investigation_lab.Detection.Semantics.{TextParsers}
use soc_investigation_lab.Detection.Evaluator.{evaluate_condition}
use soc_investigation_lab.Detection.Evaluator.Validated.{evaluate_condition-validated}
use soc_investigation_lab.Detection.Engine.{
  is_applicable, match_of, construct_match, match_trace, match_rule, match_rules, append_match,
  ordered_rules, evaluate_event,
}

-- The model of an alert would accept the match again.
abbrev pub IsEvidence : DetectionMatch → Type 0
IsEvidence m = revalidate_match m ≡ true

abbrev IsEvidenceOrNone : Option DetectionMatch → Type 0
IsEvidenceOrNone none = Unit
IsEvidenceOrNone (some m) = IsEvidence m

append_match-All :
    (o : Option DetectionMatch) (ms : List DetectionMatch)
    → IsEvidenceOrNone o
    → All IsEvidence ms
    → All IsEvidence (append_match o ms)
append_match-All none ms h hs = hs
append_match-All (some m) ms h hs = (h, hs)

module _ (parsers : TextParsers) (event : NormalizedEvent)
    (valid : validate_event event ≡ true) where
  construct_match-IsEvidence :
      (r : DetectionRule) (t : ConditionTrace) {m : DetectionMatch}
      → validate_trace_tree t ≡ true
      → construct_match event r t ≡ ok m
      → IsEvidence m
  unfolding construct_match revalidate_match
  construct_match-IsEvidence r t tree h =
      let (fine, same) =
        if-eq-ok (validate_match (match_of event r t)) (match_of event r t)
          (controlled (engine_error "invalid_match" (some r.id))) h in
      rw (← same, valid, tree, fine) refl

  match_trace-IsEvidence :
      (r : DetectionRule) (t : ConditionTrace) {o : Option DetectionMatch}
      → validate_trace_tree t ≡ true
      → match_trace event r t ≡ ok o
      → IsEvidenceOrNone o
  match_trace-IsEvidence r t {o} tree h = elim (Bool-cases ((evidence t).outcome == true_outcome)) [
    | inr other ↦
        let h : ok none ≡ ok o = rw other at h in let same : none ≡ o = cc in rw (← same) tt
    | inl holds ↦
        let (m, e, h) = >>=-eq-ok (construct_match event r t) (λ m. ok (some m)) (rw holds at h) in
        let same : some m ≡ o = cc in rw (← same) (construct_match-IsEvidence r t tree e)
  ]

  match_rule-IsEvidence :
      (r : DetectionRule) {o : Option DetectionMatch}
      → match_rule parsers event r ≡ ok o
      → IsEvidenceOrNone o
  unfolding match_rule
  match_rule-IsEvidence r {o} h = elim (Bool-cases (is_applicable event r)) [
    | inr apart ↦
        let h : ok none ≡ ok o = rw apart at h in let same : none ≡ o = cc in rw (← same) tt
    | inl applies ↦
        let (t, e, h) =
          >>=-eq-ok (evaluate_condition parsers event r.condition) (match_trace event r)
            (rw applies at h) in
        match_trace-IsEvidence r t (evaluate_condition-validated parsers event r.condition e) h
  ]

  match_rules-IsEvidence :
      (rs : List DetectionRule) {ms : List DetectionMatch}
      → match_rules parsers event rs ≡ ok ms
      → All IsEvidence ms
  unfolding match_rules
  match_rules-IsEvidence [] {ms} h = let same : [] ≡ ms = cc in rw (← same) tt
  match_rules-IsEvidence (r ∷ rs) {ms} h =
      let (o, e, h) =
        >>=-eq-ok (match_rule parsers event r)
          (λ o. do rest ← match_rules parsers event rs; ok (append_match o rest)) h in
      let (rest, es, h) =
        >>=-eq-ok (match_rules parsers event rs) (λ rest. ok (append_match o rest)) h in
      let same : append_match o rest ≡ ms = cc in
      rw (← same)
        (append_match-All o rest (match_rule-IsEvidence r e) (match_rules-IsEvidence rs es))

  -- For the creation of alerts: every match passes the Boolean validators that an alert runs again.
  pub evaluate_event-IsEvidence :
      (rules : List DetectionRule) (ms : List DetectionMatch)
      → evaluate_event parsers event rules ≡ ok ms
      → All IsEvidence ms
  unfolding evaluate_event
  evaluate_event-IsEvidence rules ms h =
      let (ordered, e, h) = >>=-eq-ok (ordered_rules rules) (match_rules parsers event) h in
      match_rules-IsEvidence ordered h
