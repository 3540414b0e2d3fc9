-- ===== src/Detection/Engine/Matches.antt =====
-- The matches of valid rules against a valid event.
use mathlib.Core.List.{Permᴰ}
use mathlib.Core.List.Permᴰ
use soc_investigation_lab.Common.{
  String, ◌≡◌, refl, sym, ap, ap₂, ◌∙◌, Bool, true, false, ◌&&◌, ◌||◌, not, Option, none, some,
  List, [], ◌∷◌, Result, ok, err, inl, inr, ◌⊎◌, ◌==◌, string_eq, member, is_unique, Bool-cases,
  All, All-perm, keep-true, keep-false, and-eq-true, keep,
}
use soc_investigation_lab.Python.Int.{ltb_ℤ, pos}
use soc_investigation_lab.Python.Sorted.{sorted}
use soc_investigation_lab.Python.Sorted.Laws.{sorted-permᴰ}
use soc_investigation_lab.Models.Event.{
  NormalizedEvent, validate_context_matches_category, category_eq, source_eq,
}
use soc_investigation_lab.Models.Condition.{validate_tree, uses_source_data, measure}
use soc_investigation_lab.Models.Rule.{
  DetectionRule, validate_rule, is_empty, has_sources, valid_sources, within_limits, is_slug,
  is_blank,
}
use soc_investigation_lab.Models.Trace.{ConditionTrace, evidence, true_outcome, outcome_eq}
use soc_investigation_lab.Models.Match.{DetectionMatch, validate_match}
use soc_investigation_lab.Detection.Errors.{Raised, controlled, engine_error}
use soc_investigation_lab.Detection.Semantics.{
  TextParsers, validate_node, validate_detection_rule_semantics,
}
use soc_investigation_lab.Detection.Evaluator.Resolution.{IsReadable}
use soc_investigation_lab.Detection.Evaluator.Totality.{evaluate_condition-total}
use soc_investigation_lab.Detection.Evaluator.Kleene.{kleene_value}
use soc_investigation_lab.Detection.Evaluator.Meaning.{evaluate_condition-outcome}
use soc_investigation_lab.Detection.Engine.{
  id_leb, is_applicable, match_of, construct_match, match_trace, match_rule, match_rules,
  evaluate_event,
}
use soc_investigation_lab.Detection.Engine.Order.{
  ids, ordered_rules_unique, ordered_rules_duplicate, sorted-ids-perm,
}

-- What the engine needs of a rule that the model accepted.
record Parts (r : DetectionRule) : Type 0 where
  version : ltb_ℤ (pos 0) r.version ≡ true
  tree : validate_tree r.condition ≡ true
  slug : is_slug r.id ≡ true
  title : not (is_blank r.title) ≡ true

validate_rule-Parts : (r : DetectionRule) → validate_rule r ≡ true → Parts r
unfolding validate_rule
validate_rule-Parts r h =
    let (h, retained) =
      and-eq-true _ (not (uses_source_data r.condition) || has_sources r.sources) h in
    let (h, limits) = and-eq-true _ (within_limits (measure r.condition)) h in
    let (h, sources) = and-eq-true _ (valid_sources r.sources) h in
    let (h, unique) = and-eq-true _ (is_unique r.categories) h in
    let (h, description) = and-eq-true _ (not (is_blank r.description)) h in
    let (h, title) = and-eq-true _ (not (is_blank r.title)) h in
    let (h, slug) = and-eq-true _ (is_slug r.id) h in
    let (h, tree) = and-eq-true _ (validate_tree r.condition) h in
    let (version, targeted) = and-eq-true _ (not (is_empty r.categories)) h in
    record { version = version; tree = tree; slug = slug; title = title }

-- A rule that the model and the semantic checks accept.
pub record IsRule (parsers : TextParsers) (r : DetectionRule) : Type 0 where
  pub valid : validate_rule r ≡ true
  pub checks : validate_detection_rule_semantics parsers r ≡ ok tt

validate_match-match_of :
    (event : NormalizedEvent) (r : DetectionRule) (t : ConditionTrace)
    → Parts r
    → (evidence t).outcome ≡ true_outcome
    → (evidence t).location ≡ "$"
    → validate_match (match_of event r t) ≡ true
unfolding validate_match
validate_match-match_of event r t p o at = rw (p.version, p.slug, p.title, o, at) refl

-- `[match.rule_id for match in matches]`
abbrev pub rule_ids : List DetectionMatch → List String
rule_ids [] = []
rule_ids (m ∷ ms) = m.rule_id ∷ rule_ids ms

module _ (parsers : TextParsers) (event : NormalizedEvent)
    (same : validate_context_matches_category event ≡ true)
    (readable : IsReadable event.timestamp) where
  -- The rules that match: they target the event, and their condition is true of it.
  abbrev pub is_match : DetectionRule → Bool
  is_match r = is_applicable event r && kleene_value parsers event r.condition == true_outcome

  -- What the engine makes of a rule.
  abbrev Matched : DetectionRule → Result Raised (Option DetectionMatch) → Type 0
  Matched r result =
      ((is_match r ≡ false) × (result ≡ ok none))
      ⊎ ((is_match r ≡ true)
          × ((m : DetectionMatch) × (result ≡ ok (some m))
              × (m.rule_id ≡ r.id)
              × (validate_match m ≡ true)
              × (m.event ≡ event)))

  is_applicable-member :
      (r : DetectionRule) → is_applicable event r ≡ true → member event.category r.categories ≡ true
  unfolding is_applicable
  is_applicable-member r h = (and-eq-true _ _ h).0

  checks-node :
      (r : DetectionRule)
      → IsRule parsers r
      → validate_node parsers r.categories r.sources r.condition ≡ ok tt
  unfolding validate_detection_rule_semantics
  checks-node r v = v.checks

  construct_match-ok :
      (r : DetectionRule) (t : ConditionTrace)
      → validate_match (match_of event r t) ≡ true
      → construct_match event r t ≡ ok (match_of event r t)
  unfolding construct_match
  construct_match-ok r t v = rw v refl

  match_trace-true :
      (r : DetectionRule) (t : ConditionTrace)
      → Parts r
      → (evidence t).outcome ≡ true_outcome
      → (evidence t).location ≡ "$"
      → match_trace event r t ≡ ok (some (match_of event r t))
  match_trace-true r t p o at =
      rw (o, construct_match-ok r t (validate_match-match_of event r t p o at)) refl

  match_rule-Matched :
      (r : DetectionRule) → IsRule parsers r → Matched r (match_rule parsers event r)
  unfolding match_rule
  match_rule-Matched r v = elim (Bool-cases (is_applicable event r)) [
    | inr apart ↦ inl (rw apart refl, rw apart refl)
    | inl applies ↦
        let p = validate_rule-Parts r v.valid in
        let (t, e, at) =
          evaluate_condition-total parsers event same readable r.categories r.sources
            (is_applicable-member r applies) r.condition p.tree (checks-node r v) in
        let value = evaluate_condition-outcome parsers event r.condition e in
        elim (Bool-cases ((evidence t).outcome == true_outcome)) [
          | inl holds ↦
              let o = (outcome_eq.beq_iff (evidence t).outcome true_outcome).0 holds in
              inr (
                rw (applies, ← value) holds,
                (
                  match_of event r t,
                  rw (applies, e) (match_trace-true r t p o at),
                  refl,
                  validate_match-match_of event r t p o at,
                  refl,
                ),
              )
          | inr fails ↦ inl (rw (applies, ← value) fails, rw (applies, e, fails) refl)
        ]
  ]

  -- A match that the model accepts, of this event.
  abbrev pub IsMatch : DetectionMatch → Type 0
  IsMatch m = (validate_match m ≡ true) × (m.event ≡ event)

  -- The matches of a list of rules, in their order.
  abbrev MatchedAll : List DetectionRule → Result Raised (List DetectionMatch) → Type 0
  MatchedAll rs result =
      (ms : List DetectionMatch) × (result ≡ ok ms)
      × (rule_ids ms ≡ ids (keep is_match rs))
      × All IsMatch ms

  match_rules-MatchedAll :
      (rs : List DetectionRule)
      → All (IsRule parsers) rs
      → MatchedAll rs (match_rules parsers event rs)
  unfolding match_rules
  match_rules-MatchedAll [] vs = ([], refl, refl, tt)
  match_rules-MatchedAll (r ∷ rs) (v, vs) =
      let (ms, e, names, fine) = match_rules-MatchedAll rs vs in
      elim (match_rule-Matched r v) [
        | inl (fails, result) ↦
            (ms, rw (result, e) refl, names ∙ sym (ap ids (keep-false is_match r rs fails)), fine)
        | inr (holds, (m, result, name, valid, at)) ↦ (
          m ∷ ms,
          rw (result, e) refl,
          ap₂ ◌∷◌ name names ∙ sym (ap ids (keep-true is_match r rs holds)),
          ((valid, at), fine),
        )
      ]

  -- For an event whose context is of its category and whose timestamp UTC can show, and rules that
  -- the model and the semantic checks accept and whose identities are different, `evaluate_event`
  -- returns a list of matches without an error: exactly one for each rule that targets the event's
  -- category and source and whose condition has the three-valued value true, in ascending order of
  -- the rules' identities, each a match that its model accepts and of this event.
  pub evaluate_event-matches :
      (rules : List DetectionRule)
      → All (IsRule parsers) rules
      → is_unique (ids rules) ≡ true
      → (ms : List DetectionMatch) × (evaluate_event parsers event rules ≡ ok ms)
        × (rule_ids ms ≡ ids (keep is_match (sorted id_leb rules)))
        × All IsMatch ms
  unfolding evaluate_event
  evaluate_event-matches rules vs unique =
      let (ms, e, names, fine) =
        match_rules-MatchedAll (sorted id_leb rules)
          (All-perm (IsRule parsers) (Permᴰ.symm (sorted-permᴰ id_leb rules)) vs) in
      (ms, rw (ordered_rules_unique rules unique) e, names, fine)

module _ (parsers : TextParsers) (event : NormalizedEvent) where
  -- For rules with different identities, `evaluate_event` gives the same result, a list of matches
  -- or an error, whatever the order in which the rules come, also where the rules or the event would
  -- not pass their checks.
  pub evaluate_event-perm :
      {rs ss : List DetectionRule}
      → Permᴰ rs ss
      → is_unique (ids rs) ≡ true
      → evaluate_event parsers event rs ≡ evaluate_event parsers event ss
  unfolding evaluate_event
  evaluate_event-perm {rs} {ss} p unique =
      let (unique', same) = sorted-ids-perm p unique in
      rw (ordered_rules_unique rs unique, ordered_rules_unique ss unique', same) refl

  -- If an identity is repeated anywhere in the rules, `evaluate_event` fails with
  -- `duplicate_rule_id` before any rule is evaluated, so that no other error of a rule and no match is
  -- reported.
  pub evaluate_event-duplicate :
      (rules : List DetectionRule)
      → is_unique (ids rules) ≡ false
      → (id : String) × (evaluate_event parsers event rules
          ≡ err (controlled (engine_error "duplicate_rule_id" (some id))))
  unfolding evaluate_event
  evaluate_event-duplicate rules repeated =
      let (id, e) = ordered_rules_duplicate rules repeated in (id, rw e refl)
