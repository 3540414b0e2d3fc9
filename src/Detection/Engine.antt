-- ===== src/Detection/Engine.antt =====
-- backend/app/detection/engine.py: the rules of a collection against one event. The items of the
-- collection are rules and the event is an event by their types, so that the errors
-- `invalid_rule_collection`, `invalid_rule_item` and `invalid_event` do not arise.
pub mod Order
pub mod Matches
pub mod Revalidation
pub mod Explained
use soc_investigation_lab.Common.{
  String, Bool, true, ◌&&◌, Option, none, some, List, [], ◌∷◌, Result, ok, err, ◌>>=◌, ◌==◌,
  string_eq, member, if◌then◌else◌,
}
use soc_investigation_lab.Python.Text.{text_leb}
use soc_investigation_lab.Python.Sorted.{sorted}
use soc_investigation_lab.Models.Event.{NormalizedEvent, EventSource, category_eq, source_eq}
use soc_investigation_lab.Models.Rule.{DetectionRule, Sources, only}
use soc_investigation_lab.Models.Trace.{true_outcome, outcome_eq, ConditionTrace, evidence}
use soc_investigation_lab.Models.Match.{DetectionMatch, validate_match}
use soc_investigation_lab.Detection.Errors.{engine_error, Raised, controlled}
use soc_investigation_lab.Detection.Semantics.{TextParsers}
use soc_investigation_lab.Detection.Evaluator.{evaluate_condition}

-- `sorted(snapshot, key=lambda rule: rule.id)`
abbrev pub id_leb : DetectionRule → DetectionRule → Bool
id_leb a b = text_leb a.id b.id

-- The loop over the ordered rules, with the identities seen so far.
unfoldable pub check_ids : List String → List DetectionRule → Result Raised (Unit {0})
check_ids seen [] = ok tt
check_ids seen (rule ∷ rules) =
    if member rule.id seen
    then err (controlled (engine_error "duplicate_rule_id" (some rule.id)))
    else check_ids (rule.id ∷ seen) rules

unfoldable pub ordered_rules : List DetectionRule → Result Raised (List DetectionRule)
ordered_rules rules = do
  let ordered = sorted id_leb rules
  checked ← check_ids [] ordered
  ok ordered

abbrev pub targets_source : Sources → EventSource → Bool
targets_source (only ss) source = member source ss
targets_source _ source = true

-- Whether the rule targets the event's category and source.
unfoldable pub is_applicable : NormalizedEvent → DetectionRule → Bool
is_applicable event rule =
    member event.category rule.categories && targets_source rule.sources event.source

-- The match of a rule and its true trace.
abbrev pub match_of : NormalizedEvent → DetectionRule → ConditionTrace → DetectionMatch
match_of event rule t = record {
  rule_id = rule.id;
  rule_version = rule.version;
  rule_title = rule.title;
  event = event;
  root_outcome = true_outcome;
  trace = t;
}

-- `DetectionMatch(...)`, with the engine's error for a match that does not validate.
unfoldable pub construct_match :
    NormalizedEvent → DetectionRule → ConditionTrace → Result Raised DetectionMatch
construct_match event rule t =
    if validate_match (match_of event rule t)
    then ok (match_of event rule t)
    else err (controlled (engine_error "invalid_match" (some rule.id)))

-- A match for a true trace, and none for another.
abbrev pub match_trace :
    NormalizedEvent → DetectionRule → ConditionTrace → Result Raised (Option DetectionMatch)
match_trace event rule t =
    if (evidence t).outcome == true_outcome
    then (do m ← construct_match event rule t; ok (some m))
    else ok none

abbrev pub append_match : Option DetectionMatch → List DetectionMatch → List DetectionMatch
append_match none ms = ms
append_match (some m) ms = m ∷ ms

module _ (parsers : TextParsers) (event : NormalizedEvent) where
  -- What one rule contributes: nothing, if it does not apply.
  unfoldable pub match_rule : DetectionRule → Result Raised (Option DetectionMatch)
  match_rule rule =
      if is_applicable event rule
      then (do t ← evaluate_condition parsers event rule.condition; match_trace event rule t)
      else ok none

  -- The loop: the matches in the order of the rules, or the first error.
  unfoldable pub match_rules : List DetectionRule → Result Raised (List DetectionMatch)
  match_rules [] = ok []
  match_rules (rule ∷ rules) = do
    m ← match_rule rule
    ms ← match_rules rules
    ok (append_match m ms)

  unfoldable pub evaluate_event : List DetectionRule → Result Raised (List DetectionMatch)
  evaluate_event rules = do ordered ← ordered_rules rules; match_rules ordered
