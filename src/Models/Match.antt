-- ===== src/Models/Match.antt =====
-- backend/app/models/detection.py, `DetectionMatch`.
use soc_investigation_lab.Common.{
  String, Bool, ◌&&◌, not, Result, ok, err, ◌==◌, string_eq, if◌then◌else◌,
}
use soc_investigation_lab.Python.Exceptions.{Exception, validation_error}
use soc_investigation_lab.Python.Int.{ℤ, pos, ltb_ℤ}
use soc_investigation_lab.Models.Event.{NormalizedEvent}
use soc_investigation_lab.Models.Rule.{is_slug, is_blank}
use soc_investigation_lab.Models.Trace.{
  ConditionOutcome, true_outcome, outcome_eq, ConditionTrace, evidence,
}

pub record DetectionMatch : Type 0 where
  pub rule_id : String
  pub rule_version : ℤ
  pub rule_title : String
  pub event : NormalizedEvent
  pub root_outcome : ConditionOutcome
  pub trace : ConditionTrace

-- Whether `DetectionMatch(...)` accepts the fields.
unfoldable pub validate_match : DetectionMatch → Bool
unfolding is_slug is_blank
validate_match m =
    ltb_ℤ (pos 0) m.rule_version
    && is_slug m.rule_id
    && not (is_blank m.rule_title)
    && m.root_outcome == true_outcome
    && (evidence m.trace).outcome == true_outcome
    && (evidence m.trace).location == "$"

-- `DetectionMatch(...)`
unfoldable pub detection_match : DetectionMatch → Result Exception DetectionMatch
detection_match m = if validate_match m then ok m else err validation_error
