-- ===== src/Tests/Workflow.antt =====
-- The components together, at a concrete document and library.
use soc_investigation_lab.Common.{◌≡◌, refl, ◌&&◌, true, List, [], ◌∷◌, ok, ◌==◌, All, keep}
use soc_investigation_lab.Python.Sorted.{sorted}
use soc_investigation_lab.Models.Alert.{unassigned, normal}
use soc_investigation_lab.Models.Alert.Construct.{
  valid_alert_id, require_aware_utc_instant, accepted,
}
use soc_investigation_lab.Models.Match.{DetectionMatch}
use soc_investigation_lab.Models.Trace.{true_outcome, outcome_eq}
use soc_investigation_lab.Python.Datetime.{has_offset, astimezone_utc}
use soc_investigation_lab.Detection.Evaluator.Kleene.{kleene_value}
use soc_investigation_lab.Detection.Engine.{evaluate_event, id_leb, is_applicable}
use soc_investigation_lab.Detection.Engine.Order.{ids}
use soc_investigation_lab.Detection.Engine.Matches.{rule_ids}
use soc_investigation_lab.Tests.{parsers, later_value, later, inside_rule, tcp_rule}
use soc_investigation_lab.Tests.Documents.{
  document_parsers, normalized_event, file_system, rule_documents, root,
}
use soc_investigation_lab.Tests.Parsers.{document_parsers-HasFixedOffset, document-normalizes}
use soc_investigation_lab.Tests.Loader.{library-loads}
use soc_investigation_lab.Workflow.{BecomesAlert, load-normalize-evaluate-create}

slug : valid_alert_id "case-7" ≡ true
unfolding valid_alert_id
slug = refl

later-accepted : require_aware_utc_instant later_value ≡ accepted later
unfolding require_aware_utc_instant has_offset astimezone_utc
later-accepted = refl

load-normalize-evaluate-create_example :
    (ms : List DetectionMatch) × (evaluate_event parsers normalized_event
        (tcp_rule ∷ inside_rule ∷ [])
      ≡ ok ms)
    × (rule_ids ms
        ≡ ids (
            keep
              (λ r.
                is_applicable normalized_event r
                && kleene_value parsers normalized_event r.condition == true_outcome)
              (sorted id_leb (tcp_rule ∷ inside_rule ∷ []))))
    × All (BecomesAlert normalized_event "case-7" later_value later unassigned normal) ms
load-normalize-evaluate-create_example =
    load-normalize-evaluate-create file_system rule_documents parsers 3 root
      (tcp_rule ∷ inside_rule ∷ []) library-loads document_parsers document_parsers-HasFixedOffset
      "<Event/>" normalized_event document-normalizes "case-7" later_value later unassigned normal
      slug later-accepted
