-- ===== src/Workflow.antt =====
-- The components together: a document of backend/app/parsers/pipeline.py becomes an event, the engine
-- of backend/app/detection/engine.py finds its matches, and backend/app/alerts/creation.py makes
-- alerts of them.
use soc_investigation_lab.Common.{
  ℕ, String, ◌≡◌, refl, ◌&&◌, true, false, Option, some, List, [], ◌∷◌, ok, and-eq-true, All,
  is_unique, string_eq, ◌==◌, keep,
}
use soc_investigation_lab.Python.Datetime.{Datetime, Zone, utc, is_utc, has_offset, astimezone_utc}
use soc_investigation_lab.Python.Sorted.{sorted}
use soc_investigation_lab.Python.Value.{Value, string}
use soc_investigation_lab.Models.Event.{
  NormalizedEvent, validate_event, validate_context_matches_category, valid_event_fields,
  valid_context,
}
use soc_investigation_lab.Models.Rule.{DetectionRule}
use soc_investigation_lab.Models.Match.{DetectionMatch}
use soc_investigation_lab.Models.Alert.{AlertSeverity, AlertPriority}
use soc_investigation_lab.Models.Alert.Construct.{
  accepted, valid_alert_id, require_aware_utc_instant,
}
use soc_investigation_lab.Models.Alert.Construct.Laws.{IsValid}
use soc_investigation_lab.Detection.Semantics.{TextParsers}
use soc_investigation_lab.Detection.Evaluator.Resolution.{IsReadable}
use soc_investigation_lab.Models.Trace.{true_outcome, outcome_eq}
use soc_investigation_lab.Detection.Evaluator.Kleene.{kleene_value}
use soc_investigation_lab.Detection.Engine.{evaluate_event, id_leb, is_applicable}
use soc_investigation_lab.Detection.Engine.Order.{ids}
use soc_investigation_lab.Detection.Engine.Matches.{
  IsRule, IsMatch, rule_ids, evaluate_event-matches,
}
use soc_investigation_lab.Detection.Engine.Revalidation.{IsEvidence, evaluate_event-IsEvidence}
use soc_investigation_lab.Python.FilePath.{FilePath}
use soc_investigation_lab.Detection.Loader.Files.{FileSystem}
use soc_investigation_lab.Detection.Loader.Documents.{RuleDocuments}
use soc_investigation_lab.Detection.Loader.Library.{load_detection_rules-AreRules}
use soc_investigation_lab.Detection.Loader.{load_detection_rules}
use soc_investigation_lab.Alerts.Creation.{create_alert}
use soc_investigation_lab.Alerts.Creation.Laws.{created, create_alert-created}
use soc_investigation_lab.Parsers.WindowsEvent.Handling.{HasFixedOffset}
use soc_investigation_lab.Parsers.Pipeline.{DocumentParsers, normalize_windows_event_xml}
use soc_investigation_lab.Parsers.Pipeline.Handling.{
  IsSupported, normalize_windows_event_xml-IsSupported,
}

utc-IsReadable : (d : Datetime) (z : Option Zone) → d.tzinfo ≡ z → is_utc d ≡ true → IsReadable d
unfolding has_offset astimezone_utc
utc-IsReadable d (some utc) e h = record { offset = rw e refl; in_utc = d; converts = rw e refl }
utc-IsReadable d _ e h = let lost : false ≡ true = rw e at h in cc

pub IsSupported-IsReadable : {e : NormalizedEvent} → IsSupported e → IsReadable e.timestamp
IsSupported-IsReadable {e} s = utc-IsReadable e.timestamp e.timestamp.tzinfo refl s.in_utc

pub IsSupported-same_category :
    {e : NormalizedEvent} → IsSupported e → validate_context_matches_category e ≡ true
unfolding validate_event
IsSupported-same_category {e} s =
    (and-eq-true (valid_event_fields e && valid_context e.context)
      (validate_context_matches_category e) s.valid).1

-- The alert that is made of a match, which is valid.
abbrev pub BecomesAlert :
    NormalizedEvent
    → String
    → Value
    → Datetime
    → AlertSeverity
    → AlertPriority
    → DetectionMatch
    → Type 0
BecomesAlert e id at u s p m =
    (m.event ≡ e)
    × (create_alert (some m) (string id) at (some s) (some p) ≡ ok (created m id u s p))
    × IsValid (created m id u s p)

module _ (texts : TextParsers) (e : NormalizedEvent)
    (same : validate_context_matches_category e ≡ true) (readable : IsReadable e.timestamp)
    (id : String) (at : Value) (u : Datetime) (s : AlertSeverity) (p : AlertPriority)
    (identity : valid_alert_id id ≡ true)
    (instant : require_aware_utc_instant at ≡ accepted u) where
  All-BecomesAlert :
      (ms : List DetectionMatch)
      → All (IsMatch texts e same readable) ms
      → All IsEvidence ms
      → All (BecomesAlert e id at u s p) ms
  All-BecomesAlert [] hs ks = tt
  All-BecomesAlert (m ∷ ms) ((fine, of_event), hs) (k, ks) =
      let (made, valid) = create_alert-created m id at u s p k identity instant in
      ((of_event, made, valid), All-BecomesAlert ms hs ks)

-- An event of the pipeline and checked rules with different identities: the engine's matches, and an
-- alert of each.
normalize-evaluate-create :
    (documents : DocumentParsers)
    (fixed : (text : String) (d : Datetime)
      → documents.fromisoformat text ≡ some d
      → HasFixedOffset d)
    (texts : TextParsers) (xml : String) (e : NormalizedEvent)
    (made : normalize_windows_event_xml documents xml ≡ ok e) (rules : List DetectionRule)
    (checked : All (IsRule texts) rules) (unique : is_unique (ids rules) ≡ true) (id : String)
    (at : Value) (u : Datetime) (s : AlertSeverity) (p : AlertPriority)
    (identity : valid_alert_id id ≡ true) (instant : require_aware_utc_instant at ≡ accepted u)
    → (ms : List DetectionMatch) × (evaluate_event texts e rules ≡ ok ms)
      × (rule_ids ms
          ≡ ids (
              keep
                (λ r. is_applicable e r && kleene_value texts e r.condition == true_outcome)
                (sorted id_leb rules)))
      × All (BecomesAlert e id at u s p) ms
normalize-evaluate-create documents fixed texts xml e made rules checked unique id at u s p identity
      instant =
    let supported = normalize_windows_event_xml-IsSupported documents fixed xml e made in
    let same = IsSupported-same_category supported in
    let readable = IsSupported-IsReadable supported in
    let (ms, returned, names, fine) =
      evaluate_event-matches texts e same readable rules checked unique in
    let evidence = evaluate_event-IsEvidence texts e supported.valid rules ms returned in
    (
      ms,
      returned,
      names,
      All-BecomesAlert texts e same readable id at u s p identity instant ms fine evidence,
    )

-- Take rules that `load_detection_rules` loaded, from any file system; an event that the pipeline made
-- of a document, with a parser of datetimes whose datetimes are without a zone or have a fixed offset;
-- a slug of 1 to 128 characters; and a timestamp that an alert accepts. Then the engine returns
-- without an error exactly one match for each rule that targets the event and whose condition is true
-- of it, in ascending order of identity, and the creation of an alert from each match succeeds with a
-- valid new alert whose evidence is that match, of that event.
pub load-normalize-evaluate-create :
    {D : Type 0} (fs : FileSystem) (yaml : RuleDocuments D) (texts : TextParsers) (fuel : ℕ)
    (rule_root : FilePath) (rules : List DetectionRule)
    (loaded : load_detection_rules fs yaml texts fuel rule_root ≡ ok rules)
    (documents : DocumentParsers)
    (fixed : (text : String) (d : Datetime)
      → documents.fromisoformat text ≡ some d
      → HasFixedOffset d)
    (xml : String) (e : NormalizedEvent) (made : normalize_windows_event_xml documents xml ≡ ok e)
    (id : String) (at : Value) (u : Datetime) (s : AlertSeverity) (p : AlertPriority)
    (identity : valid_alert_id id ≡ true) (instant : require_aware_utc_instant at ≡ accepted u)
    → (ms : List DetectionMatch) × (evaluate_event texts e rules ≡ ok ms)
      × (rule_ids ms
          ≡ ids (
              keep
                (λ r. is_applicable e r && kleene_value texts e r.condition == true_outcome)
                (sorted id_leb rules)))
      × All (BecomesAlert e id at u s p) ms
load-normalize-evaluate-create fs yaml texts fuel rule_root rules loaded documents fixed xml e made
      id at u s p identity instant =
    let (checked, unique) =
      load_detection_rules-AreRules fs yaml texts fuel rule_root rules loaded in
    normalize-evaluate-create documents fixed texts xml e made rules checked unique id at u s p
      identity instant
