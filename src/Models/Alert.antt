-- ===== src/Models/Alert.antt =====
-- backend/app/models/alert.py: the enumerations and the alert. Its validation is in the child module.
pub mod Construct
use soc_investigation_lab.Common.{ℕ, String, ◌≡◌, ◌↔◌, Bool, true, eqb, arith, Eq}
use soc_investigation_lab.Python.Datetime.{Datetime}
use soc_investigation_lab.Models.Match.{DetectionMatch}

pub data AlertState : Type 0 where
  new acknowledged closed : AlertState

pub data AlertSeverity : Type 0 where
  unassigned informational low medium high critical : AlertSeverity

pub data AlertPriority : Type 0 where
  low normal high urgent : AlertPriority

abbrev pub state_index : AlertState → ℕ
state_index new = 0
state_index acknowledged = 1
state_index closed = 2

abbrev pub severity_index : AlertSeverity → ℕ
severity_index unassigned = 0
severity_index informational = 1
severity_index AlertSeverity.low = 2
severity_index medium = 3
severity_index AlertSeverity.high = 4
severity_index critical = 5

abbrev pub priority_index : AlertPriority → ℕ
priority_index AlertPriority.low = 0
priority_index normal = 1
priority_index AlertPriority.high = 2
priority_index urgent = 3

pub state_eq_iff : (a b : AlertState) → (eqb (state_index a) (state_index b) ≡ true) ↔ (a ≡ b)
state_eq_iff a b = ground arith

pub severity_eq_iff :
    (a b : AlertSeverity) → (eqb (severity_index a) (severity_index b) ≡ true) ↔ (a ≡ b)
severity_eq_iff a b = ground arith

pub priority_eq_iff :
    (a b : AlertPriority) → (eqb (priority_index a) (priority_index b) ≡ true) ↔ (a ≡ b)
priority_eq_iff a b = ground arith

instance abbrev pub state_eq : Eq AlertState
state_eq = record { beq = λ a b. eqb (state_index a) (state_index b); beq_iff = state_eq_iff }

instance abbrev pub severity_eq : Eq AlertSeverity
severity_eq = record {
  beq = λ a b. eqb (severity_index a) (severity_index b);
  beq_iff = severity_eq_iff;
}

instance abbrev pub priority_eq : Eq AlertPriority
priority_eq = record {
  beq = λ a b. eqb (priority_index a) (priority_index b);
  beq_iff = priority_eq_iff;
}

pub record Alert : Type 0 where
  pub alert_id : String
  pub source_match : DetectionMatch
  pub created_at : Datetime
  pub state : AlertState
  pub state_changed_at : Datetime
  pub severity : AlertSeverity
  pub priority : AlertPriority
  pub updated_at : Datetime
