-- ===== src/Detection/Errors.antt =====
-- backend/app/detection/errors.py: the controlled failures, and what a call may raise at all.
use soc_investigation_lab.Common.{String, Option, Result, ok, err}
use soc_investigation_lab.Python.Exceptions.{Exception}

-- `invalid_field field`, `incompatible field operator reason`, a plain `DetectionEvaluationError`
-- with its reason, and `engine_error reason rule_id`.
pub data EvaluationError : Type 0 where
  invalid_field : String → EvaluationError
  incompatible : String → String → String → EvaluationError
  evaluation_error : String → EvaluationError
  engine_error : String → Option String → EvaluationError

pub data Raised : Type 0 where
  controlled : EvaluationError → Raised
  uncontrolled : Exception → Raised

-- A call that raises built-in exceptions, or controlled ones, inside one that may raise both.
abbrev pub builtin {ℓ} : {A : Type ℓ} → Result Exception A → Result Raised A
builtin (ok a) = ok a
builtin (err e) = err (uncontrolled e)

abbrev pub checked {ℓ} : {A : Type ℓ} → Result EvaluationError A → Result Raised A
checked (ok a) = ok a
checked (err e) = err (controlled e)

-- `DetectionRuleFileError` with a path and a category, and `DuplicateDetectionRuleIdError` with an
-- identity and two paths.
pub data DetectionRuleLoadError : Type 0 where
  file_error : String → String → DetectionRuleLoadError
  duplicate_rule_id : String → String → String → DetectionRuleLoadError
