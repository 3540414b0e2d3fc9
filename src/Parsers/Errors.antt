-- ===== src/Parsers/Errors.antt =====
-- backend/app/parsers/errors.py, and what a parser may raise at all.
use soc_investigation_lab.Common.{ℕ, String, Option, none, some, Result, ok, err}
use soc_investigation_lab.Python.Exceptions.{Exception}

-- The classes with their messages. The identities of an unsupported event stand in its message.
pub data ParserError : Type 0 where
  malformed_event_xml : ParserError
  invalid_raw_event : String → ParserError
  unsupported_provider : String → ParserError
  unsupported_event_id : ℕ → String → ParserError
  unsupported_identity : String → String → ℕ → ParserError
  invalid_normalized_event : String → ParserError

-- A controlled error, or a built-in exception that the parsers do not catch.
pub data Raised : Type 0 where
  controlled : ParserError → Raised
  uncontrolled : Exception → Raised

-- `raise` of an error where a value is missing.
abbrev pub or_raise {ℓ} : {A : Type ℓ} → ParserError → Option A → Result Raised A
or_raise e (some a) = ok a
or_raise e none = err (controlled e)
