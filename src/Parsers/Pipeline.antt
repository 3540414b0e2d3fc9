-- ===== src/Parsers/Pipeline.antt =====
-- backend/app/parsers/pipeline.py: a document to a normalized event.
pub mod Handling
use soc_investigation_lab.Common.{String, Option, Result, ◌>>=◌}
use soc_investigation_lab.Python.Datetime.{Datetime}
use soc_investigation_lab.Python.Address.{Address}
use soc_investigation_lab.Models.Event.{NormalizedEvent}
use soc_investigation_lab.Parsers.Errors.{Raised}
use soc_investigation_lab.Parsers.Xml.{Element}
use soc_investigation_lab.Parsers.WindowsEvent.{parse_windows_event_xml}
use soc_investigation_lab.Parsers.Registry.{get_event_normalizer, apply_normalizer}

-- The parsers of the standard library: `none` is a ParseError of `ElementTree.fromstring` and a
-- ValueError of the others.
pub record DocumentParsers : Type 0 where
  pub fromstring : String → Option Element
  pub fromisoformat : String → Option Datetime
  pub ip_address : String → Option Address

module _ (parsers : DocumentParsers) where
  unfoldable pub normalize_windows_event_xml : String → Result Raised NormalizedEvent
  normalize_windows_event_xml xml = do
    raw ← parse_windows_event_xml parsers.fromstring parsers.fromisoformat xml
    normalizer ← get_event_normalizer raw
    apply_normalizer parsers.ip_address normalizer raw
