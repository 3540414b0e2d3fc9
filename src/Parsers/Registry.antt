-- ===== src/Parsers/Registry.antt =====
-- backend/app/parsers/registry.py: the normalizer of a raw event by its provider and number.
pub mod Provenance
pub mod Identities
use soc_investigation_lab.Common.{
  ℕ, String, Bool, true, false, not, ◌&&◌, ◌||◌, Option, none, some, List, [], ◌∷◌, Result, ok, err,
  eqb, any_of, ◌==◌, string_eq, if◌then◌else◌,
}
use soc_investigation_lab.Python.Address.{Address}
use soc_investigation_lab.Models.Event.{NormalizedEvent}
use soc_investigation_lab.Models.Raw.{RawWindowsEvent}
use soc_investigation_lab.Parsers.Errors.{
  unsupported_provider, unsupported_event_id, Raised, controlled,
}
use soc_investigation_lab.Parsers.Sysmon.{normalize_sysmon_event}
use soc_investigation_lab.Parsers.WindowsSecurity.{normalize_windows_security_event}

-- The functions of the registry, by name.
pub data EventNormalizer : Type 0 where
  security_normalizer sysmon_normalizer : EventNormalizer

abbrev pub security_provider : String
security_provider = "Microsoft-Windows-Security-Auditing"

abbrev pub sysmon_provider : String
sysmon_provider = "Microsoft-Windows-Sysmon"

abbrev pub registry : List ((String × ℕ) × EventNormalizer)
registry =
    ((security_provider, 4624), security_normalizer)
    ∷ ((security_provider, 4625), security_normalizer)
    ∷ ((security_provider, 4688), security_normalizer)
    ∷ ((sysmon_provider, 1), sysmon_normalizer)
    ∷ ((sysmon_provider, 3), sysmon_normalizer)
    ∷ ((sysmon_provider, 11), sysmon_normalizer)
    ∷ ((sysmon_provider, 22), sysmon_normalizer)
    ∷ []

-- `EVENT_NORMALIZER_REGISTRY.get((provider, event_id))`
unfoldable pub find_normalizer :
    String → ℕ → List ((String × ℕ) × EventNormalizer) → Option EventNormalizer
find_normalizer provider event_id [] = none
find_normalizer provider event_id (((p, id), normalizer) ∷ entries) =
    if provider == p && eqb event_id id
    then some normalizer
    else find_normalizer provider event_id entries

abbrev pub is_supported_provider : String → Bool
is_supported_provider provider = any_of (λ entry. provider == entry.0.0) registry

-- The result of the lookup, with the error for what is not registered.
abbrev pub or_unsupported : RawWindowsEvent → Option EventNormalizer → Result Raised EventNormalizer
or_unsupported raw (some normalizer) = ok normalizer
or_unsupported raw none =
    if not (is_supported_provider raw.provider)
    then err (controlled (unsupported_provider raw.provider))
    else err (controlled (unsupported_event_id raw.event_id raw.provider))

unfoldable pub get_event_normalizer : RawWindowsEvent → Result Raised EventNormalizer
get_event_normalizer raw = or_unsupported raw (find_normalizer raw.provider raw.event_id registry)

module _ (ip_address : String → Option Address) where
  -- The call of a normalizer.
  unfoldable pub apply_normalizer :
      EventNormalizer → RawWindowsEvent → Result Raised NormalizedEvent
  apply_normalizer security_normalizer raw = normalize_windows_security_event ip_address raw
  apply_normalizer sysmon_normalizer raw = normalize_sysmon_event ip_address raw
