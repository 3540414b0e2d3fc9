-- ===== src/Parsers/Registry/Identities.antt =====
-- The registry and the normalizers agree on the identities of the events that they support.
use soc_investigation_lab.Common.{
  String, ◌≡◌, refl, Bool, true, not, none, some, arith, ◌==◌, string_eq, Bool-cases, inl, inr,
  Option-cases, sym, ◌∙◌, ◌↔◌, ok, err,
}
use soc_investigation_lab.Models.Raw.{RawWindowsEvent}
use soc_investigation_lab.Parsers.Errors.{controlled, unsupported_provider, unsupported_event_id}
use soc_investigation_lab.Parsers.WindowsSecurity.{is_supported}
use soc_investigation_lab.Parsers.Sysmon.{is_supported as is_supported_by_sysmon}
use soc_investigation_lab.Parsers.Registry.{
  EventNormalizer, security_normalizer, sysmon_normalizer, registry, find_normalizer,
  get_event_normalizer, or_unsupported, is_supported_provider,
}

-- The channel that a normalizer asks for, and whether it accepts a raw event.
abbrev pub channel_of : EventNormalizer → String
channel_of security_normalizer = "Security"
channel_of sysmon_normalizer = "Microsoft-Windows-Sysmon/Operational"

abbrev pub accepts : EventNormalizer → RawWindowsEvent → Bool
accepts security_normalizer raw = is_supported raw
accepts sysmon_normalizer raw = is_supported_by_sysmon raw

registered-accepts :
    (raw : RawWindowsEvent) (n : EventNormalizer)
    → find_normalizer raw.provider raw.event_id registry ≡ some n
    → accepts n raw ≡ (raw.channel == channel_of n)
unfolding find_normalizer is_supported is_supported_by_sysmon
registered-accepts raw security_normalizer h = ground (arith, h)
registered-accepts raw sysmon_normalizer h = ground (arith, h)

accepted-registered :
    (raw : RawWindowsEvent) (n : EventNormalizer)
    → accepts n raw ≡ true
    → find_normalizer raw.provider raw.event_id registry ≡ some n
unfolding find_normalizer is_supported is_supported_by_sysmon
accepted-registered raw security_normalizer h = ground (arith, h)
accepted-registered raw sysmon_normalizer h = ground (arith, h)

unsupported-err : (raw : RawWindowsEvent) (n : EventNormalizer) → or_unsupported raw none ≡ ok n → ⊥
unsupported-err raw n h = elim (Bool-cases (not (is_supported_provider raw.provider))) [
  | inl unknown ↦
      let lost : err (controlled (unsupported_provider raw.provider)) ≡ ok n = rw unknown at h in cc
  | inr known ↦
      let lost : err (controlled (unsupported_event_id raw.event_id raw.provider)) ≡ ok n =
        rw known at h in
      cc
]

found-registered :
    (raw : RawWindowsEvent) (n : EventNormalizer)
    → get_event_normalizer raw ≡ ok n
    → find_normalizer raw.provider raw.event_id registry ≡ some n
unfolding get_event_normalizer
found-registered raw n h =
    elim (Option-cases (find_normalizer raw.provider raw.event_id registry)) [
      | inl lost ↦ absurd (unsupported-err raw n (rw lost at h))
      | inr (m, found) ↦
          let same : ok m ≡ ok n = rw found at h in let equal : m ≡ n = cc in rw (found, equal) refl
    ]

registered-found :
    (raw : RawWindowsEvent) (n : EventNormalizer)
    → find_normalizer raw.provider raw.event_id registry ≡ some n
    → get_event_normalizer raw ≡ ok n
unfolding get_event_normalizer
registered-found raw n h = rw h refl

-- A normalizer's own check of the identity accepts a raw event exactly if the registry gives that
-- normalizer for the event and the event's channel is the normalizer's.
pub get_event_normalizer-accepts :
    (raw : RawWindowsEvent) (n : EventNormalizer)
    → (accepts n raw ≡ true)
      ↔ ((get_event_normalizer raw ≡ ok n) × ((raw.channel == channel_of n) ≡ true))
get_event_normalizer-accepts raw n = (
  λ h.
      let found = accepted-registered raw n h in
      (registered-found raw n found, sym (registered-accepts raw n found) ∙ h),
  λ (got, channel). registered-accepts raw n (found-registered raw n got) ∙ channel,
)
