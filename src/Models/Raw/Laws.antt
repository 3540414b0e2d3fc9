-- ===== src/Models/Raw/Laws.antt =====
-- What the constructor of a raw event returns.
use soc_investigation_lab.Common.{
  String, ◌≡◌, refl, true, Option, none, some, List, inl, inr, Bool-cases,
}
use soc_investigation_lab.Python.Int.{ℤ, pos, negsuc}
use soc_investigation_lab.Python.Datetime.{Datetime}
use soc_investigation_lab.Models.Raw.{RawWindowsEvent, validate_raw, checked_raw, construct_raw}

-- A raw event that the model accepts, with the fields that it was given.
pub record Holds (provider channel : String) (timestamp : Datetime) (computer : String)
    (event_data : List (String × String)) (r : RawWindowsEvent) : Type 0 where
  pub valid : validate_raw r ≡ true
  pub provider_kept : r.provider ≡ provider
  pub channel_kept : r.channel ≡ channel
  pub timestamp_kept : r.timestamp ≡ timestamp
  pub computer_kept : r.computer ≡ computer
  pub event_data_kept : r.event_data ≡ event_data

checked_raw-eq-some :
    (s : RawWindowsEvent) {r : RawWindowsEvent}
    → checked_raw s ≡ some r
    → Holds s.provider s.channel s.timestamp s.computer s.event_data r
checked_raw-eq-some s {r} h = elim (Bool-cases (validate_raw s)) [
  | inl fine ↦
      let found : some s ≡ some r = rw fine at h in
      let same : s ≡ r = cc in
      rw (← same) (record {
        valid = fine;
        provider_kept = refl;
        channel_kept = refl;
        timestamp_kept = refl;
        computer_kept = refl;
        event_data_kept = refl;
      })
  | inr bad ↦ let lost : none ≡ some r = rw bad at h in cc
]

pub construct_raw-Holds :
    (provider : String) (event_id : ℤ) (channel : String) (timestamp : Datetime) (computer : String)
    (record_id : Option ℤ) (event_data : List (String × String)) {r : RawWindowsEvent}
    → construct_raw provider event_id channel timestamp computer record_id event_data ≡ some r
    → Holds provider channel timestamp computer event_data r
unfolding construct_raw
construct_raw-Holds provider (negsuc n) channel timestamp computer record_id event_data h = cc
construct_raw-Holds provider (pos n) channel timestamp computer none event_data h =
    checked_raw-eq-some _ h
construct_raw-Holds provider (pos n) channel timestamp computer (some (pos m)) event_data h =
    checked_raw-eq-some _ h
construct_raw-Holds provider (pos n) channel timestamp computer (some (negsuc m)) event_data h = cc
