-- ===== src/Alerts/Queue/Listing.antt =====
-- What `list_alerts` returns for validated alerts with different identities.
use mathlib.Core.List.{Permᴰ}
use soc_investigation_lab.Common.{
  ℕ, suc, String, ◌≡◌, refl, sym, ap, ◌∙◌, Bool, true, false, Option, some, List, [], ◌∷◌, ok,
  arith, eqb, inl, inr, ◌==◌, string_eq, is_unique, Bool-cases, All, All-perm, true-false, keep,
  keep-true, keep-perm, All-keep, keep-false, length,
}
use soc_investigation_lab.Python.Sorted.{sorted}
use soc_investigation_lab.Python.Sorted.Laws.{IsStrict, IsUnlike, sorted-perm}
use soc_investigation_lab.Python.Keys.{
  keys, IsOther, Distinct, AreNew, AreNew-cons, AreNew-nil, is_unique-Distinct, Distinct-is_unique,
  Distinct-perm,
}
use soc_investigation_lab.Models.Alert.{
  Alert, AlertState, AlertSeverity, AlertPriority, state_eq, severity_eq, priority_eq,
}
use soc_investigation_lab.Models.Alert.Construct.Laws.{IsValid}
use soc_investigation_lab.Alerts.Validation.{AlertObject}
use soc_investigation_lab.Alerts.Validation.Laws.{object_of, read_alert_snapshot-object_of}
use soc_investigation_lab.Alerts.Queue.{
  CollectionObject, snapshot_collection, Filter, read_filter, validate_alerts, or_active,
  is_selected, queue_leb, list_alerts,
}
use soc_investigation_lab.Alerts.Queue.Order.{queue_leb_total, queue_leb_trans, queue_leb_antisymm}

-- `[alert.alert_id for alert in alerts]`
abbrev pub alert_ids : List Alert → List String
alert_ids = keys (λ a. a.alert_id)

abbrev pub objects_of : List Alert → List AlertObject
objects_of [] = []
objects_of (a ∷ xs) = object_of a ∷ objects_of xs

-- A list of alerts, as a collection.
abbrev pub collection_of : List Alert → CollectionObject
collection_of xs = record { size = some (length xs); entries = objects_of xs; raises = false }

length-objects_of : (xs : List Alert) → length (objects_of xs) ≡ length xs
length-objects_of [] = refl
length-objects_of (a ∷ xs) = ap suc (length-objects_of xs)

eqb_refl : (n : ℕ) → eqb n n ≡ true
eqb_refl n = ground arith

snapshot_collection-of :
    (xs : List Alert) → snapshot_collection (collection_of xs) ≡ ok (objects_of xs)
unfolding snapshot_collection
snapshot_collection-of xs = rw (length-objects_of xs, eqb_refl (length xs)) refl

validate_alerts-objects_of :
    (seen : List String) (xs : List Alert)
    → All IsValid xs
    → AreNew (λ a. a.alert_id) seen xs
    → Distinct (λ a. a.alert_id) xs
    → validate_alerts seen (objects_of xs) ≡ ok xs
unfolding validate_alerts
validate_alerts-objects_of seen [] vs ns ds = refl
validate_alerts-objects_of seen (a ∷ xs) (v, vs) (n, ns) (d, ds) =
    rw
      (
        read_alert_snapshot-object_of a v,
        n,
        validate_alerts-objects_of (a.alert_id ∷ seen) xs vs
            (AreNew-cons (λ a. a.alert_id) seen a xs d ns) ds,
      )
      refl

-- Different identities never tie.
unlike-other :
    (a b : Alert)
    → (a.alert_id == b.alert_id) ≡ false
    → queue_leb a b ≡ true
    → queue_leb b a ≡ true
    → ⊥
unlike-other a b h p q =
    true-false ((string_eq.beq_iff a.alert_id b.alert_id).1 (queue_leb_antisymm a b p q)) h

IsOther-IsUnlike :
    (a : Alert) (xs : List Alert) → IsOther (λ a. a.alert_id) a xs → IsUnlike queue_leb a xs
IsOther-IsUnlike a [] h = tt
IsOther-IsUnlike a (b ∷ xs) (h, hs) = (unlike-other a b h, IsOther-IsUnlike a xs hs)

Distinct-keep :
    (p : Alert → Bool) (xs : List Alert)
    → Distinct (λ a. a.alert_id) xs
    → IsStrict queue_leb (keep p xs)
Distinct-keep p [] h = tt
Distinct-keep p (a ∷ xs) (h, hs) = elim (Bool-cases (p a)) [
  | inl e ↦ rw (keep-true p a xs e) (
    All-keep (λ b. (queue_leb a b ≡ true → queue_leb b a ≡ true → ⊥)) p xs
        (IsOther-IsUnlike a xs h),
    Distinct-keep p xs hs,
  )
  | inr e ↦ rw (keep-false p a xs e) (Distinct-keep p xs hs)
]

-- The selection of the filters that were read.
abbrev pub selection :
    Option (List AlertState)
    → Option (List AlertSeverity)
    → Option (List AlertPriority)
    → List Alert
    → List Alert
selection states severities priorities = keep (is_selected (or_active states) severities priorities)

module _ (states : Filter AlertState) (severities : Filter AlertSeverity)
    (priorities : Filter AlertPriority) (some_states : Option (List AlertState))
    (some_severities : Option (List AlertSeverity)) (some_priorities : Option (List AlertPriority))
    (read_states : read_filter states "states" ≡ ok some_states)
    (read_severities : read_filter severities "severities" ≡ ok some_severities)
    (read_priorities : read_filter priorities "priorities" ≡ ok some_priorities) where
  list_alerts-sorted :
      (xs : List Alert)
      → All IsValid xs
      → is_unique (alert_ids xs) ≡ true
      → list_alerts (collection_of xs) states severities priorities
        ≡ ok (sorted queue_leb (selection some_states some_severities some_priorities xs))
  unfolding list_alerts
  list_alerts-sorted xs vs unique =
      let checked =
        validate_alerts-objects_of [] xs vs (AreNew-nil (λ a. a.alert_id) xs)
          (is_unique-Distinct (λ a. a.alert_id) xs unique) in
      rw (snapshot_collection-of xs, checked, read_states, read_severities, read_priorities) refl

  -- For validated alerts that nobody changed, with different identities, and filters that are read
  -- without an error, the queue does not depend on the order of the collection.
  pub list_alerts-perm :
      {xs ys : List Alert}
      → Permᴰ xs ys
      → All IsValid xs
      → is_unique (alert_ids xs) ≡ true
      → list_alerts (collection_of xs) states severities priorities
        ≡ list_alerts (collection_of ys) states severities priorities
  list_alerts-perm {xs} {ys} p vs unique =
      let d = is_unique-Distinct (λ a. a.alert_id) xs unique in
      let unique' = Distinct-is_unique (λ a. a.alert_id) ys (Distinct-perm (λ a. a.alert_id) p d) in
      let select = is_selected (or_active some_states) some_severities some_priorities in
      let same =
        sorted-perm queue_leb queue_leb_total queue_leb_trans (keep-perm select p)
          (Distinct-keep select xs d) in
      list_alerts-sorted xs vs unique
      ∙ ap ok same
      ∙ sym (list_alerts-sorted ys (All-perm IsValid p vs) unique')
