-- ===== src/Alerts/Queue/Order.antt =====
-- The order of the queue: by priority, severity, creation and identity, and total.
use soc_investigation_lab.Common.{
  ℕ, ◌≡◌, refl, Bool, true, false, not, eqb, ltb, arith, if◌then◌else◌,
}
use soc_investigation_lab.Python.Text.{text_leb}
use soc_investigation_lab.Python.Text.Laws.{text_leb_total, text_leb_trans, text_leb_antisymm}
use soc_investigation_lab.Models.Alert.{Alert}
use soc_investigation_lab.Alerts.Queue.{queue_leb, priority_rank, severity_rank}

-- A comparison of two numbers, and of what follows where they are equal.
abbrev first_leb : ℕ → ℕ → Bool → Bool
first_leb m n rest = if not (eqb m n) then ltb m n else rest

first_leb_total :
    (m n : ℕ) (b c : Bool)
    → (b ≡ false → c ≡ true)
    → first_leb m n b ≡ false
    → first_leb n m c ≡ true
first_leb_total m n b c h k = ground (arith, h, k)

first_leb_trans :
    (l m n : ℕ) (b c d : Bool)
    → (b ≡ true → c ≡ true → d ≡ true)
    → first_leb l m b ≡ true
    → first_leb m n c ≡ true
    → first_leb l n d ≡ true
first_leb_trans l m n b c d h k j = ground (arith, h, k, j)

first_leb_both :
    (m n : ℕ) (b c : Bool)
    → first_leb m n b ≡ true
    → first_leb n m c ≡ true
    → (b ≡ true) × (c ≡ true)
first_leb_both m n b c h k = ground (arith, h, k)

-- The key of an alert, compared from the creation on.
abbrev later_leb : Alert → Alert → Bool
later_leb a b = first_leb a.created_at.wall b.created_at.wall (text_leb a.alert_id b.alert_id)

abbrev severe_leb : Alert → Alert → Bool
severe_leb a b = first_leb (severity_rank a.severity) (severity_rank b.severity) (later_leb a b)

abbrev key_leb : Alert → Alert → Bool
key_leb a b = first_leb (priority_rank a.priority) (priority_rank b.priority) (severe_leb a b)

queue_leb-key_leb : (a b : Alert) → queue_leb a b ≡ key_leb a b
unfolding queue_leb
queue_leb-key_leb a b = refl

pub queue_leb_total : (a b : Alert) → queue_leb a b ≡ false → queue_leb b a ≡ true
unfolding queue_leb
queue_leb_total a b h =
    first_leb_total (priority_rank a.priority) (priority_rank b.priority) (severe_leb a b)
      (severe_leb b a)
      (first_leb_total (severity_rank a.severity) (severity_rank b.severity) (later_leb a b)
        (later_leb b a)
        (first_leb_total a.created_at.wall b.created_at.wall (text_leb a.alert_id b.alert_id)
          (text_leb b.alert_id a.alert_id) (text_leb_total a.alert_id b.alert_id)))
      h

pub queue_leb_trans :
    (a b c : Alert) → queue_leb a b ≡ true → queue_leb b c ≡ true → queue_leb a c ≡ true
unfolding queue_leb
queue_leb_trans a b c h k =
    first_leb_trans (priority_rank a.priority) (priority_rank b.priority) (priority_rank c.priority)
      (severe_leb a b) (severe_leb b c) (severe_leb a c)
      (first_leb_trans (severity_rank a.severity) (severity_rank b.severity)
        (severity_rank c.severity) (later_leb a b) (later_leb b c) (later_leb a c)
        (first_leb_trans a.created_at.wall b.created_at.wall c.created_at.wall
          (text_leb a.alert_id b.alert_id) (text_leb b.alert_id c.alert_id)
          (text_leb a.alert_id c.alert_id) (text_leb_trans a.alert_id b.alert_id c.alert_id)))
      h k

-- Alerts that may stand either way have one identity.
pub queue_leb_antisymm :
    (a b : Alert) → queue_leb a b ≡ true → queue_leb b a ≡ true → a.alert_id ≡ b.alert_id
unfolding queue_leb
queue_leb_antisymm a b h k =
    let (p, q) =
      first_leb_both (priority_rank a.priority) (priority_rank b.priority) (severe_leb a b)
        (severe_leb b a) h k in
    let (p, q) =
      first_leb_both (severity_rank a.severity) (severity_rank b.severity) (later_leb a b)
        (later_leb b a) p q in
    let (p, q) =
      first_leb_both a.created_at.wall b.created_at.wall (text_leb a.alert_id b.alert_id)
        (text_leb b.alert_id a.alert_id) p q in
    text_leb_antisymm a.alert_id b.alert_id p q
