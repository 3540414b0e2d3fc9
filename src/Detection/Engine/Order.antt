-- ===== src/Detection/Engine/Order.antt =====
-- The order in which rules are evaluated, and the rejection of a repeated identity.
use mathlib.Core.List.{Permᴰ}
use mathlib.Core.List.Permᴰ
use soc_investigation_lab.Common.{
  String, ◌≡◌, refl, true, false, some, List, [], ◌∷◌, Result, ok, err, inl, inr, ◌⊎◌, string_eq,
  member, is_unique, Bool-cases, true-false,
}
use soc_investigation_lab.Python.Sorted.{sorted}
use soc_investigation_lab.Python.Sorted.Laws.{sorted-permᴰ, sorted-perm}
use soc_investigation_lab.Python.Keys.{
  keys, Distinct, AreNew, AreNew-cons, AreNew-uncons, AreNew-nil, is_unique-Distinct,
  Distinct-is_unique, Distinct-IsStrict, Distinct-perm, key_leb_total, key_leb_trans,
}
use soc_investigation_lab.Models.Rule.{DetectionRule}
use soc_investigation_lab.Detection.Errors.{Raised, controlled, engine_error}
use soc_investigation_lab.Detection.Engine.{id_leb, check_ids, ordered_rules}

-- `[rule.id for rule in rules]`
abbrev pub ids : List DetectionRule → List String
ids = keys (λ r. r.id)

-- No two rules have one identity.
abbrev HasOwnIds : List DetectionRule → Type 0
HasOwnIds = Distinct (λ r. r.id)

abbrev AreUnseen : List String → List DetectionRule → Type 0
AreUnseen = AreNew (λ r. r.id)

check_ids-Distinct :
    (seen : List String) (rs : List DetectionRule)
    → AreUnseen seen rs
    → HasOwnIds rs
    → check_ids seen rs ≡ ok tt
unfolding check_ids
check_ids-Distinct seen [] k h = refl
check_ids-Distinct seen (r ∷ rs) (k, ks) (h, hs) =
    rw k (check_ids-Distinct (r.id ∷ seen) rs (AreNew-cons (λ r. r.id) seen r rs h ks) hs)

-- The error of a repeated identity.
abbrev pub duplicate : String → Result Raised (Unit {0})
duplicate id = err (controlled (engine_error "duplicate_rule_id" (some id)))

-- Either nothing is repeated, or the error names an identity.
check_ids-cases :
    (seen : List String) (rs : List DetectionRule)
    → (AreUnseen seen rs × HasOwnIds rs) ⊎ ((id : String) × (check_ids seen rs ≡ duplicate id))
unfolding check_ids
check_ids-cases seen [] = inl (tt, tt)
check_ids-cases seen (r ∷ rs) = elim (Bool-cases (member r.id seen)) [
  | inl again ↦ inr (r.id, rw again refl)
  | inr first ↦ elim (check_ids-cases (r.id ∷ seen) rs) [
    | inl (ks, hs) ↦
        inl (let (js, os) = AreNew-uncons (λ r. r.id) seen r rs ks in ((first, js), (os, hs)))
    | inr (id, e) ↦ inr (id, rw first e)
  ]
]

-- Rules with different identities are accepted, in ascending order of their identities.
pub ordered_rules_unique :
    (rs : List DetectionRule) → is_unique (ids rs) ≡ true → ordered_rules rs ≡ ok (sorted id_leb rs)
unfolding ordered_rules
ordered_rules_unique rs h =
    rw
      (check_ids-Distinct [] (sorted id_leb rs) (AreNew-nil (λ r. r.id) (sorted id_leb rs)) (
        Distinct-perm (λ r. r.id) (Permᴰ.symm (sorted-permᴰ id_leb rs))
          (is_unique-Distinct (λ r. r.id) rs h)))
      refl

-- A repeated identity is rejected wherever it stands.
pub ordered_rules_duplicate :
    (rs : List DetectionRule)
    → is_unique (ids rs) ≡ false
    → (id : String) × (ordered_rules rs
        ≡ err (controlled (engine_error "duplicate_rule_id" (some id))))
unfolding ordered_rules
ordered_rules_duplicate rs h = elim (check_ids-cases [] (sorted id_leb rs)) [
  | inl (ks, hs) ↦ absurd (
      true-false
        (Distinct-is_unique (λ r. r.id) rs (Distinct-perm (λ r. r.id) (sorted-permᴰ id_leb rs) hs))
        h)
  | inr (id, e) ↦ (id, rw e refl)
]

-- With different identities, the order in which the rules come does not matter.
pub sorted-ids-perm :
    {rs ss : List DetectionRule}
    → Permᴰ rs ss
    → is_unique (ids rs) ≡ true
    → (is_unique (ids ss) ≡ true) × (sorted id_leb rs ≡ sorted id_leb ss)
sorted-ids-perm {rs} {ss} p h =
    let d = is_unique-Distinct (λ r. r.id) rs h in
    (
      Distinct-is_unique (λ r. r.id) ss (Distinct-perm (λ r. r.id) p d),
      sorted-perm id_leb (key_leb_total (λ r. r.id)) (key_leb_trans (λ r. r.id)) p
          (Distinct-IsStrict (λ r. r.id) rs d),
    )
