-- ===== src/Python/Keys.antt =====
-- Items with a text for a key, and lists of them whose keys are all different.
use mathlib.Core.List.{Permᴰ}
use soc_investigation_lab.Common.{
  String, ◌≡◌, refl, Bool, true, false, not, List, [], ◌∷◌, inl, inr, ◌==◌, string_eq, member,
  is_unique, Bool-cases, All, and-eq-true, or-eq-false, not-eq-true, true-false,
}
use soc_investigation_lab.Python.Text.{text_leb}
use soc_investigation_lab.Python.Text.Laws.{text_leb_total, text_leb_trans, text_leb_antisymm}
use soc_investigation_lab.Python.Sorted.Laws.{IsStrict, IsUnlike, IsStrict-perm}

module _ {ℓ} {A : Type ℓ} (key : A → String) where
  -- One key may stand before the other.
  -- `[x.key for x in xs]`
  abbrev pub key_leb : A → A → Bool
  key_leb a b = text_leb (key a) (key b)

  abbrev pub keys : List A → List String
  keys [] = []
  keys (r ∷ rs) = (key r) ∷ keys rs

  -- The item has another key than each of the list.
  abbrev pub IsOther : A → List A → Type 0
  IsOther r = All (λ s. ((key r) == (key s)) ≡ false)

  abbrev pub Distinct : List A → Type 0
  Distinct [] = Unit
  Distinct (r ∷ rs) = IsOther r rs × Distinct rs

  member-IsOther : (r : A) (rs : List A) → member (key r) (keys rs) ≡ false → IsOther r rs
  member-IsOther r [] h = tt
  member-IsOther r (s ∷ rs) h =
      let (p, q) = or-eq-false ((key r) == (key s)) (member (key r) (keys rs)) h in
      (p, member-IsOther r rs q)

  IsOther-member : (r : A) (rs : List A) → IsOther r rs → member (key r) (keys rs) ≡ false
  IsOther-member r [] h = refl
  IsOther-member r (s ∷ rs) (h, hs) = rw h (IsOther-member r rs hs)

  pub is_unique-Distinct : (rs : List A) → is_unique (keys rs) ≡ true → Distinct rs
  is_unique-Distinct [] h = tt
  is_unique-Distinct (r ∷ rs) h =
      let (p, q) = and-eq-true (not (member (key r) (keys rs))) (is_unique (keys rs)) h in
      (member-IsOther r rs (not-eq-true (member (key r) (keys rs)) p), is_unique-Distinct rs q)

  pub Distinct-is_unique : (rs : List A) → Distinct rs → is_unique (keys rs) ≡ true
  Distinct-is_unique [] h = refl
  Distinct-is_unique (r ∷ rs) (h, hs) = rw (IsOther-member r rs h) (Distinct-is_unique rs hs)

  text_leb_refl : (a : String) → text_leb a a ≡ true
  text_leb_refl a = elim (Bool-cases (text_leb a a)) [ inl h ↦ h | inr h ↦ text_leb_total a a h ]

  unlike-other :
      (r s : A) → ((key r) == (key s)) ≡ false → key_leb r s ≡ true → key_leb s r ≡ true → ⊥
  unlike-other r s h p q =
      true-false ((string_eq.beq_iff (key r) (key s)).1 (text_leb_antisymm (key r) (key s) p q)) h

  pub other-unlike :
      (r s : A) → (key_leb r s ≡ true → key_leb s r ≡ true → ⊥) → ((key r) == (key s)) ≡ false
  other-unlike r s h = elim (Bool-cases ((key r) == (key s))) [
    | inl e ↦
        let same = (string_eq.beq_iff (key r) (key s)).0 e in
        absurd (h (rw same (text_leb_refl (key s))) (rw same (text_leb_refl (key s))))
    | inr n ↦ n
  ]

  other-sym : (r s : A) → ((key r) == (key s)) ≡ false → ((key s) == (key r)) ≡ false
  other-sym r s h = other-unlike s r (λ p q. unlike-other r s h q p)

  IsOther-IsUnlike : (r : A) (rs : List A) → IsOther r rs → IsUnlike key_leb r rs
  IsOther-IsUnlike r [] h = tt
  IsOther-IsUnlike r (s ∷ rs) (h, hs) = (unlike-other r s h, IsOther-IsUnlike r rs hs)

  IsUnlike-IsOther : (r : A) (rs : List A) → IsUnlike key_leb r rs → IsOther r rs
  IsUnlike-IsOther r [] h = tt
  IsUnlike-IsOther r (s ∷ rs) (h, hs) = (other-unlike r s h, IsUnlike-IsOther r rs hs)

  pub Distinct-IsStrict : (rs : List A) → Distinct rs → IsStrict key_leb rs
  Distinct-IsStrict [] h = tt
  Distinct-IsStrict (r ∷ rs) (h, hs) = (IsOther-IsUnlike r rs h, Distinct-IsStrict rs hs)

  IsStrict-Distinct : (rs : List A) → IsStrict key_leb rs → Distinct rs
  IsStrict-Distinct [] h = tt
  IsStrict-Distinct (r ∷ rs) (h, hs) = (IsUnlike-IsOther r rs h, IsStrict-Distinct rs hs)

  pub key_leb_total : (a b : A) → key_leb a b ≡ false → key_leb b a ≡ true
  key_leb_total a b h = text_leb_total (key a) (key b) h

  pub key_leb_trans : (a b c : A) → key_leb a b ≡ true → key_leb b c ≡ true → key_leb a c ≡ true
  key_leb_trans a b c h k = text_leb_trans (key a) (key b) (key c) h k

  pub Distinct-perm : {rs ss : List A} → Permᴰ rs ss → Distinct rs → Distinct ss
  Distinct-perm {rs} {ss} p h =
      IsStrict-Distinct ss
        (IsStrict-perm key_leb key_leb_total key_leb_trans p (Distinct-IsStrict rs h))

  -- None of the items has an key among those seen.
  abbrev pub AreNew : List String → List A → Type 0
  AreNew seen = All (λ r. member (key r) seen ≡ false)

  pub AreNew-cons :
      (seen : List String) (r : A) (rs : List A)
      → IsOther r rs
      → AreNew seen rs
      → AreNew ((key r) ∷ seen) rs
  AreNew-cons seen r [] h k = tt
  AreNew-cons seen r (s ∷ rs) (h, hs) (k, ks) =
      (rw (other-sym r s h, k) refl, AreNew-cons seen r rs hs ks)

  pub AreNew-uncons :
      (seen : List String) (r : A) (rs : List A)
      → AreNew ((key r) ∷ seen) rs
      → AreNew seen rs × IsOther r rs
  AreNew-uncons seen r [] h = (tt, tt)
  AreNew-uncons seen r (s ∷ rs) (h, hs) =
      let (p, q) = or-eq-false ((key s) == (key r)) (member (key s) seen) h in
      let (js, os) = AreNew-uncons seen r rs hs in ((q, js), (other-sym s r p, os))

  pub AreNew-nil : (rs : List A) → AreNew [] rs
  AreNew-nil [] = tt
  AreNew-nil (r ∷ rs) = (refl, AreNew-nil rs)
