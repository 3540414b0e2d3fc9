-- ===== src/Parsers/WindowsEvent/Data.antt =====
-- Event data that is read back from its elements.
use mathlib.Core.List.{append-nil, append_assoc}
use soc_investigation_lab.Common.{
  String, ◌≡◌, refl, sym, ap, ◌∙◌, Bool, true, false, not, ◌&&◌, ◌||◌, List, [], ◌∷◌, ◌++◌, ok,
  ◌==◌, string_eq, beq_sym, lookup, member, is_unique, All, and-eq-true, or-eq-false, not-eq-true,
  arith,
}
use soc_investigation_lab.Models.Rule.{is_blank}
use soc_investigation_lab.Parsers.WindowsEvent.{names, collect_data, named}
use soc_investigation_lab.Parsers.WindowsEvent.Rendering.{data_elements}

abbrev pub are_named : List (String × String) → Bool
are_named [] = true
are_named ((name, value) ∷ fields) = not (is_blank name) && are_named fields

-- The names so far, and those of the fields to come.
pub names-append :
    (name : String) (xs : List (String × String)) (k v : String)
    → member name (names (xs ++ (k, v) ∷ [])) ≡ (member name (names xs) || name == k)
names-append name [] k v = ground arith
names-append name ((j, w) ∷ xs) k v = rw (names-append name xs k v) (ground arith)

-- None of the fields has a name among those so far.
abbrev pub AreFresh : List (String × String) → List (String × String) → Type 0
AreFresh so_far = All (λ field. member field.0 (names so_far) ≡ false)

AreFresh-snoc :
    (so_far : List (String × String)) (k v : String) (fields : List (String × String))
    → AreFresh so_far fields
    → member k (names fields) ≡ false
    → AreFresh (so_far ++ (k, v) ∷ []) fields
AreFresh-snoc so_far k v [] h new = tt
AreFresh-snoc so_far k v ((name, value) ∷ fields) (h, hs) new =
    let (other, others) = or-eq-false (k == name) (member k (names fields)) new in
    (
      names-append name so_far k v ∙ rw (h, beq_sym name k, other) refl,
      AreFresh-snoc so_far k v fields hs others,
    )

pub AreFresh-nil : (fields : List (String × String)) → AreFresh [] fields
AreFresh-nil [] = tt
AreFresh-nil (field ∷ fields) = (refl, AreFresh-nil fields)

pub collect_data-data_elements :
    (so_far fields : List (String × String))
    → are_named fields ≡ true
    → is_unique (names fields) ≡ true
    → AreFresh so_far fields
    → collect_data so_far (data_elements fields) ≡ ok (so_far ++ fields)
unfolding collect_data lookup
collect_data-data_elements so_far [] named unique fresh = ap ok (sym (append-nil so_far))
collect_data-data_elements so_far ((name, value) ∷ fields) named unique (new, fresh) =
    let (filled, named) = and-eq-true (not (is_blank name)) (are_named fields) named in
    let (apart, unique) =
      and-eq-true (not (member name (names fields))) (is_unique (names fields)) unique in
    let later = AreFresh-snoc so_far name value fields fresh (not-eq-true _ apart) in
    rw (not-eq-true _ filled, new)
      (collect_data-data_elements (so_far ++ (name, value) ∷ []) fields named unique later
        ∙ ap ok (append_assoc so_far ((name, value) ∷ []) fields))
