-- ===== src/Parsers/WindowsEvent/Names.antt =====
-- The names of event data that the parser returns.
use soc_investigation_lab.Common.{
  String, ◌≡◌, refl, true, false, not, Option, none, some, List, [], ◌∷◌, ◌++◌, ok, ◌==◌, string_eq,
  beq_sym, lookup, member, is_unique, not-eq-true, and-eq-true, or-eq-false, Bool-cases, inl, inr,
  Ensures, Ensures-ok, Ensures-err, Ensures-bind, Ensures-guard, Ensures-eq-ok,
}
use soc_investigation_lab.Python.Text.{◌<>◌}
use soc_investigation_lab.Models.Rule.{is_blank}
use soc_investigation_lab.Parsers.Errors.{controlled, invalid_raw_event}
use soc_investigation_lab.Parsers.Xml.{
  Element, Elements, nil, cons, tag, attributes, children, text_of, with_tag,
}
use soc_investigation_lab.Parsers.WindowsEvent.{
  names, has_children, named, collect_data, event_data_of, parse_event_data, event_data_tag,
  data_tag,
}
use soc_investigation_lab.Parsers.WindowsEvent.Data.{are_named, names-append}

-- Different names, none of which is blank.
pub record AreDistinct (fields : List (String × String)) : Type 0 where
  pub different : is_unique (names fields) ≡ true
  pub filled : are_named fields ≡ true

is_unique-snoc :
    (fields : List (String × String)) (k v : String)
    → is_unique (names fields) ≡ true
    → member k (names fields) ≡ false
    → is_unique (names (fields ++ (k, v) ∷ [])) ≡ true
is_unique-snoc [] k v h new = refl
is_unique-snoc ((name, value) ∷ fields) k v h new =
    let (other, others) = or-eq-false (k == name) (member k (names fields)) new in
    let (apart, rest) =
      and-eq-true (not (member name (names fields))) (is_unique (names fields)) h in
    rw
      (
        names-append name fields k v,
        not-eq-true (member name (names fields)) apart,
        beq_sym name k,
        other,
      )
      (is_unique-snoc fields k v rest others)

are_named-snoc :
    (fields : List (String × String)) (k v : String)
    → are_named fields ≡ true
    → is_blank k ≡ false
    → are_named (fields ++ (k, v) ∷ []) ≡ true
are_named-snoc [] k v h filled = rw filled refl
are_named-snoc ((name, value) ∷ fields) k v h filled =
    let (here, there) = and-eq-true (not (is_blank name)) (are_named fields) h in
    rw here (are_named-snoc fields k v there filled)

named-filled :
    (message : String) (o : Option String)
    → Ensures (λ name. is_blank name ≡ false) (named message o)
named-filled message none = Ensures-err
named-filled message (some name) = elim (Bool-cases (is_blank name)) [
  | inl blank ↦ rw blank Ensures-err
  | inr filled ↦ rw filled (Ensures-ok filled)
]

collect_data-AreDistinct :
    (fields : List (String × String)) (es : Elements)
    → AreDistinct fields
    → Ensures AreDistinct (collect_data fields es)
unfolding collect_data
collect_data-AreDistinct fields nil h = Ensures-ok h
collect_data-AreDistinct fields (cons e es) h =
    Ensures-guard (tag e == data_tag)
      (controlled (invalid_raw_event "EventData may contain only Data elements"))
      λ t.
        Ensures-guard (not (has_children (children e)))
          (controlled (invalid_raw_event "Data elements must not contain nested XML"))
          λ t.
            Ensures-bind (λ name. is_blank name ≡ false)
              (named-filled "Data Name must not be missing or blank" (lookup "Name" (attributes e)))
              λ name filled.
                Ensures-guard (not (member name (names fields)))
                  (controlled (invalid_raw_event ("duplicate EventData name: " <> name)))
                  λ new. collect_data-AreDistinct (fields ++ (name, text_of e) ∷ []) es (record {
                    different =
                        is_unique-snoc fields name (text_of e) h.different (not-eq-true _ new);
                    filled = are_named-snoc fields name (text_of e) h.filled filled;
                  })

event_data_of-AreDistinct : (es : List Element) → Ensures AreDistinct (event_data_of es)
unfolding event_data_of
event_data_of-AreDistinct [] = Ensures-ok (record { different = refl; filled = refl })
event_data_of-AreDistinct (e ∷ []) =
    collect_data-AreDistinct [] (children e) (record { different = refl; filled = refl })
event_data_of-AreDistinct (e ∷ f ∷ es) = Ensures-err

-- The event data that `_parse_event_data` returns has no name twice and no blank name, so that every
-- entry can be looked up.
pub parse_event_data-AreDistinct :
    (root : Elements) (fields : List (String × String))
    → parse_event_data root ≡ ok fields
    → AreDistinct fields
unfolding parse_event_data
parse_event_data-AreDistinct root fields h =
    Ensures-eq-ok (event_data_of-AreDistinct (with_tag event_data_tag root)) h
