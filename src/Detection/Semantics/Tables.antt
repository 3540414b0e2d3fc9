-- ===== src/Detection/Semantics/Tables.antt =====
-- The tables of field types against the paths that the models accept.
use mathlib.Core.Bool.{◌&&◌, or-true}
use soc_investigation_lab.Common.{
  String, ◌≡◌, refl, ◌∙◌, true, false, Option, none, some, List, [], ◌∷◌, ok, arith, inl, inr, ◌==◌,
  string_eq, lookup, All, Bool-cases, Option-cases, and-eq-true, eq_iff, if◌then◌else◌,
}
use soc_investigation_lab.Python.Text.{split, startswith}
use soc_investigation_lab.Models.Event.{EventCategory, authentication, process, network, file, dns}
use soc_investigation_lab.Models.Condition.Paths.{is_segment, valid_parts, valid_path}
use soc_investigation_lab.Detection.Semantics.Fields.{
  FieldType, common_field_types, context_fields, is_source_data_name, context_field, part_type,
  field_type, string_field, or_part, or_invalid,
}

-- What holds of every key of a table holds of a key that is found.
pub lookup-All {ℓ} :
    {V : Type ℓ} (P : String → Type 0) (k : String) (d : List (String × V)) {v : V}
    → All (λ e. P e.0) d
    → lookup k d ≡ some v
    → P k
unfolding lookup
lookup-All P k [] h e = cc
lookup-All P k ((j, w) ∷ d) (h, hs) e = elim (Bool-cases (k == j)) [
  | inl same ↦ rw ((eq_iff k j).0 same) h
  | inr other ↦ lookup-All P k d hs (rw other at e)
]

-- A path that is neither of the two dotted kinds, and that the models accept.
abbrev IsCommon : String → Type 0
IsCommon path =
    (startswith path "source_data." ≡ false)
    × (startswith path "context." ≡ false)
    × (valid_path path ≡ true)

lookup-IsCommon : All (λ e. IsCommon e.0) common_field_types
unfolding startswith valid_path
lookup-IsCommon = search tt depth 20

pub context_fields-is_segment :
    (c : EventCategory) → All (λ e. is_segment e.0 ≡ true) (context_fields c)
unfolding is_segment
context_fields-is_segment authentication = search tt depth 20
context_fields-is_segment process = search tt depth 20
context_fields-is_segment network = search tt depth 20
context_fields-is_segment file = search tt depth 20
context_fields-is_segment dns = search tt depth 20

is_source_data_name-is_segment :
    (name : String) → is_source_data_name name ≡ true → is_segment name ≡ true
unfolding is_source_data_name is_segment
is_source_data_name-is_segment String.[] h = cc
is_source_data_name-is_segment (String.◌∷◌ c s) h = ground arith

-- The three ways in which a path has a type.
pub data FieldPath (category : EventCategory) (path : String) (kind : FieldType) : Type 0 where
  common : lookup path common_field_types ≡ some kind → IsCommon path → FieldPath category path kind
  in_context :
      (name : String)
      → split b'.' path ≡ "context" ∷ name ∷ []
      → lookup name (context_fields category) ≡ some kind
      → FieldPath category path kind
  retained :
      (name : String)
      → split b'.' path ≡ "source_data" ∷ name ∷ []
      → is_segment name ≡ true
      → kind ≡ string_field
      → FieldPath category path kind

retained-FieldPath :
    (category : EventCategory) (path prefix name : String) (kind : FieldType)
    → split b'.' path ≡ prefix ∷ name ∷ []
    → (if prefix == "source_data" && is_source_data_name name then some string_field else none)
      ≡ some kind
    → FieldPath category path kind
retained-FieldPath category path prefix name kind parts h =
    elim (Bool-cases (prefix == "source_data" && is_source_data_name name)) [
      | inl yes_name ↦
          let (p, n) = and-eq-true _ _ yes_name in
          let e : prefix ≡ "source_data" = (eq_iff prefix "source_data").0 p in
          let found : some string_field ≡ some kind = rw yes_name at h in
          retained name (rw e at parts) (is_source_data_name-is_segment name n) (cc)
      | inr no_name ↦ let missing : none ≡ some kind = rw no_name at h in cc
    ]

context-FieldPath :
    (category : EventCategory) (path prefix name : String) (kind : FieldType)
    → split b'.' path ≡ prefix ∷ name ∷ []
    → context_field category prefix name ≡ some kind
    → FieldPath category path kind
context-FieldPath category path prefix name kind parts h = elim (Bool-cases (prefix == "context")) [
  | inl p ↦ in_context name (rw ((eq_iff prefix "context").0 p) at parts) (rw p at h)
  | inr p ↦ let missing : none ≡ some kind = rw p at h in cc
]

parts-FieldPath :
    (category : EventCategory) (path : String) (ps : List String) (kind : FieldType)
    → split b'.' path ≡ ps
    → part_type category ps ≡ some kind
    → FieldPath category path kind
unfolding part_type
parts-FieldPath category path (prefix ∷ name ∷ []) kind parts h =
    elim (Option-cases (context_field category prefix name)) [
      | inl absent ↦
          retained-FieldPath category path prefix name kind parts (rw (absent, part_type) at h)
      | inr (k, found) ↦
          let same : some k ≡ some kind = rw (found, part_type) at h in
          context-FieldPath category path prefix name kind parts (found ∙ same)
    ]
parts-FieldPath category path [] kind parts h = cc
parts-FieldPath category path (p ∷ []) kind parts h = cc
parts-FieldPath category path (p ∷ q ∷ r ∷ ps) kind parts h = cc

or_invalid-eq-ok :
    (field : String) (o : Option FieldType) {kind : FieldType}
    → or_invalid field o ≡ ok kind
    → o ≡ some kind
or_invalid-eq-ok field o h = ground arith

pub field_type-FieldPath :
    (category : EventCategory) (path : String) (kind : FieldType)
    → field_type path category ≡ ok kind
    → FieldPath category path kind
unfolding field_type
field_type-FieldPath category path kind h =
    let found = or_invalid-eq-ok path _ h in
    elim (Option-cases (lookup path common_field_types)) [
      | inl absent ↦
          parts-FieldPath category path (split b'.' path) kind refl (rw (absent, or_part) at found)
      | inr (k, e) ↦
          let same : some k ≡ some kind = rw (e, or_part) at found in
          common (e ∙ same) (lookup-All IsCommon path common_field_types lookup-IsCommon e)
    ]

valid_path-parts : (path : String) → valid_parts (split b'.' path) ≡ true → valid_path path ≡ true
unfolding valid_path
valid_path-parts path h = rw h (or-true _)

-- Every path that has a type is one that the models accept.
pub field_type-valid_path :
    (category : EventCategory) (path : String) (kind : FieldType)
    → field_type path category ≡ ok kind
    → valid_path path ≡ true
field_type-valid_path category path kind h = elim (field_type-FieldPath category path kind h) [
  | common e c ↦ c.2
  | in_context name parts e ↦
      let segment =
        lookup-All (λ n. is_segment n ≡ true) name _ (context_fields-is_segment category) e in
      valid_path-parts path (rw (parts, valid_parts) segment)
  | retained name parts segment e ↦ valid_path-parts path (rw (parts, valid_parts) segment)
]
