-- ===== src/Detection/Evaluator/Resolution.antt =====
-- A typed path of a valid event resolves: to a value of its declared type, or to nothing.
use Prim.Native.Nat.{ℕ}
use text.Mathlib.TextLemmas.{cons-append}
use soc_investigation_lab.Common.{
  String, ◌≡◌, ◌≢◌, refl, subst, true, false, Option, none, some, List, [], ◌∷◌, Result, ok, inl,
  inr, ◌==◌, string_eq, lookup, Bool-cases, Option-cases,
}
use soc_investigation_lab.Python.Text.{split, startswith}
use soc_investigation_lab.Python.Text.Splitting.{split_two, startswith-dot}
use soc_investigation_lab.Python.Datetime.{Datetime, has_offset, astimezone_utc}
use soc_investigation_lab.Python.Address.{Address}
use soc_investigation_lab.Python.Value.{
  Value, none_value, integer, string, enum_text, timestamp, address,
}
use soc_investigation_lab.Models.Event.{
  NormalizedEvent, EventContext, of_authentication, of_process, of_network, of_file, of_dns,
  context_category, validate_context_matches_category, category_eq, category_eq_iff,
}
use soc_investigation_lab.Detection.Errors.{Raised, checked}
use soc_investigation_lab.Detection.Semantics.Fields.{
  FieldType, string_field, integer_field, timestamp_field, ip_field, field_type, common_field_types,
  context_fields,
}
use soc_investigation_lab.Detection.Semantics.Tables.{
  common, in_context, retained, field_type-FieldPath,
}
use soc_investigation_lab.Detection.Semantics.{Scalar, of_str, of_int, of_datetime, of_address}
use soc_investigation_lab.Detection.Evaluator.Dump.{
  dump_context, dump_event, optional_text, optional_integer, optional_address,
}
use soc_investigation_lab.Detection.Evaluator.Resolve.{
  ResolvedField, FieldPresence, present, missing_field, absent_field, resolved, resolve_event_field,
  resolve_context, resolve_source_data, resolve_common,
}

-- A datetime with an offset whose instant is within the years that UTC can show.
pub record IsReadable (d : Datetime) : Type 0 where
  pub offset : has_offset d ≡ ok true
  pub in_utc : Datetime
  pub converts : astimezone_utc d ≡ ok in_utc

-- The objects that a field of a type may hold.
abbrev pub Fits : FieldType → Value → Type 0
Fits kind none_value = Unit
Fits string_field (string s) = Unit
Fits string_field (enum_text s) = Unit
Fits integer_field (integer n) = Unit
Fits timestamp_field (timestamp d) = IsReadable d
Fits ip_field (address a) = Unit
Fits _ _ = ⊥

-- The scalars of a type.
abbrev pub HasKind : FieldType → Scalar → Type 0
HasKind string_field (of_str s) = Unit
HasKind integer_field (of_int n) = Unit
HasKind timestamp_field (of_datetime d) = IsReadable d
HasKind ip_field (of_address a) = Unit
HasKind _ _ = ⊥

-- A table of types and a dumped model with the same names in the same order, and fitting objects.
abbrev Aligned : List (String × FieldType) → List (String × Value) → Type 0
Aligned [] [] = Unit
Aligned ((n, k) ∷ ts) ((m, v) ∷ vs) = (n ≡ m) × (Fits k v × Aligned ts vs)
Aligned _ _ = ⊥

lookup-Aligned :
    (name : String) (ts : List (String × FieldType)) (vs : List (String × Value)) {kind : FieldType}
    → Aligned ts vs
    → lookup name ts ≡ some kind
    → (v : Value) × (lookup name vs ≡ some v) × Fits kind v
unfolding lookup
lookup-Aligned name [] vs h e = cc
lookup-Aligned name ((n, k) ∷ ts) [] h e = absurd h
lookup-Aligned name ((n, k) ∷ ts) ((m, v) ∷ vs) {kind} (same, (fits, rest)) e =
    elim (Bool-cases (name == n)) [
      | inl here ↦
          let found : some k ≡ some kind = rw here at e in
          let at_kind : k ≡ kind = cc in (v, rw (← same, here), subst (λ j. Fits j v) at_kind fits)
      | inr there ↦ rw (← same, there) (lookup-Aligned name ts vs rest (rw there at e))
    ]

Fits-optional_text : (o : Option String) → Fits string_field (optional_text o)
Fits-optional_text none = tt
Fits-optional_text (some s) = tt

Fits-optional_integer : (o : Option ℕ) → Fits integer_field (optional_integer o)
Fits-optional_integer none = tt
Fits-optional_integer (some n) = tt

Fits-optional_address : (o : Option Address) → Fits ip_field (optional_address o)
Fits-optional_address none = tt
Fits-optional_address (some a) = tt

ruleset fitting = (refl, tt, Fits-optional_text, Fits-optional_integer, Fits-optional_address)

dump_context-Aligned :
    (c : EventContext) → Aligned (context_fields (context_category c)) (dump_context c)
unfolding dump_context
dump_context-Aligned (of_authentication c) = search fitting depth 20
dump_context-Aligned (of_process c) = search fitting depth 20
dump_context-Aligned (of_network c) = search fitting depth 20
dump_context-Aligned (of_file c) = search fitting depth 20
dump_context-Aligned (of_dns c) = search fitting depth 20

dump_event-Aligned :
    (e : NormalizedEvent) → IsReadable e.timestamp → Aligned common_field_types (dump_event e)
unfolding dump_event
dump_event-Aligned e h = search (fitting, h) depth 20

-- A field of the path and type, present with a value of the type, or without a value.
pub data IsResolved (path : String) (kind : FieldType) (f : ResolvedField) : Type 0 where
  with_value :
      (s : Scalar)
      → HasKind kind s
      → f ≡ record { path = path; field_type = kind; presence = present; value = some s }
      → IsResolved path kind f
  without_value :
      (p : FieldPresence)
      → p ≢ present
      → f ≡ record { path = path; field_type = kind; presence = p; value = none }
      → IsResolved path kind f

abbrev pub Resolves : String → FieldType → Result Raised ResolvedField → Type 0
Resolves path kind r = (f : ResolvedField) × (r ≡ ok f) × IsResolved path kind f

resolved-Fits :
    (path : String) (kind : FieldType) (v : Value)
    → Fits kind v
    → Resolves path kind (resolved path kind v)
unfolding resolved
resolved-Fits path kind none_value h = (_, refl, without_value absent_field (λ e. cc) refl)
resolved-Fits path string_field (string s) h = (_, refl, with_value (of_str s) tt refl)
resolved-Fits path string_field (enum_text s) h = (_, refl, with_value (of_str s) tt refl)
resolved-Fits path integer_field (integer n) h = (_, refl, with_value (of_int n) tt refl)
resolved-Fits path ip_field (address a) h = (_, refl, with_value (of_address a) tt refl)
resolved-Fits path timestamp_field (timestamp d) h =
    rw (h.offset) (_, refl, with_value (of_datetime d) h refl)
resolved-Fits path _ _ h = absurd h

resolve_common-Resolves :
    (event : NormalizedEvent) (path : String) (kind : FieldType)
    → IsReadable event.timestamp
    → lookup path common_field_types ≡ some kind
    → Resolves path kind (resolve_common event path kind)
unfolding resolve_common
resolve_common-Resolves event path kind h e =
    let (v, found, fits) =
      lookup-Aligned path common_field_types (dump_event event) (dump_event-Aligned event h) e in
    rw found (resolved-Fits path kind v fits)

resolve_context-Resolves :
    (event : NormalizedEvent) (path name : String) (kind : FieldType)
    → validate_context_matches_category event ≡ true
    → split b'.' path ≡ "context" ∷ name ∷ []
    → lookup name (context_fields event.category) ≡ some kind
    → Resolves path kind (resolve_context event path kind)
unfolding resolve_context validate_context_matches_category
resolve_context-Resolves event path name kind same parts e =
    let matching : context_category event.context ≡ event.category = (category_eq_iff _ _).0 same in
    let aligned =
      subst (λ c. Aligned (context_fields c) (dump_context event.context)) matching
        (dump_context-Aligned event.context) in
    let (v, found, fits) =
      lookup-Aligned name (context_fields event.category) (dump_context event.context) aligned e in
    rw (same, parts, found) (resolved-Fits path kind v fits)

resolve_source_data-Resolves :
    (event : NormalizedEvent) (path name : String)
    → split b'.' path ≡ "source_data" ∷ name ∷ []
    → Resolves path string_field (resolve_source_data event path string_field)
unfolding resolve_source_data
resolve_source_data-Resolves event path name parts =
    elim (Option-cases (lookup name event.source_data)) [
      | inl missing ↦ rw (parts, missing) (_, refl, without_value missing_field (λ e. cc) refl)
      | inr (s, found) ↦ rw (parts, found) (resolved-Fits path string_field (string s) tt)
    ]

-- The dotted prefixes, from the parts of the path.
context_path :
    (path name : String)
    → split b'.' path ≡ "context" ∷ name ∷ []
    → (startswith path "source_data." ≡ false) × (startswith path "context." ≡ true)
context_path path name parts =
    rw (split_two path "context" name parts)
      (unfold startswith in rw cons-append refl, startswith-dot "context" name)

source_data_path :
    (path name : String)
    → split b'.' path ≡ "source_data" ∷ name ∷ []
    → startswith path "source_data." ≡ true
source_data_path path name parts =
    rw (split_two path "source_data" name parts) (startswith-dot "source_data" name)

-- In an event whose context is of its category and whose timestamp is readable, every path that has
-- a type resolves, to a value of that type or to no value.
pub resolve_event_field-Resolves :
    (event : NormalizedEvent) (path : String) (kind : FieldType)
    → validate_context_matches_category event ≡ true
    → IsReadable event.timestamp
    → field_type path event.category ≡ ok kind
    → Resolves path kind (resolve_event_field event path)
unfolding resolve_event_field
resolve_event_field-Resolves event path kind same readable h =
    elim (field_type-FieldPath event.category path kind h) [
      | common e (not_data, not_context, valid) ↦
          rw (h, not_data, not_context) (resolve_common-Resolves event path kind readable e)
      | in_context name parts e ↦
          let (not_data, is_context) = context_path path name parts in
          rw (h, not_data, is_context) (resolve_context-Resolves event path name kind same parts e)
      | retained name parts segment e ↦
          let kinds : checked (field_type path event.category) ≡ ok string_field = rw (h, e) in
          let is_data = source_data_path path name parts in
          rw (kinds, is_data, e) (resolve_source_data-Resolves event path name parts)
    ]
