-- ===== src/Parsers/WindowsEvent/Timestamps.antt =====
-- The instant of a parsed timestamp, and the years that UTC can show.
use soc_investigation_lab.Common.{
  ℕ, ◌+◌, ◌-◌, ◌<◌, String, ◌≡◌, refl, Bool, true, false, ◌&&◌, Option, none, some, Result, ok, err,
  ◌>>=◌, ◌>>◌, guard, leb, ltb, arith, inl, inr, ◌⊎◌, Bool-cases,
}
use soc_investigation_lab.Python.Exceptions.{overflow_error}
use soc_investigation_lab.Python.Datetime.{
  Datetime, Zone, utc, ahead, behind, no_offset, broken, has_offset, astimezone_utc, end_of_time,
}
use soc_investigation_lab.Parsers.Errors.{invalid_raw_event, Raised, controlled, uncontrolled}
use soc_investigation_lab.Parsers.WindowsEvent.{builtin, iso_value, parse_timestamp}

-- How far a zone is ahead of UTC, and behind it, in microseconds.
abbrev pub east : Zone → ℕ
east (ahead n) = n
east _ = 0

abbrev pub west : Zone → ℕ
west (behind n) = n
west _ = 0

-- A fixed offset.
abbrev pub is_fixed : Zone → Bool
is_fixed no_offset = false
is_fixed (broken e) = false
is_fixed _ = true

-- Whether the instant in UTC is within the years 1 to 9999.
abbrev pub is_in_range : ℕ → Zone → Bool
is_in_range wall z = leb (east z) (wall + west z) && ltb (wall + west z) (end_of_time + east z)

-- The same instant, in UTC.
pub record IsInstant (wall : ℕ) (z : Zone) (u : Datetime) : Type 0 where
  pub in_utc : u.tzinfo ≡ some utc
  pub same : u.wall + east z ≡ wall + west z
  pub bounded : u.wall < end_of_time

-- The instant in UTC, or the overflow.
abbrev pub Converts : ℕ → Zone → Result Raised Datetime → Type 0
Converts wall z r =
    ((is_in_range wall z ≡ true) × ((u : Datetime) × (r ≡ ok u) × IsInstant wall z u))
    ⊎ ((is_in_range wall z ≡ false) × (r ≡ err (uncontrolled overflow_error)))

ahead_early :
    (n wall : ℕ) → wall < end_of_time → leb n wall ≡ true → is_in_range wall (ahead n) ≡ true
ahead_early n wall bounded early = ground arith

ahead_late : (n wall : ℕ) → leb n wall ≡ false → is_in_range wall (ahead n) ≡ false
ahead_late n wall late = ground arith

ahead-IsInstant :
    (n wall : ℕ)
    → wall < end_of_time
    → leb n wall ≡ true
    → IsInstant wall (ahead n) (record { wall = wall - n; tzinfo = some utc })
ahead-IsInstant n wall bounded early = record {
  in_utc = refl;
  same = ground arith;
  bounded = ground arith;
}

behind_early : (n wall : ℕ) → ltb (wall + n) end_of_time ≡ true → is_in_range wall (behind n) ≡ true
behind_early n wall early = ground arith

behind_late :
    (n wall : ℕ) → ltb (wall + n) end_of_time ≡ false → is_in_range wall (behind n) ≡ false
behind_late n wall late = ground arith

behind-IsInstant :
    (n wall : ℕ)
    → ltb (wall + n) end_of_time ≡ true
    → IsInstant wall (behind n) (record { wall = wall + n; tzinfo = some utc })
behind-IsInstant n wall early = record {
  in_utc = refl;
  same = ground arith;
  bounded = ground arith;
}

abbrev pub IsFixedOrNaive : Option Zone → Type 0
IsFixedOrNaive none = Unit
IsFixedOrNaive (some z) = is_fixed z ≡ true

abbrev pub AnswersAt : ℕ → Option Zone → Result Raised Datetime → Type 0
AnswersAt wall none r =
    r ≡ err (controlled (invalid_raw_event "SystemTime must include a timezone"))
AnswersAt wall (some z) r = Converts wall z r

converted-Converts :
    (wall : ℕ) (z : Zone)
    → wall < end_of_time
    → is_fixed z ≡ true
    → Converts wall z (builtin (astimezone_utc (record { wall = wall; tzinfo = some z })))
unfolding astimezone_utc
converted-Converts wall utc bounded h = inl (
  ground arith,
  (
    record { wall = wall; tzinfo = some utc },
    refl,
    record { in_utc = refl; same = refl; bounded = bounded },
  ),
)
converted-Converts wall (ahead n) bounded h = elim (Bool-cases (leb n wall)) [
  | inl early ↦
      inl
        (ahead_early n wall bounded early, (_, rw early refl, ahead-IsInstant n wall bounded early))
  | inr late ↦ inr (ahead_late n wall late, rw late refl)
]
converted-Converts wall (behind n) bounded h = elim (Bool-cases (ltb (wall + n) end_of_time)) [
  | inl early ↦ inl (behind_early n wall early, (_, rw early refl, behind-IsInstant n wall early))
  | inr late ↦ inr (behind_late n wall late, rw late refl)
]
converted-Converts wall no_offset bounded h = cc
converted-Converts wall (broken e) bounded h = cc

-- What `fromisoformat` may have read: a wall clock in the years 1 to 9999, with a fixed offset or
-- none.
abbrev pub IsRead : Option Datetime → Type 0
IsRead none = Unit
IsRead (some d) = (d.wall < end_of_time) × IsFixedOrNaive d.tzinfo

-- The answer to what was read.
abbrev pub Answers : Option Datetime → Result Raised Datetime → Type 0
Answers none r = r ≡ err (controlled (invalid_raw_event "SystemTime must be a valid datetime"))
Answers (some d) r = AnswersAt d.wall d.tzinfo r

read-Answers :
    (wall : ℕ) (z : Option Zone)
    → wall < end_of_time
    → IsFixedOrNaive z
    → AnswersAt wall z (do
      aware ← builtin (has_offset (record { wall = wall; tzinfo = z }))
      guard aware (controlled (invalid_raw_event "SystemTime must include a timezone"))
      builtin (astimezone_utc (record { wall = wall; tzinfo = z })))
unfolding has_offset
read-Answers wall none bounded h = refl
read-Answers wall (some utc) bounded h = converted-Converts wall utc bounded refl
read-Answers wall (some (ahead n)) bounded h = converted-Converts wall (ahead n) bounded refl
read-Answers wall (some (behind n)) bounded h = converted-Converts wall (behind n) bounded refl
read-Answers wall (some no_offset) bounded h = cc
read-Answers wall (some (broken e)) bounded h = cc

-- For a text of which `fromisoformat` reads nothing, or a wall clock of the years 1 to 9999 without a
-- zone or with a fixed offset, `parse_timestamp` rejects what is no datetime and what has no zone,
-- each with its own controlled error, and otherwise returns the same instant in UTC if that is in the
-- years 1 to 9999, and raises OverflowError exactly if it is not.
pub parse_timestamp-Answers :
    (fromisoformat : String → Option Datetime) (value : String) (o : Option Datetime)
    → fromisoformat (iso_value value) ≡ o
    → IsRead o
    → Answers o (parse_timestamp fromisoformat value)
unfolding parse_timestamp
parse_timestamp-Answers fromisoformat value none e h = rw e refl
parse_timestamp-Answers fromisoformat value (some d) e (bounded, fixed) =
    rw e (read-Answers d.wall d.tzinfo bounded fixed)
