-- ===== src/Python/Datetime.antt =====
-- Python's datetime: a wall clock and an optional time zone.
use soc_investigation_lab.Common.{
  ℕ, ◌+◌, ◌-◌, Bool, true, false, ◌&&◌, ◌||◌, Option, none, some, Result, ok, err, leb, ltb, eqb,
  if◌then◌else◌,
}
use soc_investigation_lab.Python.Exceptions.{Exception, overflow_error, other_error}

-- A tzinfo by what its `utcoffset` does: `UTC` itself, an offset east or west of UTC in
-- microseconds, None, or an exception.
pub data Zone : Type 0 where
  utc : Zone
  ahead behind : ℕ → Zone
  no_offset : Zone
  broken : Exception → Zone

-- `wall` counts the microseconds from datetime.min to the wall clock.
pub record Datetime : Type 0 where
  pub wall : ℕ
  pub tzinfo : Option Zone

-- One microsecond after datetime.max.
abbrev pub end_of_time : ℕ
end_of_time = 315537897600000000

-- `value.utcoffset() is not None`
unfoldable pub has_offset : Datetime → Result Exception Bool
has_offset d = elim d.tzinfo [
  | none ↦ ok false
  | some utc ↦ ok true
  | some (ahead n) ↦ ok true
  | some (behind n) ↦ ok true
  | some no_offset ↦ ok false
  | some (broken e) ↦ err e
]

-- `value.astimezone(UTC)` of a value with an offset: an instant outside the years 1 to 9999 raises.
-- A value without an offset would be read in the zone of the host, which no caller does.
unfoldable pub astimezone_utc : Datetime → Result Exception Datetime
astimezone_utc d = elim d.tzinfo [
  | none ↦ err other_error
  | some utc ↦ ok d
  | some (ahead n) ↦
      if leb n d.wall
      then ok (record { wall = d.wall - n; tzinfo = some utc })
      else err overflow_error
  | some (behind n) ↦
      if ltb (d.wall + n) end_of_time
      then ok (record { wall = d.wall + n; tzinfo = some utc })
      else err overflow_error
  | some no_offset ↦ err other_error
  | some (broken e) ↦ err e
]

-- `value.tzinfo is UTC`
abbrev pub is_utc : Datetime → Bool
is_utc d = elim d.tzinfo [ some utc ↦ true | _ ↦ false ]

-- The offset west and east of UTC.
abbrev west : Datetime → ℕ
west d = elim d.tzinfo [ some (behind n) ↦ n | _ ↦ 0 ]

abbrev east : Datetime → ℕ
east d = elim d.tzinfo [ some (ahead n) ↦ n | _ ↦ 0 ]

abbrev is_naive : Datetime → Bool
is_naive d = elim d.tzinfo [ none ↦ true | some no_offset ↦ true | _ ↦ false ]

-- `a == b`: of the wall clocks less their offsets, without subtraction; a value without an offset
-- equals only another such. A zone that raises, whose comparison would raise, is not asked here: the
-- values that the source compares have an offset.
abbrev pub same_instant : Datetime → Datetime → Bool
same_instant a b =
    if is_naive a || is_naive b
    then is_naive a && is_naive b && eqb a.wall b.wall
    else eqb (a.wall + west a + east b) (b.wall + west b + east a)

-- `a <= b`, `a < b` and `a == b` of values in UTC, as alerts have them
abbrev pub datetime_leb : Datetime → Datetime → Bool
datetime_leb a b = leb a.wall b.wall

abbrev pub datetime_ltb : Datetime → Datetime → Bool
datetime_ltb a b = ltb a.wall b.wall

abbrev pub datetime_eq : Datetime → Datetime → Bool
datetime_eq a b = eqb a.wall b.wall
