-- ===== src/Python/Value.antt =====
-- The objects that a field declared as `Any` can hold, by their exact type. `enum_text` is a member
-- of a StrEnum with its value, and `other` is an object of any type that the source does not name.
use soc_investigation_lab.Common.{ℕ, String, ◌≡◌, ◌↔◌, Bool, true, eqb, arith, Eq}
use soc_investigation_lab.Python.Int.{ℤ}
use soc_investigation_lab.Python.Datetime.{Datetime}
use soc_investigation_lab.Python.Address.{Address}

pub data Value : Type 0 where
  none_value other : Value
  boolean : Bool → Value
  integer : ℤ → Value
  string : String → Value
  enum_text : String → Value
  timestamp : Datetime → Value
  address : Address → Value

pub data Class : Type 0 where
  none_class other_class bool_class int_class str_class enum_class datetime_class : Class
  address_class : Class

-- `type(value)`
abbrev pub type_of : Value → Class
type_of none_value = none_class
type_of other = other_class
type_of (boolean b) = bool_class
type_of (integer n) = int_class
type_of (string s) = str_class
type_of (enum_text s) = enum_class
type_of (timestamp d) = datetime_class
type_of (address a) = address_class

abbrev class_index : Class → ℕ
class_index none_class = 0
class_index other_class = 1
class_index bool_class = 2
class_index int_class = 3
class_index str_class = 4
class_index enum_class = 5
class_index datetime_class = 6
class_index address_class = 7

pub class_eq_iff : (a b : Class) → (eqb (class_index a) (class_index b) ≡ true) ↔ (a ≡ b)
class_eq_iff a b = ground arith

instance abbrev pub class_eq : Eq Class
class_eq = record { beq = λ a b. eqb (class_index a) (class_index b); beq_iff = class_eq_iff }
