-- ===== src/Python/Address.antt =====
-- Python's ipaddress values, for both versions: an address is a number, a network is a base address
-- and a number of host bits.
pub mod Ranges
use soc_investigation_lab.Common.{
  ℕ, ◌*◌, ◌/◌, ◌^◌, String, ◌≡◌, ◌↔◌, Bool, true, ◌&&◌, eqb, arith, ◌==◌, Eq, string_eq,
}

pub data Version : Type 0 where
  v4 v6 : Version

abbrev version_number : Version → ℕ
version_number v4 = 4
version_number v6 = 6

pub version_eq_iff : (a b : Version) → (eqb (version_number a) (version_number b) ≡ true) ↔ (a ≡ b)
version_eq_iff a b = ground arith

instance abbrev pub version_eq : Eq Version
version_eq = record {
  beq = λ a b. eqb (version_number a) (version_number b);
  beq_iff = version_eq_iff;
}

-- `scope` is the scope id of an IPv6 address, "" where there is none.
pub record Address : Type 0 where
  pub version : Version
  pub number : ℕ
  pub scope : String

pub record Network : Type 0 where
  pub version : Version
  pub base : ℕ
  pub host_bits : ℕ

-- `a == b`
abbrev pub address_eq : Address → Address → Bool
address_eq a b = a.version == b.version && eqb a.number b.number && a.scope == b.scope

-- `a & netmask`
abbrev pub masked : ℕ → ℕ → ℕ
masked number host_bits = number / 2 ^ host_bits * 2 ^ host_bits

-- `address in network`
unfoldable pub in_network : Address → Network → Bool
in_network a n = a.version == n.version && eqb (masked a.number n.host_bits) n.base
