-- ===== src/Detection/Evaluator/Networks.antt =====
-- The comparison of an address with a network.
use soc_investigation_lab.Common.{ℕ, ◌*◌, ◌^◌, ◌≡◌, refl, ◌↔◌, Bool, true, [], ◌∷◌, ok}
use soc_investigation_lab.Python.Address.{Address, Network, in_network}
use soc_investigation_lab.Python.Address.Ranges.{IsWithin, in_network-IsWithin}
use soc_investigation_lab.Models.Condition.{ip_in_cidr}
use soc_investigation_lab.Detection.Semantics.{of_address, network}
use soc_investigation_lab.Detection.Evaluator.Compare.{compare_scalar}

-- For a network whose base address has no host bits set, the comparison of an address under
-- `ip_in_cidr` returns without an error, and returns true exactly for the addresses of the network's
-- version from its base to the last one before the base plus two to the number of host bits.
pub compare_scalar-IsWithin :
    (a : Address) (n : Network) (k : ℕ)
    → n.base ≡ k * 2 ^ n.host_bits
    → (b : Bool) × (compare_scalar (of_address a) ip_in_cidr (network n ∷ []) ≡ ok b)
      × ((b ≡ true) ↔ IsWithin a n)
unfolding compare_scalar
compare_scalar-IsWithin a n k aligned = (in_network a n, refl, in_network-IsWithin a n k aligned)
