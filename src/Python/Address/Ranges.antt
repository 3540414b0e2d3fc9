-- ===== src/Python/Address/Ranges.antt =====
-- The addresses of a network are those of a range.
use soc_investigation_lab.Common.{
  ℕ, zero, suc, ◌*◌, ◌/◌, ◌+◌, ◌^◌, ◌≤◌, ◌<◌, ◌≡◌, sym, ◌∙◌, ◌↔◌, true, eqb, arith, and-eq-true,
  ◌==◌,
}
use soc_investigation_lab.Python.Address.{Address, Network, version_eq, masked, in_network}

masked_low : (n d k : ℕ) → 0 < d → n / d * d ≡ k * d → k * d ≤ n
masked_low n d k positive h = grind arith

masked_high : (n d k : ℕ) → 0 < d → n / d * d ≡ k * d → n < k * d + d
masked_high n d k positive h = grind arith

masked_back : (n d k : ℕ) → 0 < d → k * d ≤ n → n < k * d + d → n / d * d ≡ k * d
masked_back n d k positive low high = grind arith

power_positive : (h : ℕ) → 0 < 2 ^ h
power_positive zero = omega arith
power_positive (suc h) = omega (arith, power_positive h)

eqb-eq : (m n : ℕ) → eqb m n ≡ true → m ≡ n
eqb-eq m n h = ground (arith, h)

eq-eqb : (m n : ℕ) → m ≡ n → eqb m n ≡ true
eq-eqb m n h = ground (arith, h)

-- The range of a network whose base has no host bits set.
abbrev pub IsWithin : Address → Network → Type 0
IsWithin a n = (a.version ≡ n.version) × (n.base ≤ a.number) × (a.number < n.base + 2 ^ n.host_bits)

pub in_network-IsWithin :
    (a : Address) (n : Network) (k : ℕ)
    → n.base ≡ k * 2 ^ n.host_bits
    → (in_network a n ≡ true) ↔ IsWithin a n
unfolding in_network
in_network-IsWithin a n k aligned =
    let positive = power_positive n.host_bits in
    (
      λ h.
          let (versions, masks) =
            and-eq-true (a.version == n.version) (eqb (masked a.number n.host_bits) n.base) h in
          let same = eqb-eq (masked a.number n.host_bits) n.base masks ∙ aligned in
          (
            (version_eq.beq_iff a.version n.version).0 versions,
            rw aligned (masked_low a.number (2 ^ n.host_bits) k positive same),
            rw aligned (masked_high a.number (2 ^ n.host_bits) k positive same),
          ),
      λ (versions, low, high). rw ((version_eq.beq_iff a.version n.version).1 versions) (
          eq-eqb (masked a.number n.host_bits) n.base (
            masked_back a.number (2 ^ n.host_bits) k positive (rw (← aligned) low)
              (rw (← aligned) high)
            ∙ sym aligned)),
    )
