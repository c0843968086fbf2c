-- ===== src/Helpers/Vlans.antt =====
-- The VLANs that src/quads/helpers/utils.py computes keep clouds apart.
use quads.Base.{
  some_same, ℕ, zero, suc, ◌+◌, ◌*◌, ◌≡◌, ◌<◌, sym, ◌∙◌, inl, inr, Option-cases, Option, none, some,
  arith,
}
use quads.Cli.{ℤ}
use quads.Helpers.{offsets, get_elem?, minus, chosen_index, with_offset, calculate_vlan}

-- The offset of an interface is its number.
offset_small : (i o : ℕ) → get_elem? offsets i ≡ some o → (o ≡ i) × (o < 10)
offset_small zero o h = ground arith
offset_small (suc zero) o h = ground arith
offset_small (suc (suc zero)) o h = ground arith
offset_small (suc (suc (suc zero))) o h = ground arith
offset_small (suc (suc (suc (suc zero)))) o h = ground arith
offset_small (suc (suc (suc (suc (suc i))))) o h = cc

minus_same : (a b c : ℕ) → minus a c ≡ minus b c → a ≡ b
minus_same a b c h = ground arith

offset_of :
    (vlan_first a i : ℕ) (v : ℤ)
    → with_offset vlan_first a (get_elem? offsets i) ≡ some v
    → (i < 10) × (minus (vlan_first + a * 10 + i) 10 ≡ v)
offset_of vlan_first a i v h = elim (Option-cases (get_elem? offsets i)) [
  | inl no_offset ↦ let k : with_offset vlan_first a none ≡ some v = rw no_offset at h in cc
  | inr (o, found) ↦
      let k : with_offset vlan_first a (some o) ≡ some v = rw found at h in
      let (same, small) = offset_small i o found in
      (omega (arith, same, small), rw (sym same) (some_same k))
]

from_index :
    (vlan_first a b i j : ℕ) (v : ℤ)
    → with_offset vlan_first a (get_elem? offsets i) ≡ some v
    → with_offset vlan_first b (get_elem? offsets j) ≡ some v
    → (a ≡ b) × (i ≡ j)
from_index vlan_first a b i j v h k =
    let (small_i, at_i) = offset_of vlan_first a i v h in
    let (small_j, at_j) = offset_of vlan_first b j v k in
    let same =
      minus_same (vlan_first + a * 10 + i) (vlan_first + b * 10 + j) 10 (at_i ∙ sym at_j) in
    (omega (arith, same, small_i, small_j), omega (arith, same, small_i, small_j))

-- Two interfaces are given one VLAN only if they are of one cloud and have one number, where QinQ gives
-- all interfaces of a cloud the number 0.
pub calculate_vlan-apart :
    (vlan_first a b : ℕ) (q r : Option ℕ) (i j : ℕ) (v : ℤ)
    → calculate_vlan vlan_first a q i ≡ some v
    → calculate_vlan vlan_first b r j ≡ some v
    → (a ≡ b) × (chosen_index q i ≡ chosen_index r j)
unfolding calculate_vlan
calculate_vlan-apart vlan_first a b q r i j v h k =
    from_index vlan_first a b (chosen_index q i) (chosen_index r j) v h k
