-- ===== src/Helpers.antt =====
-- src/quads/helpers/utils.py: the VLANs of a cloud's interfaces, and the days of a report.
pub mod Vlans
pub mod Span
use quads.Base.{
  ℕ, zero, suc, ◌+◌, ◌-◌, ◌*◌, Bool, true, false, Option, none, some, List, [], ◌∷◌, ltb, leb, ◌==◌,
  if◌then◌else◌,
}
use quads.Cli.{ℤ, pos, negsuc}

-- `list(Config.OFFSETS.values())` of src/quads/config.py
abbrev pub offsets : List ℕ
offsets = 0 ∷ 1 ∷ 2 ∷ 3 ∷ 4 ∷ []

-- `values[index]`, which raises past the end
abbrev pub get_elem? {ℓ} : {A : Type ℓ} → List A → ℕ → Option A
get_elem? [] i = none
get_elem? (x ∷ xs) zero = some x
get_elem? (x ∷ xs) (suc i) = get_elem? xs i

-- The difference of two numbers, which may be negative.
abbrev pub minus : ℕ → ℕ → ℤ
minus a b = if leb b a then pos (a - b) else negsuc (b - a - 1)

abbrev pub is_qinq : Option ℕ → Bool
is_qinq none = false
is_qinq (some n) = n == 1

-- `if qinq == 1: index = 0`
abbrev pub chosen_index : Option ℕ → ℕ → ℕ
chosen_index qinq index = if is_qinq qinq then 0 else index

abbrev pub with_offset : ℕ → ℕ → Option ℕ → Option ℤ
with_offset vlan_first cloud_id none = none
with_offset vlan_first cloud_id (some offset) =
    some (minus (vlan_first + cloud_id * 10 + offset) 10)

-- `calculate_vlan`; `vlan_first` is `Config.sw_vlan_first`, and `none` is `IndexError`.
unfoldable pub calculate_vlan : ℕ → ℕ → Option ℕ → ℕ → Option ℤ
calculate_vlan vlan_first cloud_id qinq index =
    with_offset vlan_first cloud_id (get_elem? offsets (chosen_index qinq index))

abbrev pub push {ℓ} : {A : Type ℓ} → A → Option (List A) → Option (List A)
push x none = none
push x (some xs) = some (x ∷ xs)

-- `date_span`: all that the generator yields, where its loop takes fewer turns than the fuel.
unfoldable pub date_span : ℕ → ℕ → ℕ → ℕ → Option (List ℕ)
date_span zero current end delta = none
date_span (suc fuel) current end delta =
    let rest = date_span fuel (current + delta) end delta in
    if ltb current end then push current rest else some []
