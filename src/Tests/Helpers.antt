-- ===== src/Tests/Helpers.antt =====
-- Runs of src/quads/helpers/utils.py.
use quads.Base.{ℕ, ◌≡◌, refl, none, some, List, [], ◌∷◌, arith}
use quads.Cli.{pos}
use quads.Helpers.{chosen_index, calculate_vlan, date_span}
use quads.Helpers.Vlans.{calculate_vlan-apart}
use quads.Helpers.Span.{IsSpan, date_span-IsSpan}

second_interface : calculate_vlan 1100 2 none 1 ≡ some (pos 1111)
unfolding calculate_vlan
second_interface = refl

second_interface_qinq : calculate_vlan 1100 2 (some 0) 1 ≡ some (pos 1111)
unfolding calculate_vlan
second_interface_qinq = refl

calculate_vlan-apart_example : (◌≡◌ {A = ℕ} 2 2) × (chosen_index none 1 ≡ chosen_index (some 0) 1)
calculate_vlan-apart_example =
    calculate_vlan-apart 1100 2 2 none (some 0) 1 1 (pos 1111) second_interface
      second_interface_qinq

three_days : date_span 30 10 40 12 ≡ some (10 ∷ 22 ∷ 34 ∷ [])
unfolding date_span
three_days = refl

date_span-IsSpan_example :
    (dates : List ℕ) × (date_span 31 10 40 12 ≡ some dates) × IsSpan 10 40 12 dates
date_span-IsSpan_example = date_span-IsSpan 30 10 40 12 (omega arith) (omega arith)
