-- ===== src/Models/Stages.antt =====
-- `MoveStatus` and `Schedule.stage_of` of src/quads/server/models.py.
pub mod Order
use quads.Base.{
  ℕ, ◌+◌, String, Bool, true, false, not, ◌||◌, Option, none, some, List, [], ◌∷◌, str_eq, first,
  select, length, if◌then◌else◌,
}
use quads.Models.{
  MoveStatus, pending, switch_config, ipmi_config, hardware_prep, power_on, provisioning, cleanup,
  reboot, post_install, foreman_rbac, validation, released, completed, failed,
}

-- `status.value`
unfoldable pub value : MoveStatus → String
value pending = "pending"
value switch_config = "switch_config"
value ipmi_config = "ipmi_config"
value hardware_prep = "hardware_prep"
value power_on = "power_on"
value provisioning = "provisioning"
value cleanup = "cleanup"
value reboot = "reboot"
value post_install = "post_install"
value foreman_rbac = "foreman_rbac"
value validation = "validation"
value released = "released"
value completed = "completed"
value failed = "failed"

-- The members in the order of the enumeration.
abbrev pub statuses : List MoveStatus
statuses =
    pending ∷ switch_config ∷ ipmi_config ∷ hardware_prep ∷ power_on ∷ provisioning ∷ cleanup
    ∷ reboot ∷ post_install ∷ foreman_rbac ∷ validation ∷ released ∷ completed ∷ failed ∷ []

-- `MoveStatus(text)`, with `none` for `ValueError`
unfoldable pub of_value : String → Option MoveStatus
unfolding value
of_value text = first (λ s. str_eq (value s) text) statuses

abbrev pub is_final : MoveStatus → Bool
is_final completed = true
is_final failed = true
is_final _ = false

-- `PROGRESSIVE_STAGES` and `TOTAL_STAGES`
abbrev pub progressive_stages : List MoveStatus
progressive_stages = select (λ s. not (is_final s)) statuses

abbrev pub total_stages : ℕ
total_stages = length progressive_stages

-- `list.index`, counted from `i`; `none` for `ValueError`
unfoldable pub index_from : ℕ → MoveStatus → List MoveStatus → Option ℕ
unfolding value
index_from i s [] = none
index_from i s (x ∷ xs) = if str_eq (value x) (value s) then some i else index_from (i + 1) s xs

abbrev pub stage_of_index : Option ℕ → ℕ
stage_of_index none = 0
stage_of_index (some i) = i + 1

abbrev pub stage_of_status : Option MoveStatus → ℕ
stage_of_status none = 0
stage_of_status (some s) = stage_of_index (index_from 0 s progressive_stages)

unfoldable pub stage_of : String → ℕ
unfolding index_from of_value
stage_of status =
    if str_eq status "completed" || str_eq status "failed"
    then total_stages
    else stage_of_status (of_value status)
