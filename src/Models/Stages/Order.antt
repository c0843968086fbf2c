-- ===== src/Models/Stages/Order.antt =====
-- The stages of a move (src/quads/server/models.py): the values of the enumeration name its members, and
-- `stage_of` counts from 1 to the number of stages, with 0 for a text that is no status.
use quads.Base.{
  ◌≤◌, String, ◌≡◌, ◌↔◌, refl, ap, false, none, some, arith, str_eq, eq_iff, first_sound,
  Bool-cases, inl, inr, Option-cases,
}
use quads.Models.{MoveStatus, pending, completed, failed}
use quads.Models.Stages.{value, statuses, of_value, total_stages, stage_of}

-- Parsing the value of a status gives the status back.
pub of_value-value : (s : MoveStatus) → of_value (value s) ≡ some s
unfolding of_value
of_value-value pending = refl
of_value-value _ = refl

-- A text that parses is the value of the status that it parses to.
pub value-of_value : (t : String) (s : MoveStatus) → of_value t ≡ some s → value s ≡ t
unfolding of_value
value-of_value t s h = (eq_iff (value s) t).0 (first_sound (λ x. str_eq (value x) t) statuses s h)

-- The stage of each status, in the order of the enumeration.
stage_of-value : (s : MoveStatus) → (1 ≤ stage_of (value s)) × (stage_of (value s) ≤ total_stages)
unfolding stage_of value
stage_of-value pending = omega arith
stage_of-value _ = omega arith

unknown_text : (t : String) (s : MoveStatus) → of_value t ≡ none → str_eq t (value s) ≡ false
unknown_text t s h = elim (Bool-cases (str_eq t (value s))) [
  | inl equal ↦
      let same = (eq_iff t (value s)).0 equal in
      let known = ap of_value same in let parsed = of_value-value s in cc
  | inr differs ↦ differs
]

unknown_stage : (t : String) → of_value t ≡ none → stage_of t ≡ 0
unfolding stage_of
unknown_stage t h =
    let not_completed = unknown_text t completed h in
    let not_failed = unknown_text t failed h in ground arith

stage_of_known :
    (t : String) (s : MoveStatus)
    → of_value t ≡ some s
    → (1 ≤ stage_of t) × (stage_of t ≤ total_stages)
stage_of_known t s h =
    let same = ap stage_of (value-of_value t s h) in
    let range = stage_of-value s in (omega arith, omega arith)

-- A text has stage 0 exactly when it is no status, and no stage is past the last.
pub stage_of_iff :
    (t : String) → (stage_of t ≤ total_stages) × ((stage_of t ≡ 0) ↔ (of_value t ≡ none))
stage_of_iff t = elim (Option-cases (of_value t)) [
  | inl none_found ↦
      let at_zero = unknown_stage t none_found in (omega arith, (λ _. none_found, λ _. at_zero))
  | inr (s, found) ↦
      let range = stage_of_known t s found in (range.1, (λ at_zero. ground arith, λ unknown. cc))
]
