-- ===== src/Plugins/Switch.antt =====
-- `SwitchDispatcher` of src/quads/plugins/dispatchers/switch.py. A plugin is a parameter: what matters of
-- its operation is whether it answers True, answers anything else, or raises. Each operation gives its
-- answer and the plugins that it called, in order.
pub mod Calls
use quads.Base.{Bool, true, false, if◌then◌else◌, List, [], ◌∷◌}

pub data Answer : Type 0 where
  affirmed other raised : Answer

abbrev pub is_true : Answer → Bool
is_true affirmed = true
is_true other = false
is_true raised = false

module _ {ℓ} {A : Type ℓ} (operation : A → Answer) where
  -- The loop of `configure` and `modify`: it returns at the first plugin that does not answer True.
  unfoldable pub until_failure : List A → Bool × List A
  until_failure [] = (true, [])
  until_failure (p ∷ plugins) =
      let rest = until_failure plugins in
      if is_true (operation p) then (rest.0, p ∷ rest.1) else (false, p ∷ [])

  -- The loop of `verify` and `ls_config`: it calls them all.
  unfoldable pub over_all : Bool → List A → Bool × List A
  over_all all_ok [] = (all_ok, [])
  over_all all_ok (p ∷ plugins) =
      let rest = over_all (if is_true (operation p) then all_ok else false) plugins in
      (rest.0, p ∷ rest.1)

  -- `configure` and `modify`
  unfoldable pub configure : List A → Bool × List A
  configure [] = (false, [])
  configure (p ∷ plugins) = until_failure (p ∷ plugins)

  -- `verify` and `ls_config`
  unfoldable pub verify : List A → Bool × List A
  verify [] = (false, [])
  verify (p ∷ plugins) = over_all true (p ∷ plugins)
