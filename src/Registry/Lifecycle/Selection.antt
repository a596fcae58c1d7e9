-- ===== src/Registry/Lifecycle/Selection.antt =====
-- Which guards hold when the rule table of `transitionIncarnation` selects an action.
use aht.Prelude.{◌≤◌, ◌<◌, ◌≡◌, true, false, arith, is_some, ◌⊎◌}
use aht.Registry.Values.{complete, le-max_time-left}
use aht.Registry.Lifecycle.{Action, Input, select_action, previous_process}

module _ (i : Input) where
  pub select-continue :
      select_action i ≡ Action.continue
      → (i.retire ≡ false)
        × (i.different ≡ false)
        × ((i.terminal ≡ false) ⊎ (i.end ≡ true) ⊎ ((is_some i.report ≡ false) × (i.absent ≡ true)))
        × (((i.end ≡ false) × (i.absent ≡ false)) ⊎ (i.current.evidence_at ≤ i.at))
  unfolding select_action
  select-continue h = ground arith

  pub select-replace :
      select_action i ≡ Action.replace
      → (i.retire ≡ false)
        × (i.different ≡ true)
        × (previous_process i ≡ false)
        × (i.end ≡ false)
        × (i.absent ≡ false)
        × (i.current.evidence_at ≤ i.at)
  unfolding select_action
  select-replace h = ground arith

  pub select-bind :
      select_action i ≡ Action.bind
      → (i.retire ≡ false)
        × (complete i.current.process ≡ false)
        × (i.end ≡ false)
        × (i.current.evidence_at ≤ i.at)
  unfolding select_action
  select-bind h = ground arith

  pub select-resume :
      select_action i ≡ Action.resume
      → (i.retire ≡ false)
        × (i.different ≡ false)
        × (i.terminal ≡ true)
        × (i.start ≡ true)
        × (i.current.evidence_at < i.at)
  unfolding select_action
  select-resume h = ground (arith, le-max_time-left i.current.evidence_at i.current.transition_at)

  pub select-verify :
      select_action i ≡ Action.verify
      → (is_some i.verification ≡ true)
        × (i.terminal ≡ false)
        × (complete i.current.process ≡ false)
        × (i.current.evidence_at ≤ i.at)
  unfolding select_action
  select-verify h = ground arith

  pub select-retire :
      select_action i ≡ Action.retire
      → (i.retire ≡ true) × (i.end ≡ false) × (i.current.evidence_at ≤ i.at)
  unfolding select_action
  select-retire h = ground arith

  pub select-verification :
      is_some i.verification ≡ true
      → (select_action i ≡ Action.verify) ⊎ (select_action i ≡ Action.reject)
  unfolding select_action
  select-verification h = ground arith
