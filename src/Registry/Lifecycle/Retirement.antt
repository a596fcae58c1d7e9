-- ===== src/Registry/Lifecycle/Retirement.antt =====
-- The retirement of an incarnation in lifecycle.go, whose session another one replaces.
use aht.Prelude.{◌≤◌, ◌≡◌, refl, true, false, some, is_some, arith}
use aht.Registry.Model.{Session, Observation, Time, ProcessIdentity, IncarnationState}
use aht.Registry.Evidence.{process_identity}
use aht.Registry.Lifecycle.{
  Action, Input, Transition, normalize_incarnation_input, select_action, prepared, transition,
  transition_incarnation,
}
use aht.Registry.Lifecycle.Normal.{IsNormal, normalize-IsNormal}
use aht.Registry.Lifecycle.Selection.{
  select-continue, select-replace, select-bind, select-resume, select-verify, select-retire,
}

-- What becomes of the incarnation.
abbrev pub Retires : Input → Transition → Type 0
Retires i t =
    (i.current.evidence_at ≤ i.at)
    × (t.next.state ≡ IncarnationState.exited)
    × (t.next.process ≡ i.current.process)
    × (t.next.previous ≡ i.current.previous)
    × (t.terminal ≡ true)
    × (t.reset ≡ false)

prepared-Retires :
    (i : Input) (a : Action)
    → IsNormal i
    → select_action i ≡ a
    → i.retire ≡ true
    → is_some i.process ≡ true
    → (transition i a).accepted ≡ true
    → Retires i (transition i a)
unfolding transition prepared
prepared-Retires i Action.reject v e r p t = cc
prepared-Retires i Action.ignore v e r p t = cc
prepared-Retires i Action.verify v e r p t =
    ground (arith, v.verifies_no_process, select-verify i e)
prepared-Retires i Action.retire v e r p t = ground (arith, select-retire i e)
prepared-Retires i Action.replace v e r p t = ground (arith, select-replace i e)
prepared-Retires i Action.bind v e r p t = ground (arith, select-bind i e)
prepared-Retires i Action.resume v e r p t = ground (arith, select-resume i e)
prepared-Retires i Action.continue v e r p t = ground (arith, select-continue i e)

-- An accepted retirement on an observation that names a process comes from evidence no older than
-- the last; it is terminal and without a reset, leaves the incarnation exited, and keeps its
-- process and the one before.
pub transition-Retires :
    (s : Session) (o : Observation) (at : Time) (p : ProcessIdentity)
    → process_identity o ≡ some p
    → (transition_incarnation s o at true).accepted ≡ true
    → Retires (normalize_incarnation_input s o at true) (transition_incarnation s o at true)
unfolding transition_incarnation normalize_incarnation_input
transition-Retires s o at p h t =
    let i = normalize_incarnation_input s o at true in
    prepared-Retires i (select_action i) (normalize-IsNormal s o at true) refl refl (ground arith) t
