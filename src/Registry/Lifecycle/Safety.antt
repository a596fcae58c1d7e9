-- ===== src/Registry/Lifecycle/Safety.antt =====
-- What `transitionIncarnation` of lifecycle.go may do to the incarnation of a session.
use aht.Prelude.{◌≤◌, ◌≡◌, refl, Bool, true, false, some, none, arith}
use aht.Registry.Model.{Evidence, Report, Session, Observation, Time, IncarnationState}
use aht.Registry.Values.{complete, same_process, same_process_refl}
use aht.Registry.Lifecycle.{
  Action, Input, Transition, normalize_incarnation_input, select_action, prepared, transition,
  transition_incarnation, apply_evidence, is_terminal, previous_process, report_ends,
}
use aht.Registry.Lifecycle.Effects.{
  apply_evidence-frame, apply_evidence-evidence, apply_evidence-process, apply_evidence-state,
}
use aht.Registry.Lifecycle.Normal.{IsNormal, normalize-IsNormal}
use aht.Registry.Lifecycle.Selection.{
  select-continue, select-replace, select-bind, select-resume, select-verify, select-retire,
}

-- Evidence of the same process leaves a known process in place.
apply_evidence-same :
    (i : Input) (t : Transition)
    → IsNormal i
    → i.different ≡ false
    → complete i.current.process ≡ true
    → t.next.process ≡ i.current.process
    → same_process i.current.process (apply_evidence i t).next.process ≡ true
apply_evidence-same i t v d c e =
    ground
      (arith, v.different_is, apply_evidence-process i t, same_process_refl i.current.process c)

-- A known process is exchanged for another only by `replace`.
process-change-replace :
    (i : Input) (a : Action)
    → IsNormal i
    → select_action i ≡ a
    → complete i.current.process ≡ true
    → same_process i.current.process (transition i a).next.process ≡ false
    → a ≡ Action.replace
unfolding transition prepared
process-change-replace i Action.reject v e c d = cc (same_process_refl i.current.process c)
process-change-replace i Action.ignore v e c d = cc (same_process_refl i.current.process c)
process-change-replace i Action.verify v e c d = cc (same_process_refl i.current.process c)
process-change-replace i Action.retire v e c d = cc (same_process_refl i.current.process c)
process-change-replace i Action.replace v e c d = refl
process-change-replace i Action.bind v e c d = cc (select-bind i e).1
process-change-replace i Action.resume v e c d =
    cc (apply_evidence-same i (prepared i Action.resume) v (select-resume i e).1 c refl)
process-change-replace i Action.continue v e c d =
    cc (
      apply_evidence-same i (prepared i Action.continue) v (select-continue i e).1 c (ground arith))

abbrev pub Replaces : Input → Transition → Type 0
Replaces i t =
    (i.current.evidence_at ≤ i.at)
    × (i.retire ≡ false)
    × (i.end ≡ false)
    × (i.absent ≡ false)
    × (previous_process i ≡ false)
    × (t.reset ≡ true)
    × (t.next.previous ≡ some i.current.process)

process-change-facts :
    (i : Input) (a : Action)
    → IsNormal i
    → select_action i ≡ a
    → complete i.current.process ≡ true
    → same_process i.current.process (transition i a).next.process ≡ false
    → Replaces i (transition i a)
unfolding transition prepared
process-change-facts i Action.replace v e c d =
    ground (arith, select-replace i e, apply_evidence-frame i (prepared i Action.replace))
process-change-facts i a v e c d = cc (process-change-replace i a v e c d)

-- Where a transition exchanges the known process of an incarnation, its evidence is no older than
-- the last, it neither ends nor misses the process, no retirement is under way and the process is
-- not the one replaced before; the incarnation is reset and remembers the old process.
pub transition-process :
    (s : Session) (o : Observation) (at : Time) (retiring : Bool)
    → complete s.incarnation.process ≡ true
    → same_process s.incarnation.process (transition_incarnation s o at retiring).next.process
      ≡ false
    → Replaces
        (normalize_incarnation_input s o at retiring)
        (transition_incarnation s o at retiring)
unfolding transition_incarnation normalize_incarnation_input
transition-process s o at retiring c d =
    let i = normalize_incarnation_input s o at retiring in
    process-change-facts i (select_action i) (normalize-IsNormal s o at retiring) refl c d

-- The terminal flag of an accepted transition.
prepared-terminal :
    (i : Input) (a : Action)
    → IsNormal i
    → select_action i ≡ a
    → (transition i a).accepted ≡ true
    → (transition i a).terminal ≡ is_terminal (transition i a).next.state
unfolding transition prepared
prepared-terminal i Action.reject v e h = cc
prepared-terminal i Action.ignore v e h = cc
prepared-terminal i Action.verify v e h = ground arith
prepared-terminal i Action.retire v e h = refl
prepared-terminal i Action.replace v e h =
    ground (arith, apply_evidence-state i (prepared i Action.replace))
prepared-terminal i Action.bind v e h =
    ground (arith, apply_evidence-state i (prepared i Action.bind))
prepared-terminal i Action.resume v e h =
    ground (arith, apply_evidence-state i (prepared i Action.resume))
prepared-terminal i Action.continue v e h =
    ground (
      arith,
      v.terminal_is,
      select-continue i e,
      apply_evidence-state i (prepared i Action.continue),
    )

-- The terminal flag of an accepted transition says whether it leaves the incarnation ended or
-- exited.
pub transition-terminal :
    (s : Session) (o : Observation) (at : Time) (retiring : Bool)
    → (transition_incarnation s o at retiring).accepted ≡ true
    → (transition_incarnation s o at retiring).terminal
      ≡ is_terminal (transition_incarnation s o at retiring).next.state
unfolding transition_incarnation
transition-terminal s o at retiring h =
    let i = normalize_incarnation_input s o at retiring in
    prepared-terminal i (select_action i) (normalize-IsNormal s o at retiring) refl h

prepared-terminal_stays :
    (i : Input) (a : Action)
    → IsNormal i
    → select_action i ≡ a
    → i.terminal ≡ true
    → (transition i a).reset ≡ false
    → is_terminal (transition i a).next.state ≡ true
unfolding transition prepared
prepared-terminal_stays i Action.reject v e h r = ground (arith, v.terminal_is)
prepared-terminal_stays i Action.ignore v e h r = ground (arith, v.terminal_is)
prepared-terminal_stays i Action.verify v e h r = cc (select-verify i e).1
prepared-terminal_stays i Action.retire v e h r = refl
prepared-terminal_stays i Action.replace v e h r =
    cc (apply_evidence-frame i (prepared i Action.replace)).1
prepared-terminal_stays i Action.bind v e h r =
    cc (apply_evidence-frame i (prepared i Action.bind)).1
prepared-terminal_stays i Action.resume v e h r =
    cc (apply_evidence-frame i (prepared i Action.resume)).1
prepared-terminal_stays i Action.continue v e h r =
    ground (
      arith,
      v.terminal_is,
      select-continue i e,
      apply_evidence-state i (prepared i Action.continue),
    )

prepared-evidence :
    (i : Input) (a : Action)
    → (transition i a).reset ≡ false
    → i.current.evidence_at ≤ (transition i a).next.evidence_at
unfolding transition prepared
prepared-evidence i Action.reject r = omega arith
prepared-evidence i Action.ignore r = omega arith
prepared-evidence i Action.verify r = omega arith
prepared-evidence i Action.retire r = omega arith
prepared-evidence i Action.replace r = cc (apply_evidence-frame i (prepared i Action.replace)).1
prepared-evidence i Action.bind r = cc (apply_evidence-frame i (prepared i Action.bind)).1
prepared-evidence i Action.resume r = cc (apply_evidence-frame i (prepared i Action.resume)).1
prepared-evidence i Action.continue r =
    ground (arith, apply_evidence-evidence i (prepared i Action.continue))

-- A transition without a reset leaves an ended or exited incarnation ended or exited.
pub transition-terminal_stays :
    (s : Session) (o : Observation) (at : Time) (retiring : Bool)
    → is_terminal s.incarnation.state ≡ true
    → (transition_incarnation s o at retiring).reset ≡ false
    → is_terminal (transition_incarnation s o at retiring).next.state ≡ true
unfolding transition_incarnation normalize_incarnation_input
transition-terminal_stays s o at retiring h r =
    let i = normalize_incarnation_input s o at retiring in
    prepared-terminal_stays i (select_action i) (normalize-IsNormal s o at retiring) refl h r

-- A transition without a reset does not take the time of the last evidence back.
pub transition-evidence :
    (s : Session) (o : Observation) (at : Time) (retiring : Bool)
    → (transition_incarnation s o at retiring).reset ≡ false
    → s.incarnation.evidence_at ≤ (transition_incarnation s o at retiring).next.evidence_at
unfolding transition_incarnation normalize_incarnation_input
transition-evidence s o at retiring r =
    let i = normalize_incarnation_input s o at retiring in prepared-evidence i (select_action i) r

prepared-end :
    (i : Input) (a : Action)
    → select_action i ≡ a
    → i.verification ≡ none
    → i.retire ≡ false
    → i.end ≡ true
    → (transition i a).accepted ≡ true
    → (i.current.evidence_at ≤ i.at)
      × ((transition i a).next.state ≡ IncarnationState.ended)
      × ((transition i a).terminal ≡ true)
unfolding transition prepared
prepared-end i Action.reject e n r h t = cc
prepared-end i Action.ignore e n r h t = cc
prepared-end i Action.verify e n r h t = ground (arith, select-verify i e)
prepared-end i Action.retire e n r h t = ground (arith, select-retire i e)
prepared-end i Action.replace e n r h t = ground (arith, select-replace i e)
prepared-end i Action.bind e n r h t = ground (arith, select-bind i e)
prepared-end i Action.resume e n r h t =
    ground (arith, select-resume i e, apply_evidence-state i (prepared i Action.resume))
prepared-end i Action.continue e n r h t =
    ground (arith, select-continue i e, apply_evidence-state i (prepared i Action.continue))

-- A report that ends its session, where it is accepted outside a retirement, is no older than the
-- last evidence and leaves the incarnation ended.
pub transition-report_ends :
    (s : Session) (o : Observation) (at : Time) (r : Report)
    → o.evidence ≡ Evidence.report r
    → report_ends r ≡ true
    → (transition_incarnation s o at false).accepted ≡ true
    → (s.incarnation.evidence_at ≤ at)
      × ((transition_incarnation s o at false).next.state ≡ IncarnationState.ended)
      × ((transition_incarnation s o at false).terminal ≡ true)
unfolding transition_incarnation normalize_incarnation_input
transition-report_ends s o at r e h t =
    let i = normalize_incarnation_input s o at false in
    prepared-end i (select_action i) refl (ground arith) refl (ground arith) t
