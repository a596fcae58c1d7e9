-- ===== src/Registry/Lifecycle/Effects.antt =====
-- What each statement of `applyEvidence` in lifecycle.go changes.
use aht.Prelude.{◌≤◌, ◌≡◌, ◌⊎◌, true, false, some, arith}
use aht.Registry.Model.{ProcessIdentity, Incarnation, IncarnationState}
use aht.Registry.Values.{complete, le-max_time-left}
use aht.Registry.Lifecycle.{
  Input, Transition, adopt_process, adopt_time, apply_state, record_evidence, apply_evidence,
}

-- A live state, or the state as it was.
abbrev pub RunsOn : IncarnationState → IncarnationState → Type 0
RunsOn old new = (new ≡ IncarnationState.live) ⊎ (new ≡ IncarnationState.starting) ⊎ (new ≡ old)

module _ (i : Input) (n : Incarnation) where
  adopt_process-state : (adopt_process i n).state ≡ n.state
  unfolding adopt_process
  adopt_process-state = ground arith

  adopt_process-evidence : (adopt_process i n).evidence_at ≡ n.evidence_at
  unfolding adopt_process
  adopt_process-evidence = ground arith

  adopt_process-previous : (adopt_process i n).previous ≡ n.previous
  unfolding adopt_process
  adopt_process-previous = ground arith

  adopt_process-process :
      ((adopt_process i n).process ≡ n.process)
      ⊎ ((i.process ≡ some (adopt_process i n).process)
          × (complete (adopt_process i n).process ≡ true))
  unfolding adopt_process
  adopt_process-process = ground arith

  adopt_process-adopts :
      (p : ProcessIdentity)
      → i.process ≡ some p
      → complete p ≡ true
      → (adopt_process i n).process ≡ p
  unfolding adopt_process
  adopt_process-adopts p e h = ground arith

  adopt_time-state : (adopt_time i n).state ≡ n.state
  unfolding adopt_time
  adopt_time-state = ground arith

  adopt_time-evidence : (adopt_time i n).evidence_at ≡ n.evidence_at
  unfolding adopt_time
  adopt_time-evidence = ground arith

  adopt_time-process : (adopt_time i n).process ≡ n.process
  unfolding adopt_time
  adopt_time-process = ground arith

  adopt_time-previous : (adopt_time i n).previous ≡ n.previous
  unfolding adopt_time
  adopt_time-previous = ground arith

module _ (i : Input) (t : Transition) where
  apply_state-frame :
      ((apply_state i t).next.process ≡ t.next.process)
      × ((apply_state i t).next.evidence_at ≡ t.next.evidence_at)
      × ((apply_state i t).next.previous ≡ t.next.previous)
      × ((apply_state i t).reset ≡ t.reset)
      × ((apply_state i t).accepted ≡ t.accepted)
      × ((apply_state i t).ignored ≡ t.ignored)
  unfolding apply_state
  apply_state-frame = ground arith

  -- The incarnation ends, or it runs on in one of the two live states or its own.
  apply_state-state :
      ((i.end ≡ true)
        × ((apply_state i t).next.state ≡ IncarnationState.ended)
        × ((apply_state i t).terminal ≡ true))
      ⊎ ((i.end ≡ false)
          × (i.absent ≡ true)
          × ((apply_state i t).next.state ≡ IncarnationState.exited)
          × ((apply_state i t).terminal ≡ true))
      ⊎ ((i.end ≡ false)
          × (i.absent ≡ false)
          × ((apply_state i t).terminal ≡ t.terminal)
          × RunsOn t.next.state (apply_state i t).next.state)
  unfolding apply_state
  apply_state-state = ground arith

  record_evidence-frame :
      ((record_evidence i t).next.process ≡ t.next.process)
      × ((record_evidence i t).next.state ≡ t.next.state)
      × ((record_evidence i t).next.transition_at ≡ t.next.transition_at)
      × ((record_evidence i t).next.previous ≡ t.next.previous)
      × ((record_evidence i t).reset ≡ t.reset)
      × ((record_evidence i t).terminal ≡ t.terminal)
      × ((record_evidence i t).accepted ≡ t.accepted)
      × ((record_evidence i t).ignored ≡ t.ignored)
  unfolding record_evidence
  record_evidence-frame = ground arith

  record_evidence-evidence : t.next.evidence_at ≤ (record_evidence i t).next.evidence_at
  unfolding record_evidence
  record_evidence-evidence = ground (arith, le-max_time-left t.next.evidence_at i.at)

-- The whole of `applyEvidence`, by what it does to each field.
module _ (i : Input) (t : Transition) where
  abbrev adopted : Transition
  adopted = record t { next = adopt_time i (adopt_process i t.next) }

  pub apply_evidence-frame :
      ((apply_evidence i t).next.previous ≡ t.next.previous)
      × ((apply_evidence i t).reset ≡ t.reset)
      × ((apply_evidence i t).accepted ≡ t.accepted)
      × ((apply_evidence i t).ignored ≡ t.ignored)
  unfolding apply_evidence
  apply_evidence-frame = ground (
    arith,
    record_evidence-frame i (apply_state i adopted),
    apply_state-frame i adopted,
    adopt_time-previous i (adopt_process i t.next),
    adopt_process-previous i t.next,
  )

  pub apply_evidence-evidence : t.next.evidence_at ≤ (apply_evidence i t).next.evidence_at
  unfolding apply_evidence
  apply_evidence-evidence = ground (
    arith,
    record_evidence-evidence i (apply_state i adopted),
    apply_state-frame i adopted,
    adopt_time-evidence i (adopt_process i t.next),
    adopt_process-evidence i t.next,
  )

  pub apply_evidence-process :
      ((apply_evidence i t).next.process ≡ t.next.process)
      ⊎ ((i.process ≡ some (apply_evidence i t).next.process)
          × (complete (apply_evidence i t).next.process ≡ true))
  unfolding apply_evidence
  apply_evidence-process = ground (
    arith,
    record_evidence-frame i (apply_state i adopted),
    apply_state-frame i adopted,
    adopt_time-process i (adopt_process i t.next),
    adopt_process-process i t.next,
  )

  pub apply_evidence-adopts :
      (p : ProcessIdentity)
      → i.process ≡ some p
      → complete p ≡ true
      → (apply_evidence i t).next.process ≡ p
  unfolding apply_evidence
  apply_evidence-adopts p e h = ground (
    arith,
    record_evidence-frame i (apply_state i adopted),
    apply_state-frame i adopted,
    adopt_time-process i (adopt_process i t.next),
    adopt_process-adopts i t.next p e h,
  )

  pub apply_evidence-state :
      ((i.end ≡ true)
        × ((apply_evidence i t).next.state ≡ IncarnationState.ended)
        × ((apply_evidence i t).terminal ≡ true))
      ⊎ ((i.end ≡ false)
          × (i.absent ≡ true)
          × ((apply_evidence i t).next.state ≡ IncarnationState.exited)
          × ((apply_evidence i t).terminal ≡ true))
      ⊎ ((i.end ≡ false)
          × (i.absent ≡ false)
          × ((apply_evidence i t).terminal ≡ t.terminal)
          × RunsOn t.next.state (apply_evidence i t).next.state)
  unfolding apply_evidence
  apply_evidence-state = ground (
    arith,
    record_evidence-frame i (apply_state i adopted),
    apply_state-state i adopted,
    adopt_time-state i (adopt_process i t.next),
    adopt_process-state i t.next,
  )
