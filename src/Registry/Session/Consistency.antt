-- ===== src/Registry/Session/Consistency.antt =====
-- `applyObservation` of reducer.go, behind its tests, and the test of state_validation.go on the
-- incarnation.
use aht.Prelude.{
  ◌≡◌, inl, inr, refl, true, false, some, none, some_and, some_and-eq_true, arith, Bool-cases,
}
use aht.Registry.Model.{
  Time, Evidence, Session, Observation, ProcessIdentity, Incarnation, IncarnationState,
}
use aht.Registry.Values.{complete, same_process_refl, is_gone}
use aht.Registry.Liveness.{presence}
use aht.Registry.Evidence.{process_identity, as_report}
use aht.Registry.Authority.{native_ended}
use aht.Registry.Lifecycle.{Transition, transition_incarnation, is_terminal, report_ends}
use aht.Registry.Lifecycle.Safety.{
  transition-terminal, transition-terminal_stays, transition-report_ends,
}
use aht.Registry.Lifecycle.Process.{
  transition-adopts, transition-complete, transition-previous, transition-named,
  transition-verifies, is_named,
}
use aht.Registry.Machine.{commit, apply}
use aht.Registry.Machine.Commit.{
  commit-frame, commit-presence_terminal, commit-presence_live, commit-presence_starting,
  apply-frame, apply-presence, apply-presence_verification,
}
use aht.Registry.Slots.{store_observation}
use aht.Registry.Validation.{Rules}
use aht.Registry.Stored.{
  IsConsistent, expected_presence, incarnation_process_matches, stored_incarnation_corruption,
}
use aht.Registry.Stored.Ready.{IsReady}
use aht.Registry.Session.{accept_observation, apply_identity, apply_metadata}
use aht.Registry.Session.Frames.{
  store_observation-frame, store_observation-native_report, store_observation-native,
  native_ended-native_slot, apply_identity-frame, apply_metadata-frame, apply_metadata-process,
  apply_metadata-no_process,
}

module _ (rules : Rules) (o : Observation) (observed at received_at : Time) (s : Session) where
  abbrev next : Transition
  next = transition_incarnation s o observed false

  abbrev committed : Session
  committed = commit next at s

  abbrev identified : Session
  identified = apply_identity o (store_observation o at committed)

  abbrev described : Session
  described = apply_metadata o identified

  abbrev applied : Session
  applied = apply o (rules.policy described.harness) at described

  abbrev final : Session
  final = accept_observation rules o at received_at next s

  final-frame :
      (final.incarnation ≡ applied.incarnation)
      × (final.process ≡ applied.process)
      × (presence final ≡ presence applied)
      × (final.observations ≡ applied.observations)
      × (final.harness ≡ applied.harness)
      × (final.id ≡ applied.id)
  unfolding accept_observation presence
  final-frame = (refl, refl, refl, refl, refl, refl)

  described-frame :
      (described.incarnation ≡ committed.incarnation)
      × (described.liveness ≡ committed.liveness)
      × (described.observations ≡ (store_observation o at committed).observations)
      × (identified.process ≡ committed.process)
      × (described.harness ≡ committed.harness)
  described-frame = ground (
    arith,
    apply_metadata-frame o identified,
    apply_identity-frame o (store_observation o at committed),
    store_observation-frame o at committed,
  )

  accept-incarnation : next.accepted ≡ true → final.incarnation ≡ next.next
  accept-incarnation a = ground (
    arith,
    final-frame,
    apply-frame o (rules.policy described.harness) at described,
    described-frame,
    commit-frame next at s a,
  )

  final-process_known :
      (p : ProcessIdentity)
      → process_identity o ≡ some p
      → complete p ≡ true
      → final.process ≡ some p
  final-process_known p e c = ground (
    arith,
    final-frame,
    apply-frame o (rules.policy described.harness) at described,
    apply_metadata-process o identified p e c,
  )

  final-process_unknown :
      some_and (process_identity o) complete ≡ false → final.process ≡ committed.process
  final-process_unknown h = ground (
    arith,
    final-frame,
    apply-frame o (rules.policy described.harness) at described,
    apply_metadata-no_process o identified h,
    described-frame,
  )

  matches_self :
      (n : Incarnation) (p : ProcessIdentity)
      → n.process ≡ p
      → complete p ≡ true
      → incarnation_process_matches n (some p) ≡ true
  unfolding incarnation_process_matches
  matches_self n p e c = ground (arith, same_process_refl p c)

  matches_committed :
      IsReady s
      → next.accepted ≡ true
      → incarnation_process_matches next.next committed.process ≡ true
  unfolding incarnation_process_matches
  matches_committed v a = ground (
    arith,
    v.process_matches,
    commit-frame next at s a,
    transition-complete s o observed false,
    same_process_refl next.next.process,
  )

  accept-process :
      IsReady s → next.accepted ≡ true → incarnation_process_matches next.next final.process ≡ true
  accept-process v a = elim (Bool-cases (some_and (process_identity o) complete)) [
    | inl known ↦
        let (p, e, c) = some_and-eq_true (process_identity o) complete known in
        rw (final-process_known p e c)
          (matches_self next.next p (transition-adopts s o observed p e c a) c)
    | inr unknown ↦ rw (final-process_unknown unknown) (matches_committed v a)
  ]

  committed_state :
      (state : IncarnationState)
      → next.next.state ≡ state
      → is_named state ≡ true
      → next.accepted ≡ true
      → next.terminal ≡ is_terminal state
      → expected_presence state ≡ some (presence committed)
  committed_state IncarnationState.starting e n a t =
      ground (arith, commit-presence_starting next at s a t e)
  committed_state IncarnationState.live e n a t =
      ground (arith, commit-presence_live next at s a t e)
  committed_state IncarnationState.ended e n a t =
      ground (arith, commit-presence_terminal next at s a t)
  committed_state IncarnationState.exited e n a t =
      ground (arith, commit-presence_terminal next at s a t)
  committed_state (IncarnationState.other x) e n a t = cc

  committed-presence :
      IsReady s
      → next.accepted ≡ true
      → expected_presence next.next.state ≡ some (presence committed)
  committed-presence v a =
      committed_state next.next.state refl
        (transition-named s o observed false (ground (arith, v.presence_matches)) a) a
        (transition-terminal s o observed false a)

  presence_described : presence described ≡ presence committed
  unfolding presence
  presence_described = ground (arith, described-frame)

  accept-presence :
      IsReady s
      → next.accepted ≡ true
      → (e : Evidence) → o.evidence ≡ e
      → expected_presence next.next.state ≡ some (presence final)
  accept-presence v a (Evidence.verification x) e = ground (
    arith,
    final-frame,
    transition-verifies s o observed x e a,
    apply-presence_verification o (rules.policy described.harness) at described x e,
  )
  accept-presence v a _ e = ground (
    arith,
    final-frame,
    committed-presence v a,
    presence_described,
    apply-presence o (rules.policy described.harness) at described (ground arith),
  )

  final-native : final.observations.native ≡ (store_observation o at committed).observations.native
  final-native = ground (
    arith,
    final-frame,
    apply-frame o (rules.policy described.harness) at described,
    described-frame,
  )

  gone_of_terminal :
      IsReady s
      → next.accepted ≡ true
      → is_terminal next.next.state ≡ true
      → is_gone (presence final) ≡ true
  gone_of_terminal v a h = ground (arith, accept-presence v a o.evidence refl)

  kept-native :
      as_report o.evidence ≡ none
      → next.accepted ≡ true
      → some_and final.observations.native native_ended ≡ true
      → (next.reset ≡ false) × (some_and s.observations.native native_ended ≡ true)
  kept-native e a h =
      ground
        (arith, final-native, store_observation-native o at committed e, commit-frame next at s a)

  terminal_before :
      IsReady s
      → some_and s.observations.native native_ended ≡ true
      → is_terminal s.incarnation.state ≡ true
  terminal_before v h = ground (arith, v.native_end h, v.presence_matches)

  accept-native_kept :
      IsReady s
      → next.accepted ≡ true
      → as_report o.evidence ≡ none
      → some_and final.observations.native native_ended ≡ true
      → is_gone (presence final) ≡ true
  accept-native_kept v a e h =
      let (kept, ended) = kept-native e a h in
      gone_of_terminal v a
        (transition-terminal_stays s o observed false (terminal_before v ended) kept)

  accept-native :
      IsReady s
      → next.accepted ≡ true
      → (e : Evidence) → o.evidence ≡ e
      → some_and final.observations.native native_ended ≡ true
      → is_gone (presence final) ≡ true
  accept-native v a (Evidence.report r) e h =
      let ends : report_ends r ≡ true = ground (
        arith,
        final-native,
        store_observation-native_report o at committed r e,
        native_ended-native_slot committed o r at,
      ) in
      gone_of_terminal v a (ground (arith, transition-report_ends s o observed r e ends a))
  accept-native v a _ e h = accept-native_kept v a (ground arith) h

  -- A session into which the reducer accepts an observation passes the test of its incarnation:
  -- its native report has not ended while it is not gone, the state of its incarnation has a
  -- name and fits its presence, and its process is the incarnation's.
  pub accept_observation-IsConsistent : IsReady s → next.accepted ≡ true → IsConsistent final
  unfolding stored_incarnation_corruption
  accept_observation-IsConsistent v a = ground (
    arith,
    accept-incarnation a,
    accept-process v a,
    accept-presence v a o.evidence refl,
    accept-native v a o.evidence refl,
    transition-previous s o observed false v.previous_complete,
  )
