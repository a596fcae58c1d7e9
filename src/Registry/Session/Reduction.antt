-- ===== src/Registry/Session/Reduction.antt =====
-- `reduceSession` of reducer.go and the test of state_validation.go on the incarnation.
use aht.Prelude.{
  if◌then◌else◌, ◌≡◌, ◌⊎◌, inl, inr, refl, Bool, true, false, arith, String, not, ◌&&◌,
}
use aht.Registry.Model.{Time, Harness, Session, Observation}
use aht.Registry.Values.{zero_time, is_zero, no_observations, complete}
use aht.Registry.Liveness.{presence}
use aht.Registry.Lifecycle.{Transition, transition_incarnation}
use aht.Registry.Slots.{
  source_slot_time, unless_err-eq_ok, Result, ok, err, ◌>>=◌, sequenced_observation_time,
  duplicate_sequenced_report, observation_dropped,
}
use aht.Registry.Validation.{Rules}
use aht.Registry.Stored.{IsConsistent, incarnation_process_matches}
use aht.Registry.Matching.{Sessions}
use aht.Registry.Matching.Resume.{reconcile_resumed_process_session}
use aht.Registry.Session.{
  new_session, accept_observation, apply_observation, reduce_session, baseline,
}
use aht.Registry.Matching.Resumed.{reconcile_resumed-corruption}
use aht.Registry.Stored.Ready.{IsReady, IsConsistent-IsReady}
use aht.Registry.Session.Consistency.{accept_observation-IsConsistent}

pub new_session-IsReady : (id : String) (h : Harness) (now : Time) → IsReady (new_session id h now)
unfolding new_session incarnation_process_matches presence complete
new_session-IsReady id h now = record {
  process_matches = ground arith;
  previous_complete = refl;
  presence_matches = inl (refl, refl);
  native_end = λ e. cc;
}

-- A session from the store, or a new one.
abbrev pub Startable : Session → Type 0
Startable s = IsConsistent s ⊎ ((s.observations ≡ no_observations) × IsReady s)

Startable-IsReady : (s : Session) → Startable s → IsReady s
Startable-IsReady s (inl c) = IsConsistent-IsReady s c
Startable-IsReady s (inr (e, v)) = v

pub new_session-Startable :
    (id : String) (h : Harness) (now : Time) → Startable (new_session id h now)
unfolding new_session
new_session-Startable id h now = inr (refl, new_session-IsReady id h now)

-- A new session has no slot that an observation could repeat.
slot_time-fresh :
    (s : Session) (o : Observation)
    → s.observations ≡ no_observations
    → source_slot_time s o ≡ zero_time
unfolding source_slot_time
slot_time-fresh s o e = ground arith

duplicate-fresh :
    (t : Transition) (s : Session) (o : Observation)
    → s.observations ≡ no_observations
    → duplicate_sequenced_report (baseline t s) o ≡ false
unfolding duplicate_sequenced_report
duplicate-fresh t s o e = ground arith

module _ (rules : Rules) (o : Observation) (at received_at : Time) (t : Transition) where
  apply_observation-cases :
      (s s' : Session)
      → apply_observation rules o at received_at t s ≡ ok s'
      → ((s' ≡ s) × (is_zero (source_slot_time s o) ≡ false))
        ⊎ (s' ≡ accept_observation rules o at received_at t s)
  unfolding apply_observation
  apply_observation-cases s s' h = ground arith

module _ (rules : Rules) (sessions : Sessions) (s : Session) (o : Observation) where
  abbrev taken : Time → Transition
  taken observed = transition_incarnation s o observed false

  applied-IsConsistent :
      (observed at received_at : Time) (s' : Session)
      → Startable s
      → (taken observed).accepted ≡ true
      → apply_observation rules o at received_at (taken observed) s ≡ ok s'
      → IsConsistent s'
  applied-IsConsistent observed at received_at s' (inl c) a h = ground (
    arith,
    apply_observation-cases rules o at received_at (taken observed) s s' h,
    accept_observation-IsConsistent rules o observed at received_at s (IsConsistent-IsReady s c) a,
  )
  applied-IsConsistent observed at received_at s' (inr (e, v)) a h = ground (
    arith,
    slot_time-fresh s o e,
    apply_observation-cases rules o at received_at (taken observed) s s' h,
    accept_observation-IsConsistent rules o observed at received_at s v a,
  )

  resumed-IsConsistent :
      (b : Bool) (s₁ s' : Session) (kept : Sessions)
      → IsConsistent s₁
      → (if b then reconcile_resumed_process_session o s₁ sessions else (s₁, sessions)) ≡ (s', kept)
      → IsConsistent s'
  resumed-IsConsistent true s₁ s' kept c h =
      ground (arith, reconcile_resumed-corruption o s₁ sessions)
  resumed-IsConsistent false s₁ s' kept c h = ground arith

  repeated-IsConsistent :
      (observed : Time) (s' : Session) (kept : Sessions)
      → Startable s
      → duplicate_sequenced_report (baseline (taken observed) s) o ≡ true
      → ◌≡◌ {A = Result (Session × Sessions)} (ok (s, sessions)) (ok (s', kept))
      → IsConsistent s'
  repeated-IsConsistent observed s' kept (inl c) d h = ground arith
  repeated-IsConsistent observed s' kept (inr (e, v)) d h =
      cc (duplicate-fresh (taken observed) s o e)

  reduced-IsConsistent :
      (observed at received_at : Time) (s' : Session) (kept : Sessions) (d a : Bool)
      → Startable s
      → duplicate_sequenced_report (baseline (taken observed) s) o ≡ d
      → (taken observed).accepted ≡ a
      → (if d
          then ok (s, sessions)
          else if not a
          then err observation_dropped
          else (apply_observation rules o at received_at (taken observed) s >>= λ s₁. ok (
              if (taken observed).reset && complete s.incarnation.process
              then reconcile_resumed_process_session o s₁ sessions
              else (s₁, sessions))))
        ≡ ok (s', kept)
      → IsConsistent s'
  reduced-IsConsistent observed at received_at s' kept true a v d t h =
      repeated-IsConsistent observed s' kept v d h
  reduced-IsConsistent observed at received_at s' kept false false v d t h = cc
  reduced-IsConsistent observed at received_at s' kept false true v d t h =
      let (s₁, e, last) =
        unless_err-eq_ok _ (apply_observation rules o at received_at (taken observed) s) h in
      resumed-IsConsistent ((taken observed).reset && complete s.incarnation.process) s₁ s' kept
        (applied-IsConsistent observed at received_at s₁ v t e) (ground arith)

  -- Whatever observation `reduceSession` takes into a session that passes
  -- `storedIncarnationCorruption`, or into a new session without observations, the session that
  -- it returns passes that test.
  pub reduce_session-IsConsistent :
      (observed received_at : Time) (s' : Session) (kept : Sessions)
      → Startable s
      → reduce_session rules sessions s o observed received_at ≡ ok (s', kept)
      → IsConsistent s'
  unfolding reduce_session
  reduce_session-IsConsistent observed received_at s' kept v h =
      let (at, _, rest) =
        unless_err-eq_ok _ (sequenced_observation_time (baseline (taken observed) s) o observed)
          h in
      reduced-IsConsistent observed at received_at s' kept
        (duplicate_sequenced_report (baseline (taken observed) s) o) (taken observed).accepted v
        refl refl rest
