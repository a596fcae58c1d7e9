-- ===== src/Registry/Reducer/Soundness.antt =====
-- `reduceOne` and `applyObservationBatch` of reducer.go and the sessions of a snapshot.
use aht.Prelude.{
  ◌≡◌, refl, Bool, true, false, String, none, Option, not, ◌&&◌, ◌==◌, arith, if◌then◌else◌, subst,
  sym, List, [], ◌∷◌,
}
use aht.Registry.Model.{Session, Observation, Time}
use aht.Registry.Values.{is_zero}
use aht.Registry.Slots.{Result, Error, ok, err, canceled, ◌>>=◌, unless_err-eq_ok, observation_time}
use aht.Registry.Validation.{validate}
use aht.Registry.Matching.{Sessions, find_and_reconcile_matching_session}
use aht.Registry.Matching.Replacement.{retire_conflicting_process_sessions}
use aht.Registry.Matching.Sound.{IsSound}
use aht.Registry.Matching.Merged.{find_and_reconcile-IsSound}
use aht.Registry.Matching.Retiring.{retire_conflicting-IsSound}
use aht.Registry.Snapshot.{Snapshot, ended_process_report}
use aht.Registry.Reducer.{
  Env, Batch, Outcome, reduce_one, observation_creates_session, absorb_result, apply_one,
  apply_each, apply_observation_batch, count_outcome,
}
use aht.Registry.Reducer.Kept.{reduce_into, reduce_into-IsSound}

module _ (env : Env) where
  found-IsSound :
      (o : Observation) (at received_at : Time) (kept : Sessions) (found : String) (unsaved : Bool)
      (out : Sessions) (saved : Option Session)
      → IsSound kept
      → (if unsaved then ok (kept, none) else reduce_into env o at received_at kept found)
        ≡ ok (out, saved)
      → IsSound out
  found-IsSound o at received_at kept found true out saved h e = subst IsSound (ground arith) h
  found-IsSound o at received_at kept found false out saved h e =
      reduce_into-IsSound env o at received_at kept found out saved h e

  -- The sessions that `reduceOne` leaves are sound where those before were.
  pub reduce_one-IsSound :
      (sessions : Sessions) (o : Observation) (received_at : Time) (out : Sessions)
      (saved : Option Session)
      → IsSound sessions
      → reduce_one env sessions o received_at ≡ ok (out, saved)
      → IsSound out
  unfolding reduce_one reduce_into
  reduce_one-IsSound sessions o received_at out saved h e =
      let at = observation_time o.at received_at in
      let (retired, step, rest) =
        unless_err-eq_ok _ (retire_conflicting_process_sessions env.rules sessions o at received_at)
          e in
      let (kept, found) = find_and_reconcile_matching_session retired o at in
      let retired-IsSound =
        retire_conflicting-IsSound env.rules sessions retired o at received_at h step in
      found-IsSound o at received_at kept found
        (found == "" && not (observation_creates_session env.rules o)) out saved
        (find_and_reconcile-IsSound retired o at retired-IsSound) rest

  absorb_result-IsSound :
      (snap : Snapshot) (o : Observation) (r : Result (Sessions × Option Session)) (next : Snapshot)
      (outcome : Outcome)
      → IsSound snap.sessions
      → ((out : Sessions) (saved : Option Session) → r ≡ ok (out, saved) → IsSound out)
      → absorb_result snap o r ≡ ok (next, outcome)
      → IsSound next.sessions
  unfolding absorb_result
  absorb_result-IsSound snap o (ok (out, saved)) next outcome h k e =
      subst IsSound (ground arith) (k out saved refl)
  absorb_result-IsSound snap o (err Error.observation_dropped) next outcome h k e =
      subst IsSound (ground arith) h
  absorb_result-IsSound snap o (err _) next outcome h k e = cc

  -- One round of the loop.
  pub apply_one-IsSound :
      (snap : Snapshot) (given : Observation) (received_at : Time) (next : Snapshot)
      (outcome : Outcome)
      → IsSound snap.sessions
      → apply_one env snap given received_at ≡ ok (next, outcome)
      → IsSound next.sessions
  unfolding apply_one
  apply_one-IsSound snap given received_at next outcome h e =
      let (_, _, rest) = unless_err-eq_ok _ (validate env.rules o) e in
      go (ended_process_report snap o) rest
    where
      o : Observation
      o = if is_zero given.at then record given { at = received_at } else given

      go :
          (ended : Bool)
          → (if ended
              then ok (snap, Outcome.ended)
              else absorb_result snap o (reduce_one env snap.sessions o received_at))
            ≡ ok (next, outcome)
          → IsSound next.sessions
      go true e = subst IsSound (ground arith) h
      go false e =
          absorb_result-IsSound snap o (reduce_one env snap.sessions o received_at) next outcome h
            (λ out saved. reduce_one-IsSound snap.sessions o received_at out saved h) e

  count_outcome-snapshot :
      (snap : Snapshot) (outcome : Outcome) (b : Batch)
      → (count_outcome snap outcome b).snapshot ≡ snap
  count_outcome-snapshot snap (Outcome.saved s) b = refl
  count_outcome-snapshot snap Outcome.unsaved b = refl
  count_outcome-snapshot snap Outcome.ended b = refl

  module _ (done : List Observation → Bool) (received_at : Time) where
    apply_each-IsSound :
        (observations : List Observation) (b out : Batch)
        → IsSound b.snapshot.sessions
        → apply_each env done b observations received_at ≡ ok out
        → IsSound out.snapshot.sessions
    unfolding apply_each
    apply_each-IsSound [] b out h e =
        let same : b.snapshot.sessions ≡ out.snapshot.sessions = ground arith in
        subst IsSound same h
    apply_each-IsSound (o ∷ rest) b out h e = go (done (o ∷ rest)) e λ snap outcome step more.
        apply_each-IsSound rest (count_outcome snap outcome b) out
          (subst (λ (s : Snapshot). IsSound s.sessions)
            (sym (count_outcome-snapshot snap outcome b))
            (apply_one-IsSound b.snapshot o received_at snap outcome h step))
          more
      where
        Continues : Type 0
        Continues =
            (snap : Snapshot) (outcome : Outcome)
            → apply_one env b.snapshot o received_at ≡ ok (snap, outcome)
            → apply_each env done (count_outcome snap outcome b) rest received_at ≡ ok out
            → IsSound out.snapshot.sessions

        go :
            (cancelled : Bool)
            → (if cancelled then err canceled else do
              (snap, outcome) ← apply_one env b.snapshot o received_at
              apply_each env done (count_outcome snap outcome b) rest received_at)
              ≡ ok out
            → Continues
            → IsSound out.snapshot.sessions
        go true e k = cc
        go false e k =
            let ((snap, outcome), step, more) =
              unless_err-eq_ok _ (apply_one env b.snapshot o received_at) e in
            k snap outcome step more

    -- Whatever the observations of a batch and wherever its context is cancelled, where
    -- `applyObservationBatch` succeeds on a snapshot with sound sessions it leaves sound
    -- sessions: no id is there twice, every session is under its own id, and its incarnation
    -- passes `storedIncarnationCorruption`.
    pub apply_observation_batch-IsSound :
        (snap : Snapshot) (observations : List Observation) (out : Batch)
        → IsSound snap.sessions
        → apply_observation_batch env done snap observations received_at ≡ ok out
        → IsSound out.snapshot.sessions
    unfolding apply_observation_batch
    apply_observation_batch-IsSound snap observations out h e =
        let start : Batch = record { snapshot = snap; saved = []; ended = 0 } in
        let (b, each, last) =
          unless_err-eq_ok _ (apply_each env done start observations received_at) e in
        let same : b.snapshot.sessions ≡ out.snapshot.sessions = ground arith in
        subst IsSound same (apply_each-IsSound observations start b h each)
