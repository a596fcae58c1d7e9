-- ===== src/Registry/Reducer.antt =====
-- pkg/registry/reducer.go: `Reducer`, which reduces a batch of observations into a snapshot.
pub mod Kept
pub mod Soundness
use aht.Prelude.{
  ℕ, ◌+◌, Bool, true, false, not, ◌&&◌, String, ◌==◌, Option, none, some, some_and, List, [], ◌∷◌,
  ◌++◌, if◌then◌else◌,
}
use aht.Prelude.Dict.{insert}
use aht.Prelude.Paths.{clean}
use aht.Prelude.Text.{itoa}
use aht.Registry.Model.{Time, Evidence, Observation, Session}
use aht.Registry.Values.{is_zero, max_time, complete, same_process}
use aht.Registry.Evidence.{process_identity, report_of}
use aht.Registry.Slots.{
  Error, Result, ok, err, observation_dropped, canceled, ◌>>=◌, ◌>>◌, observation_time,
}
use aht.Registry.Validation.{Rules, validate}
use aht.Registry.Matching.{
  Sessions, session_at, best_matching_session_id, find_matching_session,
  find_and_reconcile_matching_session,
}
use aht.Registry.Matching.Replacement.{retire_conflicting_process_sessions}
use aht.Registry.Session.{new_session, reduce_session}
use aht.Registry.Snapshot.{Snapshot, ended_process_report}
use Prim.Native.String

-- What the reducer takes from outside: the harness catalog, and the hexadecimal digits of the
-- first eight bytes of the SHA-256 of a text.
pub record Env : Type 0 where
  pub rules : Rules
  pub short_hash : String → String

-- A part of the text that `sessionIDForObservation` hashes, behind a NUL.
abbrev part : String → String → String
part s rest = String.◌++◌ "\0" (String.◌++◌ s rest)

-- The parts that name the session, of which the first that is there is taken.
identity_parts : Observation → String
unfolding process_identity complete
identity_parts o =
    if not (o.subject.session_id == "")
    then part "id" (part o.subject.session_id "")
    else if not (o.subject.session_path == "")
    then part "path" (part (clean o.subject.session_path) "")
    else let by_event = part "event" (part (report_of o).event "") in
      elim (process_identity o) [
        | none ↦ by_event
        | some p ↦
            if complete p
            then part "process" (part (itoa p.pid) (part p.start_identity ""))
            else by_event
      ]

-- `sessionIDForObservation` of query.go.
unfoldable pub session_id_for_observation : Env → Observation → String
unfolding identity_parts
session_id_for_observation env o =
    String.◌++◌ o.harness
      (String.◌++◌ "-" (env.short_hash (String.◌++◌ o.harness (identity_parts o))))

-- `observationCreatesSession`.
unfoldable pub observation_creates_session : Rules → Observation → Bool
observation_creates_session rules o = elim o.evidence [
  | Evidence.verification v ↦ false
  | Evidence.listing l ↦ (rules.policy o.harness).catalog_creates && l.current
  | _ ↦ true
]

-- The session that `reduceOne` reduces into.
unfoldable pub target_session : Env → Sessions → Observation → String → Time → Session
unfolding session_at
target_session env sessions o found received_at =
    let fresh_id = session_id_for_observation env o in
    let id = if found == "" then fresh_id else found in
    let s = session_at id sessions in
    if not (s.id == "") && not (s.harness == o.harness)
    then new_session fresh_id o.harness received_at
    else if s.id == ""
    then new_session id o.harness received_at
    else s

-- `reduceOne`: the sessions that it leaves, and the one that it saves.
unfoldable pub reduce_one : Env → Sessions → Observation → Time → Result (Sessions × Option Session)
unfolding observation_time insert
reduce_one env sessions o received_at =
    let at = observation_time o.at received_at in
    do
      retired ← retire_conflicting_process_sessions env.rules sessions o at received_at
      let (kept, found) = find_and_reconcile_matching_session retired o at
      if found == "" && not (observation_creates_session env.rules o) then ok (kept, none) else do
        (s, rest) ←
            reduce_session env.rules kept (target_session env kept o found received_at) o at
              received_at
        ok (insert s.id s rest, some s)

-- The session that a dropped observation returns.
unfoldable pub dropped_session : Sessions → Observation → Session
unfolding process_identity same_process session_at
dropped_session sessions o =
    let by_process : String = elim (process_identity o) [
      | none ↦ ""
      | some p ↦
          best_matching_session_id sessions o.harness
            λ s. some_and s.process (λ q. same_process q p)
    ] in
    let found = find_matching_session sessions o in
    session_at (if found == "" then by_process else found) sessions

-- What one round of the loop of `applyObservationBatch` returns for an observation that it takes.
pub data Outcome : Type 0 where
  saved : Session → Outcome
  unsaved ended : Outcome

abbrev outcome_of : Option Session → Outcome
outcome_of none = Outcome.unsaved
outcome_of (some s) = Outcome.saved s

absorb_result :
    Snapshot → Observation → Result (Sessions × Option Session) → Result (Snapshot × Outcome)
unfolding dropped_session
absorb_result snap o (ok (sessions, s)) = ok (record snap { sessions = sessions }, outcome_of s)
absorb_result snap o (err Error.observation_dropped) = ok (
  record snap { dropped = snap.dropped ++ observation_dropped ∷ [] },
  Outcome.saved (dropped_session snap.sessions o),
)
absorb_result snap o (err e) = err e

-- One round, after the test of the context.
unfoldable pub apply_one : Env → Snapshot → Observation → Time → Result (Snapshot × Outcome)
unfolding absorb_result
apply_one env snap given received_at =
    let o = if is_zero given.at then record given { at = received_at } else given in
    do
      validate env.rules o
      if ended_process_report snap o
          then ok (snap, Outcome.ended)
          else absorb_result snap o (reduce_one env snap.sessions o received_at)

-- The sessions saved so far, and the number of reports of ended processes.
pub record Batch : Type 0 where
  pub snapshot : Snapshot
  pub saved : List Session
  pub ended : ℕ

abbrev count_outcome : Snapshot → Outcome → Batch → Batch
count_outcome snap (Outcome.saved s) b = record b { snapshot = snap; saved = b.saved ++ s ∷ [] }
count_outcome snap Outcome.unsaved b = record b { snapshot = snap }
count_outcome snap Outcome.ended b = record b { snapshot = snap; ended = b.ended + 1 }

-- The loop; `done n` says whether the context is cancelled when `n` observations are left.
apply_each : Env → (List Observation → Bool) → Batch → List Observation → Time → Result Batch
unfolding apply_one
apply_each env done b [] received_at = ok b
apply_each env done b (o ∷ rest) received_at = if done (o ∷ rest) then err canceled else do
  (snap, outcome) ← apply_one env b.snapshot o received_at
  apply_each env done (count_outcome snap outcome b) rest received_at

-- `applyObservationBatch`.
unfoldable pub apply_observation_batch :
    Env → (List Observation → Bool) → Snapshot → List Observation → Time → Result Batch
unfolding apply_each
apply_observation_batch env done snap observations received_at = do
  b ←
      apply_each env done (record { snapshot = snap; saved = []; ended = 0 }) observations
        received_at
  ok (record b {
    snapshot = record (b.snapshot) {
      updated_at = max_time (b.snapshot.updated_at ∷ received_at ∷ []);
    };
  })
