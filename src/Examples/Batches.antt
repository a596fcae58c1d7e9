-- ===== src/Examples/Batches.antt =====
-- Batches of observations on concrete inputs, and the store that they leave.
pub mod Journals
pub mod Stores
use aht.Registry.Matching.Sound.{IsSound}
use aht.Registry.Matching.Merged.{find_and_reconcile-IsSound}
use aht.Registry.Matching.Retiring.{retire_conflicting-IsSound}
use aht.Registry.Reducer.Soundness.{apply_observation_batch-IsSound}
use aht.Registry.Snapshot.Expiry.{
  expire_tombstones-removed, unless_it, is_tombstone, expire_tombstones-none, expire_tombstones-all,
}
use aht.Registry.Lifecycle.Retirement.{Retires, transition-Retires}
use aht.Registry.Reducer.{
  session_id_for_observation, observation_creates_session, target_session, reduce_one,
  dropped_session, apply_one, apply_observation_batch,
}
use aht.Registry.Matching.{
  identity_conflicts, session_match_preferred, best_matching_session_id, session_at,
  find_process_matching_session, find_identity_matching_session, find_listing_matching_session,
  find_matching_session, prefer_native_identity, merge_provisional_session,
  merge_provisional_metadata, merge_observations, reconcile_identity_process_sessions,
  find_and_reconcile_matching_session, presence_match_rank,
}
use aht.Registry.Matching.Replacement.{
  conflicting_session_replacement, retire_session, retire_conflicting_process_sessions,
  native_session_replacement, same_pane,
}
use aht.Registry.Matching.Resume.{reconcile_resumed_process_session}
use aht.Registry.Snapshot.{
  ended_process_report, ended_process_key, has_expired_tombstones, gone_since, process_only_session,
  remove_gone_process_only_sessions, prune_ended_processes, expire_tombstones,
}
use aht.Registry.Slots.{observation_time, store_observation}
use aht.Registry.Validation.{
  validate, validate_evidence, validate_evidence_at, valid_stored_process,
}
use aht.Registry.Evidence.{evidence_process, has_identity}
use aht.Registry.Session.{apply_identity, apply_metadata, apply_listing}
use aht.Registry.Machine.{
  commit, commit_reset, commit_incarnation, commit_liveness, stamp_changes, apply,
  replaced_tombstone,
}
use aht.Registry.Liveness.{
  presence, activity, set_presence, set_activity, set_decision, activity_value, new_liveness,
}
use aht.Registry.Values.{presence_eq, activity_eq, activity_equal}
use aht.Registry.Stored.{stored_incarnation_corruption, incarnation_process_matches}
use aht.Prelude.Dict.{lookup, insert, Distinct}
use aht.Registry.Lifecycle.{
  previous_process, adopt_process, adopt_time, apply_state, record_evidence,
}
use aht.Registry.Matching.Sound.{EachEntry}
use aht.Prelude.{◌∷◌, List, Bool, ◌+◌}
use aht.Prelude.Lists.{length}
use aht.Registry.Reducer.{Env, Batch, apply_observation_batch}
use aht.Registry.Snapshot.{new_snapshot, Snapshot}
use aht.Registry.Matching.{Sessions}
use aht.Registry.Slots.{Result, err}
use aht.Prelude.{◌≡◌, refl, true, false, none, some, []}
use aht.Registry.Model.{
  Observation, Evidence, Session, IncarnationState, Liveness, Activity, Report, Presence,
}
use aht.Registry.Lifecycle.{transition_incarnation, normalize_incarnation_input}
use aht.Registry.Slots.{ok}
use aht.Prelude.Text.{trim_space, itoa}
use aht.Examples.{reducer, agent, seen, catalog, sighted, moved, end_report}

abbrev env : Env
env = record { rules = catalog; short_hash = λ text. "0" }

abbrev never : List Observation → Bool
never rest = false

abbrev saved_agent : Session
saved_agent = record sighted { id = "claude-0" }

abbrev after_sighting : Batch
after_sighting = record {
  snapshot = record new_snapshot { updated_at = 100; sessions = ("claude-0", saved_agent) ∷ [] };
  saved = saved_agent ∷ [];
  ended = 0;
}

-- The same for the batches, the store and its tombstones.
batches : Unit {0}
unfolding reducer trim_space itoa session_id_for_observation observation_creates_session
    target_session reduce_one dropped_session apply_one apply_observation_batch identity_conflicts
    session_match_preferred best_matching_session_id session_at find_process_matching_session
    find_identity_matching_session find_listing_matching_session find_matching_session
    conflicting_session_replacement retire_session retire_conflicting_process_sessions
    prefer_native_identity merge_provisional_session merge_provisional_metadata merge_observations
    reconcile_identity_process_sessions find_and_reconcile_matching_session
    native_session_replacement reconcile_resumed_process_session same_pane presence_match_rank
    ended_process_report ended_process_key has_expired_tombstones gone_since process_only_session
    remove_gone_process_only_sessions prune_ended_processes expire_tombstones observation_time
    store_observation validate validate_evidence validate_evidence_at valid_stored_process
    evidence_process has_identity apply_identity apply_metadata apply_listing commit commit_reset
    commit_incarnation commit_liveness stamp_changes apply replaced_tombstone presence activity
    set_presence set_activity set_decision activity_value new_liveness presence_eq activity_eq
    activity_equal stored_incarnation_corruption incarnation_process_matches lookup insert Distinct
    previous_process adopt_process adopt_time apply_state record_evidence EachEntry
batches = tt

batch_run : apply_observation_batch env never new_snapshot (seen ∷ []) 100 ≡ ok after_sighting
unfolding batches
batch_run = refl

abbrev stored : Sessions
stored = after_sighting.snapshot.sessions

stored-IsSound : IsSound stored
unfolding batches
stored-IsSound = record { distinct = (refl, tt); entries = ((refl, refl), tt) }

-- A prompt of the same agent in a session with an id, which takes the place of the provisional one.
abbrev prompt_report : Report
prompt_report = record end_report {
  event = "UserPromptSubmit";
  lifecycle = none;
  claim = some Presence.live;
  activity = some Activity.running;
  process = some agent;
}

abbrev prompted : Observation
prompted = record seen {
  at = 200;
  subject = record (seen.subject) { session_id = "s-1" };
  evidence = Evidence.report prompt_report;
}

abbrev batch_or : Batch → Result Batch → Batch
batch_or b (ok out) = out
batch_or b (err e) = b

after_prompt : Batch
unfolding batches
after_prompt =
    batch_or after_sighting
      (apply_observation_batch env never after_sighting.snapshot (prompted ∷ moved ∷ []) 200)

prompt_run :
    apply_observation_batch env never after_sighting.snapshot (prompted ∷ moved ∷ []) 200
    ≡ ok after_prompt
unfolding batches after_prompt
prompt_run = refl

apply_observation_batch-IsSound_example : IsSound after_prompt.snapshot.sessions
apply_observation_batch-IsSound_example =
    apply_observation_batch-IsSound env never 200 after_sighting.snapshot (prompted ∷ moved ∷ [])
      after_prompt stored-IsSound prompt_run

find_and_reconcile-IsSound_example :
    IsSound (find_and_reconcile_matching_session stored prompted 200).0
find_and_reconcile-IsSound_example = find_and_reconcile-IsSound stored prompted 200 stored-IsSound

-- Another harness is sighted in the process of the agent.
abbrev taken_over : Observation
taken_over = record seen { harness = "codex"; at = 200 }

abbrev sessions_or : Sessions → Result Sessions → Sessions
sessions_or b (ok out) = out
sessions_or b (err e) = b

after_takeover : Sessions
after_takeover =
    sessions_or [] (retire_conflicting_process_sessions catalog stored taken_over 200 200)

takeover_run :
    retire_conflicting_process_sessions catalog stored taken_over 200 200 ≡ ok after_takeover
unfolding batches after_takeover
takeover_run = refl

retire_conflicting-IsSound_example : IsSound after_takeover
retire_conflicting-IsSound_example =
    retire_conflicting-IsSound catalog stored after_takeover taken_over 200 200 stored-IsSound
      takeover_run

transition-Retires_example :
    Retires
      (normalize_incarnation_input sighted taken_over 200 true)
      (transition_incarnation sighted taken_over 200 true)
unfolding batches
transition-Retires_example = transition-Retires sighted taken_over 200 agent refl refl

-- The agent is gone since 100; a tombstone lives for 50.
abbrev with_tombstone : Snapshot
with_tombstone = record (after_sighting.snapshot) {
  sessions =
      (
        "claude-0",
        record saved_agent {
          liveness = Liveness.gone 100 "process_gone" none;
          incarnation = record saved_agent.incarnation { state = IncarnationState.exited };
        },
      )
      ∷ [];
  ended_processes = ("7:x", 10) ∷ ("9:y", 90) ∷ [];
}

with_tombstone-Distinct : Distinct with_tombstone.sessions
unfolding batches
with_tombstone-Distinct = (refl, tt)

expire_tombstones_run :
    ((expire_tombstones 120 50 with_tombstone).0.sessions ≡ [])
    × ((expire_tombstones 120 50 with_tombstone).0.ended_processes
        ≡ ("9:y", 90) ∷ ("41:boot-7", 100) ∷ [])
unfolding batches
expire_tombstones_run = (refl, refl)

expire_tombstones-removed_example :
    (lookup "claude-0" (expire_tombstones 120 50 with_tombstone).0.sessions
      ≡ unless_it (is_tombstone 120 50) (lookup "claude-0" with_tombstone.sessions))
    × (length (expire_tombstones 120 50 with_tombstone).0.sessions
          + (expire_tombstones 120 50 with_tombstone).1
        ≡ length with_tombstone.sessions)
expire_tombstones-removed_example =
    expire_tombstones-removed 120 50 with_tombstone "claude-0" with_tombstone-Distinct

expire_tombstones-none_example :
    expire_tombstones 120 50 after_sighting.snapshot ≡ (after_sighting.snapshot, 0)
unfolding batches
expire_tombstones-none_example = expire_tombstones-none 120 50 after_sighting.snapshot refl

expire_tombstones-all_example :
    has_expired_tombstones (expire_tombstones 120 50 with_tombstone).0 120 50 ≡ false
expire_tombstones-all_example = expire_tombstones-all 120 50 with_tombstone
