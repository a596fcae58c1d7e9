-- ===== src/Examples.antt =====
-- Runs of the model on concrete inputs, and the theorems at inputs that meet their hypotheses.
pub mod Batches
mod Screens
mod Searches
mod Watches
mod Loads
use aht.Registry.Matching.Sound.{IsSound}
use aht.Registry.Matching.Merged.{find_and_reconcile-IsSound}
use aht.Registry.Matching.Retiring.{retire_conflicting-IsSound}
use aht.Registry.Reducer.Soundness.{apply_observation_batch-IsSound}
use aht.Registry.Snapshot.Expiry.{expire_tombstones-none, expire_tombstones-all}
use aht.Registry.Lifecycle.Retirement.{Retires, transition-Retires}
use aht.Registry.Reducer.{
  session_id_for_observation, observation_creates_session, target_session, reduce_one,
  dropped_session, apply_one, apply_observation_batch,
}
use aht.Registry.Matching.{
  identity_conflicts, session_match_preferred, best_matching_session_id, session_at,
  find_process_matching_session, find_identity_matching_session, find_listing_matching_session,
  find_matching_session, prefer_native_identity, merge_provisional_session,
  merge_provisional_metadata, merge_observations, reconcile_identity_process_sessions,
  find_and_reconcile_matching_session, presence_match_rank,
}
use aht.Registry.Matching.Replacement.{
  conflicting_session_replacement, retire_session, retire_conflicting_process_sessions,
  native_session_replacement, same_pane,
}
use aht.Registry.Matching.Resume.{reconcile_resumed_process_session}
use aht.Registry.Snapshot.{
  ended_process_report, ended_process_key, has_expired_tombstones, gone_since, process_only_session,
  remove_gone_process_only_sessions, prune_ended_processes, expire_tombstones,
}
use aht.Registry.Slots.{observation_time, store_observation}
use aht.Registry.Validation.{
  validate, validate_evidence, validate_evidence_at, valid_stored_process,
}
use aht.Registry.Evidence.{evidence_process, has_identity}
use aht.Registry.Session.{apply_identity, apply_metadata, apply_listing}
use aht.Registry.Machine.{
  commit, commit_reset, commit_incarnation, commit_liveness, stamp_changes, apply,
  replaced_tombstone,
}
use aht.Registry.Liveness.{
  presence, activity, set_presence, set_activity, set_decision, activity_value, new_liveness,
}
use aht.Registry.Values.{presence_eq, activity_eq, activity_equal}
use aht.Registry.Stored.{stored_incarnation_corruption, incarnation_process_matches}
use aht.Prelude.Dict.{lookup, insert, Distinct}
use aht.Registry.Lifecycle.{
  previous_process, adopt_process, adopt_time, apply_state, record_evidence,
}
use aht.Registry.Matching.Sound.{EachEntry}
use aht.Prelude.{◌∷◌, List, Bool}
use aht.Registry.Reducer.{Env, Batch, apply_observation_batch}
use aht.Registry.Snapshot.{new_snapshot, Snapshot}
use aht.Registry.Matching.{Sessions}
use aht.Registry.Slots.{Result, err}
use aht.Prelude.Int.{ℤ-discrete}
use aht.Prelude.{decide, ◌≡◌, ◌≤◌, inl, none_or, refl, true, false, none, some, [], pos, ℕ_discrete}
use aht.Registry.Model.{
  Observation, Evidence, ProcessIdentity, Session, Authority, Policy, IncarnationState, Liveness,
  Activity, Report, NativeLifecycle, Presence,
}
use aht.Registry.Equality.{String-discrete, ProcessIdentity-discrete, Location-discrete}
use aht.Registry.Lifecycle.{
  transition_incarnation, normalize_incarnation_input, select_action, transition, prepared,
  apply_evidence, is_terminal, report_ends, report_starts,
}
use aht.Registry.Slots.{
  ok, sequenced_observation_time, duplicate_sequenced_report, source_slot_time,
}
use aht.Registry.Values.{
  max_time, no_observations, same_process, complete, zero_process, process_zero, location_empty,
}
use aht.Registry.Evidence.{process_identity}
use aht.Registry.Liveness.{decision}
use aht.Registry.Lifecycle.Safety.{
  Replaces, transition-process, transition-terminal, transition-terminal_stays, transition-evidence,
  transition-report_ends,
}
use aht.Registry.Lifecycle.Process.{
  is_named, transition-adopts, transition-complete, transition-previous, transition-named,
  transition-verifies,
}
use aht.Registry.Stored.{IsConsistent}
use aht.Registry.Validation.{Rules}
use aht.Registry.Session.{new_session, reduce_session, apply_observation, accept_observation}
use aht.Registry.Session.Reduction.{reduce_session-IsConsistent, new_session-Startable}

-- The definitions that a run of the reducer computes through.
reducer : Unit {0}
unfolding reduce_session apply_observation accept_observation new_session transition_incarnation
    normalize_incarnation_input select_action transition prepared sequenced_observation_time
    duplicate_sequenced_report source_slot_time complete same_process apply_evidence max_time
    process_zero location_empty ProcessIdentity-discrete Location-discrete String-discrete
    ℕ_discrete ℤ-discrete decide report_ends report_starts process_identity decision
reducer = tt

abbrev agent : ProcessIdentity
agent = record zero_process { pid = pos 41; start_identity = "boot-7"; cwd = "/work" }

abbrev seen : Observation
seen = record {
  harness = "claude";
  at = 100;
  subject = record { session_id = ""; session_path = ""; cwd = ""; attributes = [] };
  evidence = Evidence.sighting (record { process = agent; present = true });
}

abbrev hook_policy : Policy
hook_policy = record {
  detail_reporters = [];
  details = record {
    native = record { permission = true; question = false; usage_limit = false };
    screen = record { permission = false; question = false; usage_limit = false };
  };
  exclusive_process = true;
  authority = Authority.hook;
  screen_fallback = true;
  retain_native_activity = false;
  reporter = "claude-hook";
  catalog_creates = false;
}

abbrev catalog : Rules
catalog = record { known = λ h. true; policy = λ h. hook_policy }

abbrev sighted : Session
sighted = record (new_session "c1" "claude" 100) {
  incarnation = record {
    state = IncarnationState.live;
    process = agent;
    evidence_at = 100;
    transition_at = 100;
    previous = none;
  };
  liveness = Liveness.live Activity.unknown none;
  cwd = "/work";
  process = some agent;
  observations = record no_observations {
    process = some (record { present = true; process = agent; observed_at = 100 });
  };
  presence_changed_at = 100;
}

reduce_session_run :
    reduce_session catalog [] (new_session "c1" "claude" 100) seen 100 100 ≡ ok (sighted, [])
unfolding reducer
reduce_session_run = refl

reduce_session-IsConsistent_example : IsConsistent sighted
reduce_session-IsConsistent_example =
    reduce_session-IsConsistent catalog [] (new_session "c1" "claude" 100) seen 100 100 sighted []
      (new_session-Startable "c1" "claude" 100) reduce_session_run

-- The agent of another terminal, a sighting of it and one that misses it.
abbrev other_agent : ProcessIdentity
other_agent = record agent { pid = pos 77; start_identity = "boot-9" }

abbrev moved : Observation
moved = record seen {
  at = 200;
  evidence = Evidence.sighting (record { process = other_agent; present = true });
}

abbrev end_report : Report
end_report = record {
  detail_observed_at = none;
  detail = none;
  reporter = record {
    sequence = none;
    integration = "claude-hook";
    version = pos 1;
    multi_session = false;
  };
  event = "SessionEnd";
  lifecycle = some NativeLifecycle.end;
  claim = some Presence.gone;
  activity = none;
  process = none;
  location = none;
  listing = none;
  attributes = [];
  payload = [];
}

abbrev ending : Observation
ending = record seen { at = 200; evidence = Evidence.report end_report }

abbrev gone_check : Observation
gone_check = record seen {
  at = 200;
  evidence = Evidence.verification (record { presence = Presence.gone; reason = "" });
}

abbrev fresh : Session
fresh = new_session "c1" "claude" 100

abbrev exited : Session
exited = record sighted {
  incarnation = record (sighted.incarnation) { state = IncarnationState.exited };
}

transition-process_example :
    Replaces
      (normalize_incarnation_input sighted moved 200 false)
      (transition_incarnation sighted moved 200 false)
unfolding reducer
transition-process_example = transition-process sighted moved 200 false refl refl

transition-terminal_stays_example :
    is_terminal (transition_incarnation exited ending 200 false).next.state ≡ true
unfolding reducer
transition-terminal_stays_example = transition-terminal_stays exited ending 200 false refl refl

transition-evidence_example :
    100 ≤ (transition_incarnation sighted ending 200 false).next.evidence_at
unfolding reducer
transition-evidence_example = transition-evidence sighted ending 200 false refl

transition-report_ends_example :
    (100 ≤ 200)
    × ((transition_incarnation sighted ending 200 false).next.state ≡ IncarnationState.ended)
    × ((transition_incarnation sighted ending 200 false).terminal ≡ true)
unfolding reducer
transition-report_ends_example = transition-report_ends sighted ending 200 end_report refl refl refl
