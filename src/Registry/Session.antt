-- ===== src/Registry/Session.antt =====
-- pkg/registry/reducer.go: what one observation does to the one session that it is about.
pub mod Frames
pub mod Consistency
pub mod Reduction
use aht.Prelude.{
  Bool, true, false, not, ◌&&◌, ◌||◌, String, ◌==◌, Option, none, some, some_and, is_some, List, [],
  ◌∷◌, if◌then◌else◌,
}
use aht.Prelude.Paths.{clean}
use aht.Registry.Model.{
  Time, Harness, Presence, Activity, IdentityState, Liveness, Observation, Session, Listing, Policy,
}
use aht.Registry.Values.{
  zero_time, zero_location, zero_incarnation, no_observations, is_zero, before, time_equal,
  max_time, complete, presence_eq, activity_equal,
}
use aht.Registry.Liveness.{presence, activity, new_liveness}
use aht.Registry.Evidence.{
  Kind, kind, is_sighting, is_report, is_listing, process_identity, listing_of, location_of,
  has_identity,
}
use aht.Registry.Lifecycle.{Transition, transition_incarnation}
use aht.Registry.Detail.{resolve_detail}
use aht.Registry.Slots.{
  Result, ok, err, observation_dropped, observation_conflict, ◌>>=◌, ◌>>◌, source_slot_time,
  store_observation, observation_equivalent, sequenced_observation_time, duplicate_sequenced_report,
}
use aht.Registry.Machine.{commit, apply}
use aht.Registry.Validation.{Rules}
use aht.Registry.Stored.{store_schema_version}
use aht.Registry.Matching.{Sessions, or_command}
use aht.Registry.Matching.Resume.{reconcile_resumed_process_session}

-- `newSession`.
unfoldable pub new_session : String → Harness → Time → Session
unfolding new_liveness
new_session id harness now = record {
  detail = none;
  incarnation = zero_incarnation;
  identity_state = IdentityState.provisional;
  liveness = new_liveness Presence.unknown Activity.unknown none;
  schema_version = store_schema_version;
  id = id;
  harness = harness;
  session_id = "";
  session_path = "";
  resume_command = [];
  cwd = "";
  project_root = "";
  process = none;
  location = zero_location;
  observations = no_observations;
  created_at = now;
  updated_at = now;
  presence_changed_at = zero_time;
  activity_changed_at = zero_time;
}

-- `applyIdentity`.
unfoldable pub apply_identity : Observation → Session → Session
unfolding has_identity
apply_identity o s = record s {
  identity_state = if has_identity o then IdentityState.identified else s.identity_state;
  session_id = if o.subject.session_id == "" then s.session_id else o.subject.session_id;
  session_path =
      if o.subject.session_path == "" then s.session_path else clean o.subject.session_path;
}

-- `applyListing`.
unfoldable pub apply_listing : Listing → Session → Session
apply_listing l s = record s {
  cwd = if s.cwd == "" then l.cwd else s.cwd;
  project_root = if s.project_root == "" then l.project_root else s.project_root;
  resume_command = or_command s.resume_command l.resume_command;
}

-- The first `if` of `applyMetadata`.
pub apply_process : Observation → Session → Session
unfolding process_identity
apply_process o s = elim (process_identity o) [
  | none ↦ s
  | some p ↦
      if complete p
      then record s { process = some p; cwd = if p.cwd == "" then s.cwd else p.cwd }
      else s
]

-- The rest of it, which a sighting of a complete process does not reach.
pub apply_context : Observation → Session → Session
unfolding apply_listing
apply_context o s =
    let listed =
      if is_report (kind o) || is_listing (kind o)
      then elim (listing_of o) [ none ↦ s | some l ↦ apply_listing l s ]
      else s in
    elim (location_of o) [
      | none ↦ listed
      | some l ↦ record listed {
        location = l;
        cwd = if listed.cwd == "" then l.pane_current_path else listed.cwd;
      }
    ]

-- `applyMetadata`.
unfoldable pub apply_metadata : Observation → Session → Session
unfolding apply_process apply_context process_identity
apply_metadata o s =
    if is_sighting (kind o) && some_and (process_identity o) complete
    then apply_process o s
    else apply_context o (apply_process o s)

-- The second half of `applyObservation`, behind the tests of the slot's time.
unfoldable pub accept_observation :
    Rules → Observation → Time → Time → Transition → Session → Session
unfolding commit store_observation apply_identity apply_metadata apply resolve_detail presence
    presence_eq activity activity_equal
accept_observation rules o at received_at t s =
    let committed = commit t at s in
    let described = apply_metadata o (apply_identity o (store_observation o at committed)) in
    let applied = apply o (rules.policy described.harness) at described in
    let detailed = resolve_detail (rules.policy applied.harness) received_at applied in
    record detailed {
      schema_version = store_schema_version;
      updated_at = max_time (detailed.updated_at ∷ received_at ∷ []);
      presence_changed_at =
          if presence_eq (presence detailed) (presence s) then detailed.presence_changed_at else at;
      activity_changed_at =
          if activity_equal (activity detailed) (activity s)
          then detailed.activity_changed_at
          else at;
    }

-- `applyObservation`.
unfoldable pub apply_observation :
    Rules → Observation → Time → Time → Transition → Session → Result Session
apply_observation rules o at received_at t s =
    let previous = source_slot_time s o in
    let accepted = ok (accept_observation rules o at received_at t s) in
    if not t.reset && not t.terminal && not (is_zero previous)
    then if before at previous
      then err observation_dropped
      else if time_equal at previous
      then if observation_equivalent s o at then ok s else err observation_conflict
      else accepted
    else accepted

-- `baseline` of `reduceSession`.
abbrev pub baseline : Transition → Session → Session
baseline t s =
    if t.reset then record s { observations = record (s.observations) { native = none } } else s

-- `reduceSession`, with the sessions that it leaves.
unfoldable pub reduce_session :
    Rules → Sessions → Session → Observation → Time → Time → Result (Session × Sessions)
reduce_session rules sessions s o observed received_at =
    let t = transition_incarnation s o observed false in
    let base = baseline t s in
    do
      at ← sequenced_observation_time base o observed
      if duplicate_sequenced_report base o
          then ok (s, sessions)
          else if not t.accepted
          then err observation_dropped
          else do
            s' ← apply_observation rules o at received_at t s
            ok (
                if t.reset && complete s.incarnation.process
                then reconcile_resumed_process_session o s' sessions
                else (s', sessions))
