-- ===== src/Registry/Matching.antt =====
-- pkg/registry/matching.go: which stored session an observation is about.
pub mod Replacement
pub mod Resume
pub mod Resumed
pub mod Retired
pub mod Absorbed
pub mod Merged
pub mod Retiring
pub mod Found
pub mod Sound
use aht.Prelude.{
  ℕ, ℤ, pos, Bool, true, false, not, ◌&&◌, ◌||◌, String, ◌==◌, Option, none, some, some_and,
  is_some, none_or, if◌then◌else◌, List, [], ◌∷◌, int_eq, int_pos, ltb, nat_eq,
}
use aht.Prelude.Dict.{Dict, lookup, insert, remove}
use aht.Prelude.Paths.{clean}
use aht.Prelude.Order.{str_lt}
use aht.Registry.Model.{
  Time, Presence, IdentityState, MultiplexerKind, Location, Observation, Observations, Session,
  ObservationIdentity, ProcessIdentity, Policy, Liveness, Authority, ActivityDecision,
  NativeObservation, Harness,
}
use aht.Registry.Values.{
  kind_eq, is_provisional, zero_session, is_zero, before, after, time_equal, max_time, is_live,
  complete, same_process, location_empty,
}
use aht.Registry.Liveness.{presence, set_decision}
use aht.Registry.Evidence.{
  kind, is_report, is_listing, is_placement, is_sighting, process_identity, listing_of, location_of,
  report_of, present, has_identity,
}
use aht.Registry.Lifecycle.{transition_incarnation}
use aht.Registry.Machine.{commit, plain_decision, session_replaced_reason}
use aht.Registry.Validation.{Rules}
use aht.Registry.Slots.{Result, ok, err, observation_dropped, ◌>>=◌}

abbrev pub Sessions : Type 0
Sessions = Dict Session

-- `observationIdentityConflicts`.
unfoldable pub identity_conflicts : Session → ObservationIdentity → Bool
identity_conflicts s identity =
    if not (identity.session_id == "") && not (s.session_id == "")
    then not (identity.session_id == s.session_id)
    else if not (identity.session_path == "") && not (s.session_path == "")
    then not (clean identity.session_path == clean s.session_path)
    else false

-- `presenceMatchRank`, whose default is -1.
unfoldable pub presence_match_rank : Presence → ℤ
presence_match_rank Presence.live = pos 2
presence_match_rank Presence.unknown = pos 1
presence_match_rank Presence.gone = pos 0
presence_match_rank (Presence.other s) = ℤ.negsuc 0

-- `a > b` on Go's ints.
abbrev int_gt : ℤ → ℤ → Bool
int_gt (pos a) (pos b) = ltb b a
int_gt (pos a) (ℤ.negsuc b) = true
int_gt (ℤ.negsuc a) (pos b) = false
int_gt (ℤ.negsuc a) (ℤ.negsuc b) = ltb a b

-- `sessionMatchPreferred`.
unfoldable pub session_match_preferred : Session → String → Session → String → Bool
unfolding presence_match_rank presence
session_match_preferred candidate candidate_id current current_id =
    let candidate_rank = presence_match_rank (presence candidate) in
    let current_rank = presence_match_rank (presence current) in
    if not (int_eq candidate_rank current_rank)
    then int_gt candidate_rank current_rank
    else if not (time_equal candidate.updated_at current.updated_at)
    then after candidate.updated_at current.updated_at
    else if not (time_equal candidate.created_at current.created_at)
    then after candidate.created_at current.created_at
    else str_lt candidate_id current_id

-- The loop of `bestMatchingSessionID`, from the best id and session so far.
abbrev better : Harness → (Session → Bool) → String × Session → String × Session → String × Session
better harness match (id, s) (best_id, best) =
    if not (s.harness == harness) || not (match s)
    then (best_id, best)
    else if best_id == "" || session_match_preferred s id best best_id
    then (id, s)
    else (best_id, best)

best_from : Harness → (Session → Bool) → String × Session → Sessions → String × Session
unfolding session_match_preferred
best_from harness match best [] = best
best_from harness match best (entry ∷ rest) =
    best_from harness match (better harness match entry best) rest

unfoldable pub best_matching_session_id : Sessions → Harness → (Session → Bool) → String
unfolding best_from
best_matching_session_id sessions harness match =
    (best_from harness match ("", zero_session) sessions).0

-- `sessions[id]`, the zero session for a missing key.
unfoldable pub session_at : String → Sessions → Session
unfolding lookup
session_at id sessions = elim (lookup id sessions) [ none ↦ zero_session | some s ↦ s ]

-- `findProcessMatchingSession`.
unfoldable pub find_process_matching_session : Sessions → Observation → String
unfolding best_matching_session_id process_identity complete same_process identity_conflicts
find_process_matching_session sessions o = elim (process_identity o) [
  | none ↦ ""
  | some p ↦
      if not (complete p)
      then ""
      else best_matching_session_id sessions o.harness
          λ s. some_and s.process (λ q. same_process q p) && not (identity_conflicts s o.subject)
]

-- `findIdentityMatchingSession`.
unfoldable pub find_identity_matching_session : Sessions → Observation → String
unfolding best_matching_session_id
find_identity_matching_session sessions o =
    let subject = o.subject in
    let by_id =
      if not (subject.session_id == "")
      then best_matching_session_id sessions o.harness (λ s. s.session_id == subject.session_id)
      else "" in
    let by_path =
      if not (subject.session_path == "")
      then best_matching_session_id sessions o.harness
          (λ s. not (s.session_path == "") && clean s.session_path == clean subject.session_path)
      else "" in
    if not (by_id == "") then by_id else by_path

-- `findListingMatchingSession`.
unfoldable pub find_listing_matching_session : Sessions → Observation → String
unfolding best_matching_session_id identity_conflicts
find_listing_matching_session sessions o = elim (listing_of o) [
  | none ↦ ""
  | some l ↦
      if not (is_listing (kind o)) || not l.current || not (int_pos l.process_pid)
      then ""
      else best_matching_session_id sessions o.harness λ s.
        some_and s.process (λ p.
          int_eq p.pid l.process_pid
          && (l.process_start_identity == "" || p.start_identity == l.process_start_identity))
        && not (identity_conflicts s o.subject)
]

-- `findMatchingSession`.
unfoldable pub find_matching_session : Sessions → Observation → String
unfolding find_process_matching_session find_identity_matching_session find_listing_matching_session
find_matching_session sessions o =
    let by_process = find_process_matching_session sessions o in
    let by_identity = find_identity_matching_session sessions o in
    let by_listing = find_listing_matching_session sessions o in
    if not (by_process == "")
    then by_process
    else if not (by_identity == "")
    then by_identity
    else by_listing

-- `preferNativeIdentity`.
unfoldable pub prefer_native_identity : Sessions → Observation → String → String → Bool
unfolding session_at
prefer_native_identity sessions o identity_id process_id =
    is_report (kind o)
    && not (identity_id == "")
    && not (process_id == "")
    && not (identity_id == process_id)
    && is_some (session_at identity_id sessions).process
    && is_provisional (session_at process_id sessions).identity_state
    && not (is_some (session_at process_id sessions).observations.native)

-- `target == nil || (provisional != nil && provisional.ObservedAt.After(target.ObservedAt))`.
abbrev newer_slot {ℓ} : {A : Type ℓ} → (A → Time) → Option A → Option A → Option A
newer_slot observed none provisional = provisional
newer_slot observed (some t) none = some t
newer_slot observed (some t) (some p) = if after (observed p) (observed t) then some p else some t

-- `mergeObservations` and `mergeTerminalObservations`.
unfoldable pub merge_observations : Observations → Observations → Observations
merge_observations target provisional = record {
  native = newer_slot (λ n. n.observed_at) target.native provisional.native;
  process = newer_slot (λ n. n.observed_at) target.process provisional.process;
  location = newer_slot (λ n. n.observed_at) target.location provisional.location;
  catalog = newer_slot (λ n. n.observed_at) target.catalog provisional.catalog;
  screen = newer_slot (λ n. n.observed_at) target.screen provisional.screen;
}

abbrev or_text : String → String → String
or_text a b = if a == "" then b else a

abbrev pub or_command : List String → List String → List String
or_command [] b = b
or_command (a ∷ as') b = a ∷ as'

-- `mergeProvisionalMetadata`.
unfoldable pub merge_provisional_metadata : Session → Session → Session
merge_provisional_metadata target provisional = record target {
  session_id = or_text target.session_id provisional.session_id;
  session_path = or_text target.session_path provisional.session_path;
  resume_command = or_command target.resume_command provisional.resume_command;
  cwd = or_text target.cwd provisional.cwd;
  project_root = or_text target.project_root provisional.project_root;
  location = if location_empty target.location then provisional.location else target.location;
}

-- `mergeProvisionalSession`.
unfoldable pub merge_provisional_session : Session → Session → Session
unfolding merge_provisional_metadata merge_observations
merge_provisional_session old provisional =
    let target = merge_provisional_metadata old provisional in
    let evidence =
      if not (some_and target.process complete)
      then provisional.observations
      else record (provisional.observations) { native = none; process = none; screen = none } in
    let created =
      if is_zero target.created_at
        || (not (is_zero provisional.created_at) && before provisional.created_at target.created_at)
      then provisional.created_at
      else target.created_at in
    record target {
      observations = merge_observations target.observations evidence;
      created_at = created;
      updated_at = max_time (target.updated_at ∷ provisional.updated_at ∷ []);
      identity_state =
          if not (target.session_id == "") || not (target.session_path == "")
          then IdentityState.identified
          else target.identity_state;
    }

-- The first statement of `reconcileIdentityProcessSessions`: the old process of the session that
-- the identity names has ended.
retire_prior : Sessions → Observation → Time → String → Sessions
unfolding session_at process_identity insert commit
retire_prior sessions o at identity_id =
    let prior = session_at identity_id sessions in
    if some_and prior.process (λ q. not (some_and (process_identity o) (λ p. same_process q p)))
    then (let gone = commit (transition_incarnation prior o at true) at prior in
        insert identity_id (record gone { updated_at = max_time (gone.updated_at ∷ at ∷ []) })
          sessions)
    else sessions

-- `reconcileIdentityProcessSessions`, with the sessions that it leaves.
unfoldable pub reconcile_identity_process_sessions :
    Sessions → Observation → Time → String → String → Sessions × Bool
unfolding retire_prior merge_provisional_session session_at insert remove
reconcile_identity_process_sessions sessions o at identity_id process_id =
    if not (identity_id == "") && not (process_id == "") && not (identity_id == process_id)
    then (let kept = retire_prior sessions o at identity_id in
        let provisional = session_at identity_id kept in
        if not (is_some provisional.process)
        then (
          remove identity_id (
              insert process_id (merge_provisional_session (session_at process_id kept) provisional)
                kept),
          true,
        )
        else (kept, false))
    else (sessions, false)

-- `findAndReconcileMatchingSession`, with the sessions that it leaves.
unfoldable pub find_and_reconcile_matching_session :
    Sessions → Observation → Time → Sessions × String
unfolding find_identity_matching_session find_process_matching_session find_listing_matching_session
    prefer_native_identity reconcile_identity_process_sessions
find_and_reconcile_matching_session sessions o at =
    let identity_id = find_identity_matching_session sessions o in
    let process_id = find_process_matching_session sessions o in
    if prefer_native_identity sessions o identity_id process_id
    then (sessions, identity_id)
    else let (kept, merged) =
        reconcile_identity_process_sessions sessions o at identity_id process_id in
      if merged || not (process_id == "")
      then (kept, process_id)
      else if not (identity_id == "")
      then (kept, identity_id)
      else (kept, find_listing_matching_session kept o)
