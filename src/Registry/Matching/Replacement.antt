-- ===== src/Registry/Matching/Replacement.antt =====
-- pkg/registry/matching.go: the sessions that an observation retires.
use aht.Prelude.{
  Bool, true, false, not, ◌&&◌, ◌||◌, ◌==◌, Option, none, some, some_and, is_some, if◌then◌else◌,
  [], ◌∷◌,
}
use aht.Registry.Model.{Time, Location, Observation, Session, ProcessIdentity, Liveness, Authority}
use aht.Registry.Values.{kind_eq, max_time, is_live, complete, same_process}
use aht.Registry.Liveness.{presence, set_decision}
use aht.Registry.Evidence.{
  kind, is_report, is_placement, is_sighting, process_identity, location_of, report_of, present,
  has_identity,
}
use aht.Registry.Lifecycle.{transition_incarnation}
use aht.Registry.Machine.{commit, plain_decision, session_replaced_reason}
use aht.Registry.Validation.{Rules}
use aht.Registry.Slots.{Result, ok, err, observation_dropped, ◌>>=◌}
use aht.Registry.Matching.{Sessions, identity_conflicts}

-- `samePane`.
unfoldable pub same_pane : Session → Option Location → Bool
same_pane s observed = some_and observed λ l.
    if l.pane_id == ""
    then false
    else if not (kind_eq s.location.kind l.kind) || not (s.location.pane_id == l.pane_id)
    then false
    else if not (s.location.server_id == "") || not (l.server_id == "")
    then s.location.server_id == l.server_id
    else if not (s.location.session_id == "") || not (l.session_id == "")
    then s.location.session_id == l.session_id
    else false

-- `nativeSessionReplacement`.
unfoldable pub native_session_replacement : Rules → Session → Observation → Bool → Bool
unfolding has_identity identity_conflicts
native_session_replacement rules s o same =
    if not same
      || not (is_report (kind o))
      || not (has_identity o)
      || not (s.harness == o.harness)
      || not (identity_conflicts s o.subject)
    then false
    else if (report_of o).reporter.multi_session
        || some_and s.observations.native (λ n. n.reporter.multi_session)
    then false
    else (rules.policy s.harness).exclusive_process

-- `processHarnessReplacement`.
abbrev process_harness_replacement : Observation → Bool → Bool
process_harness_replacement o same = is_sighting (kind o) && some_and (present o) (λ p. p) && same

-- `conflictingSessionReplacement`: whether to retire, and whether a native report does it.
unfoldable pub conflicting_session_replacement :
    Rules → Session → Observation → ProcessIdentity → Bool × Bool
unfolding same_process native_session_replacement presence same_pane
conflicting_session_replacement rules s o p =
    let same = some_and s.process (λ q. same_process q p) in
    if native_session_replacement rules s o same
    then (true, true)
    else if s.harness == o.harness || not (is_live (presence s))
    then (false, false)
    else if process_harness_replacement o same
    then (true, false)
    else if not (is_some s.process) && is_placement (kind o) && same_pane s (location_of o)
    then (true, false)
    else (false, false)

abbrev pub rename_gone : Liveness → Liveness
rename_gone (Liveness.gone at reason d) = Liveness.gone at session_replaced_reason d
rename_gone l = l

-- The body of the loop of `retireConflictingProcessSessions` for a session to retire.
unfoldable pub retire_session :
    Session → Observation → ProcessIdentity → Time → Time → Bool → Result Session
unfolding commit set_decision
retire_session s o p at received_at native_replacement =
    let t = transition_incarnation s o at true in
    if not t.accepted
    then if t.ignored then ok s else err observation_dropped
    else let gone = commit t at s in
      let named =
        if native_replacement
        then set_decision (some (plain_decision Authority.hook session_replaced_reason p at))
            (record gone { liveness = rename_gone gone.liveness })
        else gone in
      ok (record named { updated_at = max_time (named.updated_at ∷ received_at ∷ []) })

unfoldable pub retire_entries :
    Rules → Observation → ProcessIdentity → Time → Time → Sessions → Result Sessions
unfolding conflicting_session_replacement retire_session
retire_entries rules o p at received_at [] = ok []
retire_entries rules o p at received_at ((id, s) ∷ rest) =
    let retired = retire_entries rules o p at received_at rest in
    let (replace, native_replacement) = conflicting_session_replacement rules s o p in
    do
      s' ← if replace then retire_session s o p at received_at native_replacement else ok s
      rest' ← retired
      ok ((id, s') ∷ rest')

-- `retireConflictingProcessSessions`.
unfoldable pub retire_conflicting_process_sessions :
    Rules → Sessions → Observation → Time → Time → Result Sessions
unfolding process_identity complete retire_entries
retire_conflicting_process_sessions rules sessions o at received_at = elim (process_identity o) [
  | none ↦ ok sessions
  | some p ↦ if complete p then retire_entries rules o p at received_at sessions else ok sessions
]
