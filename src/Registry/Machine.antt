-- ===== src/Registry/Machine.antt =====
-- pkg/registry/lifecycle.go: `lifecycleMachine`, which writes a transition and the evidence
-- behind it into a session.
pub mod Commit
use aht.Prelude.{
  Bool, true, false, not, ◌&&◌, ◌||◌, String, ◌==◌, Option, none, some, some_and, is_some, pos,
  none_or, if◌then◌else◌,
}
use aht.Registry.Model.{
  Time, Presence, Activity, Authority, ActivityDecision, ProcessIdentity, IncarnationState,
  Liveness, Evidence, Observation, Observations, Session, Policy, Report, NativeObservation,
  ScreenObservation, Verification,
}
use aht.Registry.Values.{
  before, complete, same_process, is_gone, is_hook, is_screen, activity_equal, presence_eq,
  zero_process,
}
use aht.Registry.Liveness.{presence, activity, decision, set_presence, set_activity, set_decision}
use aht.Registry.Authority.{activity_authority}
use aht.Registry.Lifecycle.{Transition}

abbrev pub session_replaced_reason : String
session_replaced_reason = "session_replaced"

-- A decision with no rule, manifest or fallback.
abbrev pub plain_decision : Authority → String → ProcessIdentity → Time → ActivityDecision
plain_decision authority reason process at = record {
  authority = authority;
  reason = reason;
  rule_id = "";
  manifest_source = "";
  manifest_version = pos 0;
  fallback_reason = "";
  process = process;
  observed_at = at;
}

abbrev tombstone_replaced : Liveness → Bool
tombstone_replaced (Liveness.gone at reason d) = reason == session_replaced_reason
tombstone_replaced _ = false

-- `replacedTombstone`.
unfoldable pub replaced_tombstone : Session → Bool
replaced_tombstone s = tombstone_replaced s.liveness

-- The deferred statement of `commit`.
unfoldable pub stamp_changes : Session → Time → Session → Session
unfolding presence activity presence_eq activity_equal
stamp_changes previous at s = record s {
  presence_changed_at =
      if presence_eq (presence s) (presence previous) then s.presence_changed_at else at;
  activity_changed_at =
      if activity_equal (activity s) (activity previous) then s.activity_changed_at else at;
}

-- `if transition.reset { … }`.
unfoldable pub commit_reset : Transition → Time → Session → Session
unfolding set_decision
commit_reset t at s =
    let cleared = record s {
      observations = record (s.observations) {
        native = none;
        screen = none;
        process = none;
        location = none;
      };
      liveness =
          Liveness.unknown Activity.unknown
            (some (plain_decision Authority.process "process_replaced" t.next.process at));
    } in
    if t.reset then if complete t.next.process then cleared else set_decision none cleared else s

-- The two statements that write the incarnation and its process.
unfoldable pub commit_incarnation : Transition → Session → Session
commit_incarnation t s = record s {
  incarnation = t.next;
  process = if complete t.next.process then some t.next.process else s.process;
}

abbrev set_state_presence : IncarnationState → Session → Session
set_state_presence IncarnationState.live s = set_presence Presence.live s
set_state_presence IncarnationState.starting s = set_presence Presence.unknown s
set_state_presence _ s = s

-- The terminal branch and the last `switch`.
unfoldable pub commit_liveness : Transition → Time → Session → Session
unfolding replaced_tombstone set_presence
commit_liveness t at s =
    if t.terminal
    then if replaced_tombstone s then s else record s {
      liveness =
          Liveness.gone at "process_gone"
            (some (plain_decision Authority.process "process_gone" t.next.process at));
    }
    else set_state_presence t.next.state s

unfoldable pub commit : Transition → Time → Session → Session
unfolding stamp_changes commit_reset commit_incarnation commit_liveness
commit t at s =
    if t.accepted
    then stamp_changes s at (commit_liveness t at (commit_incarnation t (commit_reset t at s)))
    else s

unfoldable pub accepts_activity : Session → Time → Bool
unfolding presence decision
accepts_activity s at =
    not (is_gone (presence s)) && none_or (decision s) (λ d. not (before at d.observed_at))

report_activity : Policy → String → Time → Session → NativeObservation → Session
unfolding accepts_activity set_activity set_decision
report_activity policy event at s n =
    if is_some n.activity && not (is_screen policy.authority) && accepts_activity s at
    then set_decision (some (plain_decision Authority.hook event n.process at))
        (set_activity n.activity s)
    else s

screen_activity : Policy → Time → Session → ScreenObservation → Session
unfolding accepts_activity activity_authority set_activity set_decision
screen_activity policy at s screen =
    if some_and s.process (λ p. same_process screen.process p)
      && accepts_activity s at
      && is_screen (activity_authority s policy at).0
    then set_decision
        (some (record {
          authority = screen.authority;
          reason = screen.reason;
          rule_id = screen.rule_id;
          manifest_source = screen.manifest_source;
          manifest_version = screen.manifest_version;
          fallback_reason = screen.fallback_reason;
          process = screen.process;
          observed_at = at;
        }))
        (set_activity (some screen.activity) s)
    else s

-- `verify`.
verify : Verification → Time → Session → Session
verify v at s =
    let d = some (plain_decision Authority.process v.reason zero_process at) in
    record s {
      liveness =
          if is_gone v.presence
          then Liveness.gone at v.reason d
          else Liveness.unknown Activity.unknown d;
    }

apply_evidence_of : Evidence → Policy → Time → Session → Session
unfolding report_activity screen_activity verify
apply_evidence_of (Evidence.report r) policy at s = elim s.observations.native [
  | none ↦ s
  | some n ↦ report_activity policy r.event at s n
]
apply_evidence_of (Evidence.reading r) policy at s = elim s.observations.screen [
  | none ↦ s
  | some screen ↦ screen_activity policy at s screen
]
apply_evidence_of (Evidence.verification v) policy at s = verify v at s
apply_evidence_of _ policy at s = s

-- `lifecycleMachine.apply`.
unfoldable pub apply : Observation → Policy → Time → Session → Session
unfolding apply_evidence_of
apply o policy at s = apply_evidence_of o.evidence policy at s
