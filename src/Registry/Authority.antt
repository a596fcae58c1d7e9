-- ===== src/Registry/Authority.antt =====
-- pkg/registry/authority.go: which source decides the activity of a session.
use aht.Prelude.{
  ℕ, ◌+◌, Bool, true, false, not, ◌&&◌, ◌||◌, String, ◌==◌, Option, none, some, ltb, some_and,
  none_or, if◌then◌else◌,
}
use aht.Registry.Model.{Time, Authority, NativeObservation, Session, Policy}
use aht.Registry.Values.{is_gone, is_end, is_hook, is_screen, is_unknown, same_process, after}
use aht.Registry.Liveness.{presence}

-- `IntegrationActivityLease` of store.go, 30 seconds in nanoseconds.
abbrev pub integration_activity_lease : ℕ
integration_activity_lease = 30000000000

pub record HookEvaluation : Type 0 where
  pub active : Bool
  pub fresh : Bool
  pub process_matches : Bool
  pub reason : String

-- The report that passed all tests, or the evaluation that says which one failed.
pub data HookMatch : Type 0 where
  matched : NativeObservation → HookMatch
  failed : HookEvaluation → HookMatch

abbrev failure : String → HookMatch
failure reason =
    HookMatch.failed
      (record { active = false; fresh = false; process_matches = false; reason = reason })

-- `nativeEnded`.
unfoldable pub native_ended : NativeObservation → Bool
native_ended n = some_and n.presence is_gone || some_and n.lifecycle is_end

match_native : Session → Policy → Option NativeObservation → HookMatch
unfolding native_ended presence same_process
match_native s policy none = failure "integration_report_missing"
match_native s policy (some n) =
    if not (n.reporter.integration == policy.reporter)
    then failure "integration_identity_mismatch"
    else if none_or n.activity is_unknown
    then failure "integration_activity_missing"
    else if native_ended n || is_gone (presence s)
    then failure "integration_ended"
    else elim s.process [
      | none ↦ failure "agent_process_missing"
      | some p ↦
          if not (same_process n.process p)
          then failure "agent_process_replaced"
          else HookMatch.matched n
    ]

unfoldable pub matching_hook_observation : Session → Policy → HookMatch
unfolding match_native
matching_hook_observation s policy =
    if not (is_hook policy.authority) || policy.reporter == ""
    then failure "hook_not_activity_authority"
    else match_native s policy s.observations.native

-- `now.Sub(observedAt) > IntegrationActivityLease`; "" where the time is valid.
unfoldable pub invalid_hook_time_reason : Time → Time → String
invalid_hook_time_reason observed_at now =
    if after observed_at now
    then "integration_observation_from_future"
    else if ltb (observed_at + integration_activity_lease) now
    then "integration_report_stale"
    else ""

unfoldable pub evaluate_hook : Session → Policy → Time → HookEvaluation
unfolding matching_hook_observation invalid_hook_time_reason
evaluate_hook s policy now = elim (matching_hook_observation s policy) [
  | HookMatch.failed e ↦ e
  | HookMatch.matched n ↦
      let reason = invalid_hook_time_reason n.observed_at now in
      if not (reason == "")
      then record { active = false; fresh = false; process_matches = true; reason = reason }
      else record {
        active = true;
        fresh = true;
        process_matches = true;
        reason = "matching_live_process_report";
      }
]

unfoldable pub activity_authority : Session → Policy → Time → Authority × String
unfolding evaluate_hook
activity_authority s policy now =
    if is_screen policy.authority
    then (Authority.screen, "screen_primary")
    else let e = evaluate_hook s policy now in
      if policy.screen_fallback && not e.active
      then if policy.retain_native_activity && e.reason == "integration_report_stale"
        then (Authority.hook, e.reason)
        else (Authority.screen, e.reason)
      else (Authority.hook, e.reason)
