-- ===== src/Registry/Detail.antt =====
-- pkg/registry/detail.go: the detail of a waiting or failed activity.
use aht.Prelude.{
  Bool, true, false, not, ◌&&◌, ◌||◌, String, ◌==◌, Option, none, some, List, [], ◌∷◌, some_and,
  if◌then◌else◌, is_some,
}
use aht.Registry.Model.{
  Time, Activity, ActivityDetail, DetailQuality, Authority, NativeLifecycle, DetailEvidence,
  DetailSupport, StateDetail, Session, Report, ProcessIdentity, Policy, NativeObservation,
  ScreenObservation,
}
use aht.Registry.Values.{
  zero_time, is_gone, is_live, is_start, is_resume, activity_eq, complete, same_process,
}
use aht.Registry.Liveness.{presence, activity, decision}
use aht.Registry.Authority.{native_ended, invalid_hook_time_reason}
use aht.Registry.Lifecycle.{report_ends}

abbrev pub no_detail : ActivityDetail
no_detail = ActivityDetail.other ""

abbrev pub no_authority : Authority
no_authority = Authority.other ""

-- `d == ""`.
abbrev pub detail_blank : ActivityDetail → Bool
detail_blank (ActivityDetail.other s) = s == ""
detail_blank _ = false

abbrev pub authority_blank : Authority → Bool
authority_blank (Authority.other s) = s == ""
authority_blank _ = false

-- `ActivityDetail.ValidFor`.
unfoldable pub valid_for : ActivityDetail → Activity → Bool
valid_for ActivityDetail.permission Activity.waiting = true
valid_for ActivityDetail.question Activity.waiting = true
valid_for ActivityDetail.general Activity.failed = true
valid_for ActivityDetail.usage_limit Activity.failed = true
valid_for _ _ = false

abbrev pub is_failed : Activity → Bool
is_failed Activity.failed = true
is_failed _ = false

abbrev pub is_waiting : Activity → Bool
is_waiting Activity.waiting = true
is_waiting _ = false

-- `DetailSupport.Supports`.
unfoldable pub supports : DetailSupport → Activity → Bool
supports d a = is_failed a || (is_waiting a && (d.permission || d.question))

unfoldable pub has_detail_activity : Option Activity → Bool
has_detail_activity a = some_and a (λ x. is_waiting x || is_failed x)

contains : String → List String → Bool
contains s [] = false
contains s (t ∷ ts) = s == t || contains s ts

-- `s.Process` is not nil where these two are called.
native_detail_of : Option NativeObservation → ProcessIdentity → Policy → Option DetailEvidence
unfolding contains native_ended
native_detail_of none p policy = none
native_detail_of (some n) p policy =
    if not (same_process n.process p) || native_ended n
    then none
    else if not (n.reporter.integration == policy.reporter)
        && not (contains n.reporter.integration policy.detail_reporters)
    then none
    else n.detail

unfoldable pub matching_native_detail : Session → ProcessIdentity → Policy → Option DetailEvidence
unfolding native_detail_of
matching_native_detail s p policy = native_detail_of s.observations.native p policy

screen_detail_of : Option ScreenObservation → ProcessIdentity → Activity → Option DetailEvidence
unfolding activity_eq
screen_detail_of none p a = none
screen_detail_of (some screen) p a =
    if same_process screen.process p
      && activity_eq screen.activity a
      && not (detail_blank screen.detail)
    then some (record { value = screen.detail; observed_at = screen.observed_at })
    else none

abbrev no_support : DetailSupport
no_support = record { permission = false; question = false; usage_limit = false }

unfoldable pub selected_detail :
    Session
    → ProcessIdentity
    → Policy
    → Activity
    → Authority
    → Option DetailEvidence × DetailSupport
unfolding matching_native_detail screen_detail_of
selected_detail s p policy a Authority.hook =
    (matching_native_detail s p policy, policy.details.native)
selected_detail s p policy a Authority.screen =
    (screen_detail_of s.observations.screen p a, policy.details.screen)
selected_detail s p policy a _ = (none, no_support)

abbrev pub missing_detail : StateDetail
missing_detail = record {
  value = no_detail;
  quality = DetailQuality.missing;
  authority = no_authority;
  observed_at = zero_time;
}

-- The part of `resolveDetail` behind the early returns.
detail_from : Activity → Authority → Time → Option DetailEvidence × DetailSupport → StateDetail
unfolding supports valid_for invalid_hook_time_reason
detail_from a authority now (evidence, support) =
    let plain : StateDetail = record {
      value = if is_failed a then ActivityDetail.general else no_detail;
      quality = if supports support a then DetailQuality.missing else DetailQuality.unsupported;
      authority = authority;
      observed_at = zero_time;
    } in
    elim evidence [
      | none ↦ plain
      | some e ↦
          if valid_for e.value a
          then record {
            value = e.value;
            quality =
                if invalid_hook_time_reason e.observed_at now == ""
                then DetailQuality.current
                else DetailQuality.stale;
            authority = authority;
            observed_at = e.observed_at;
          }
          else plain
    ]

resolved : Session → Policy → Time → Activity → Option StateDetail
unfolding decision selected_detail detail_from
resolved s policy now a = elim (decision s) [
  | none ↦ some missing_detail
  | some d ↦ elim s.process [
    | none ↦ some missing_detail
    | some p ↦
        if same_process d.process p
        then some (detail_from a d.authority now (selected_detail s p policy a d.authority))
        else some missing_detail
  ]
]

unfoldable pub resolve_detail : Policy → Time → Session → Session
unfolding resolved presence activity has_detail_activity
resolve_detail policy now s = record s {
  detail =
      if is_live (presence s) && has_detail_activity (activity s)
      then elim (activity s) [ none ↦ none | some a ↦ resolved s policy now a ]
      else none;
}

unfoldable pub retain_native_detail : Session → Report → ProcessIdentity → Bool
unfolding native_ended presence
retain_native_detail s r p = some_and s.observations.native λ n.
    is_some n.detail
    && not (native_ended n)
    && complete p
    && same_process n.process p
    && n.reporter.integration == r.reporter.integration
    && not (is_gone (presence s))

abbrev starts_native_lifecycle : Option NativeLifecycle → Bool
starts_native_lifecycle l = some_and l (λ x. is_start x || is_resume x)

abbrev stored_detail : Option NativeObservation → Option DetailEvidence
stored_detail none = none
stored_detail (some n) = n.detail

-- `Session.nativeDetail`.
unfoldable pub native_detail : Session → Report → ProcessIdentity → Time → Option DetailEvidence
unfolding report_ends retain_native_detail
native_detail s r p at =
    if report_ends r || starts_native_lifecycle r.lifecycle then none else elim r.detail [
      | some d ↦
          if detail_blank d
          then none
          else some (record {
            value = d;
            observed_at = elim r.detail_observed_at [ none ↦ at | some t ↦ t ];
          })
      | none ↦
          if some_and r.activity is_failed
          then some (record { value = ActivityDetail.general; observed_at = at })
          else if is_some r.activity || not (retain_native_detail s r p)
          then none
          else stored_detail s.observations.native
    ]
