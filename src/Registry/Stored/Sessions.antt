-- ===== src/Registry/Stored/Sessions.antt =====
-- pkg/registry/state_validation.go and the tests of detail.go that it calls: what a snapshot that
-- is read or written has to satisfy. `none` is the empty reason, of a session that passes.
use aht.Prelude.{
  Bool, true, false, not, ◌&&◌, ◌||◌, ◌==◌, String, Option, none, some_and, none_or, [], ◌∷◌,
  int_eq, int_nonneg,
}
use aht.Registry.Model.{
  Session, Observations, NativeObservation, ProcessObservation, MultiplexerObservation,
  CatalogObservation, ScreenObservation, ActivityDecision, Activity, ActivityDetail, Authority,
  DetailQuality, DetailEvidence, StateDetail, Liveness,
}
use aht.Registry.Values.{
  is_zero, before, after, activity_valid, authority_valid, kind_valid, lifecycle_valid,
  presence_valid, location_empty,
}
use aht.Registry.Detail.{detail_blank, authority_blank, valid_for, has_detail_activity}
use aht.Registry.Liveness.{activity, decision}
use aht.Registry.Validation.{valid_stored_process}
use aht.Registry.Matching.{Sessions}
use aht.Registry.Stored.{first_reason, or_else, stored_incarnation_corruption, store_schema_version}

-- `validDetailEvidence` of detail.go.
unfoldable pub valid_detail_evidence : Option DetailEvidence → Option Activity → Bool
unfolding valid_for
valid_detail_evidence detail a =
    none_or detail λ d. some_and a (λ x. valid_for d.value x) && not (is_zero d.observed_at)

-- `validDetailAuthority` of detail.go.
abbrev pub valid_detail_authority : Authority → Bool
valid_detail_authority a = authority_blank a || authority_valid a

abbrev blank_or_general : ActivityDetail → Bool
blank_or_general ActivityDetail.general = true
blank_or_general d = detail_blank d

-- The `switch` of `validStateDetail`.
abbrev pub valid_quality : StateDetail → DetailQuality → Bool
valid_quality d DetailQuality.current =
    not (detail_blank d.value) && not (is_zero d.observed_at) && not (authority_blank d.authority)
valid_quality d DetailQuality.stale =
    not (detail_blank d.value) && not (is_zero d.observed_at) && not (authority_blank d.authority)
valid_quality d DetailQuality.missing = is_zero d.observed_at && blank_or_general d.value
valid_quality d DetailQuality.unsupported = is_zero d.observed_at && blank_or_general d.value
valid_quality d (DetailQuality.other s) = false

-- `validStateDetail` of detail.go.
unfoldable pub valid_state_detail : Option StateDetail → Option Activity → Bool
unfolding has_detail_activity valid_for authority_valid
valid_state_detail detail a = none_or detail λ d.
    has_detail_activity a
    && (detail_blank d.value || some_and a (λ x. valid_for d.value x))
    && valid_detail_authority d.authority
    && valid_quality d d.quality

-- `validStoredActivityDecision`.
unfoldable pub valid_stored_activity_decision : ActivityDecision → Bool
unfolding valid_stored_process
valid_stored_activity_decision d =
    not (is_zero d.observed_at)
    && valid_stored_process d.process true
    && int_nonneg d.manifest_version

-- The tests of the slots.
unfoldable pub valid_stored_native_observation : NativeObservation → Bool
unfolding valid_detail_evidence valid_stored_process lifecycle_valid presence_valid activity_valid
valid_stored_native_observation n =
    not (is_zero n.observed_at)
    && valid_detail_evidence n.detail n.activity
    && none_or n.detail (λ d. not (after d.observed_at n.observed_at))
    && valid_stored_process n.process true
    && none_or n.lifecycle lifecycle_valid
    && none_or n.presence presence_valid
    && none_or n.activity activity_valid

unfoldable pub valid_stored_process_observation : ProcessObservation → Bool
unfolding valid_stored_process
valid_stored_process_observation p =
    not (is_zero p.observed_at) && valid_stored_process p.process (not p.present)

unfoldable pub valid_stored_multiplexer_observation : MultiplexerObservation → Bool
unfolding valid_stored_process kind_valid location_empty
valid_stored_multiplexer_observation m =
    not (is_zero m.observed_at)
    && valid_stored_process m.process false
    && int_nonneg m.location.pane_pid
    && (location_empty m.location || kind_valid m.location.kind)

unfoldable pub valid_stored_catalog_observation : CatalogObservation → Bool
valid_stored_catalog_observation c = not (is_zero c.observed_at) && int_nonneg c.process_pid

unfoldable pub valid_stored_screen_observation : ScreenObservation → Bool
unfolding valid_for valid_stored_process activity_valid
valid_stored_screen_observation s =
    not (is_zero s.observed_at)
    && (detail_blank s.detail || valid_for s.detail s.activity)
    && valid_stored_process s.process false
    && activity_valid s.activity
    && int_nonneg s.manifest_version

-- `storedObservationCorruption`.
unfoldable pub stored_observation_corruption : Observations → Option String
unfolding valid_stored_native_observation valid_stored_process_observation
    valid_stored_multiplexer_observation valid_stored_catalog_observation
    valid_stored_screen_observation
stored_observation_corruption o = first_reason (
    (not (none_or o.native valid_stored_native_observation), "invalid native observation")
    ∷ (not (none_or o.process valid_stored_process_observation), "invalid process observation")
    ∷ (
      not (none_or o.location valid_stored_multiplexer_observation),
      "invalid multiplexer observation",
    )
    ∷ (not (none_or o.catalog valid_stored_catalog_observation), "invalid catalog observation")
    ∷ (not (none_or o.screen valid_stored_screen_observation), "invalid screen observation")
    ∷ [])

-- `storedSessionIdentityCorruption`.
unfoldable pub stored_session_identity_corruption : String → Session → Option String
stored_session_identity_corruption id s = first_reason (
    (id == "" || not (s.id == id), "map key and session id differ")
    ∷ (not (int_eq s.schema_version store_schema_version), "invalid session schema version")
    ∷ (s.harness == "", "invalid harness")
    ∷ (
      is_zero s.created_at || is_zero s.updated_at || before s.updated_at s.created_at,
      "invalid session timestamps",
    )
    ∷ [])

-- `storedSessionContextCorruption`.
unfoldable pub stored_session_context_corruption : Session → Option String
unfolding valid_stored_process kind_valid location_empty decision valid_stored_activity_decision
stored_session_context_corruption s = first_reason (
    (not (none_or s.process (λ p. valid_stored_process p false)), "invalid process identity")
    ∷ (not (int_nonneg s.location.pane_pid), "invalid multiplexer pane pid")
    ∷ (
      not (location_empty s.location) && not (kind_valid s.location.kind),
      "invalid multiplexer kind",
    )
    ∷ (not (none_or (decision s) valid_stored_activity_decision), "invalid activity decision")
    ∷ [])

abbrev no_liveness : Liveness → Bool
no_liveness Liveness.absent = true
no_liveness _ = false

-- `storedSessionStateCorruption`.
unfoldable pub stored_session_state_corruption : Session → Option String
unfolding stored_incarnation_corruption activity activity_valid stored_session_context_corruption
stored_session_state_corruption s = or_else (stored_incarnation_corruption s) (
    or_else
      (first_reason (
        (no_liveness s.liveness, "missing liveness")
        ∷ (not (none_or (activity s) activity_valid), "invalid activity")
        ∷ []))
      (stored_session_context_corruption s))

-- `storedSessionCorruption`.
unfoldable pub stored_session_corruption : String → Session → Option String
unfolding stored_session_identity_corruption stored_session_state_corruption valid_state_detail
    activity stored_observation_corruption
stored_session_corruption id s = or_else (stored_session_identity_corruption id s) (
    or_else (stored_session_state_corruption s) (
      or_else
        (first_reason
          ((not (valid_state_detail s.detail (activity s)), "invalid activity detail") ∷ []))
        (stored_observation_corruption s.observations)))

-- `validateSnapshot`: the reason of the first session that fails.
unfoldable pub validate_snapshot : Sessions → Option String
unfolding stored_session_corruption
validate_snapshot [] = none
validate_snapshot ((id, s) ∷ rest) =
    let later = validate_snapshot rest in or_else (stored_session_corruption id s) later
