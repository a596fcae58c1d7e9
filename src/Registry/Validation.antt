-- ===== src/Registry/Validation.antt =====
-- pkg/registry/evidence_validation.go and the tests of state_validation.go that it shares:
-- which observations the reducer takes.
use aht.Prelude.{
  Bool, true, false, not, ◌&&◌, ◌||◌, ◌==◌, Option, some, some_and, none_or, is_some, int_nonneg,
  if◌then◌else◌,
}
use aht.Prelude.Text.{trim_space}
use aht.Registry.Model.{
  Time, Presence, Harness, Evidence, Observation, Report, Listing, ProcessIdentity, Location,
  Activity, ActivityDetail, Policy,
}
use aht.Registry.Values.{
  is_zero, after, is_end, complete, process_zero, location_empty, kind_valid, activity_valid,
  lifecycle_valid, presence_valid,
}
use aht.Registry.Evidence.{process_identity}
use aht.Registry.Detail.{detail_blank, valid_for}
use aht.Registry.Slots.{Result, ok, err, invalid_observation, ◌>>◌}

-- `Rules` of authority.go: what the harness catalog answers.
pub record Rules : Type 0 where
  pub known : Harness → Bool
  pub policy : Harness → Policy

-- `if bad { return ErrInvalidObservation }`.
abbrev pub require : Bool → Result (Unit {0})
require true = ok tt
require false = err invalid_observation

-- `validStoredProcess`.
unfoldable pub valid_stored_process : ProcessIdentity → Bool → Bool
unfolding complete
valid_stored_process p allow_zero =
    if process_zero p
    then allow_zero
    else complete p && int_nonneg p.ppid && int_nonneg p.process_group_id

-- `validDetail`.
unfoldable pub valid_detail : Option ActivityDetail → Option Activity → Bool
unfolding valid_for
valid_detail d a = none_or d (λ value. detail_blank value || some_and a (λ x. valid_for value x))

-- `validReportDetail`.
unfoldable pub valid_report_detail : Report → Bool
unfolding valid_detail
valid_report_detail r =
    valid_detail r.detail r.activity
    && none_or r.detail_observed_at
        λ at. some_and r.detail (λ d. not (detail_blank d)) && not (is_zero at)

unfoldable pub valid_location : Option Location → Bool
unfolding kind_valid
valid_location l = none_or l (λ x. int_nonneg x.pane_pid && (location_empty x || kind_valid x.kind))

unfoldable pub valid_listing : Option Listing → Bool
valid_listing l = none_or l (λ x. int_nonneg x.process_pid)

unfoldable pub validate_report_metadata : Report → Result (Unit {0})
unfolding valid_location valid_listing
validate_report_metadata r = do
  require (int_nonneg r.reporter.version)
  require (not (is_some r.reporter.sequence) || not (trim_space r.reporter.integration == ""))
  require (valid_location r.location)
  require (valid_listing r.listing)

unfoldable pub validate_report : Report → Result (Unit {0})
unfolding valid_report_detail lifecycle_valid presence_valid activity_valid validate_report_metadata
validate_report r = do
  require (valid_report_detail r)
  require (
      none_or r.lifecycle lifecycle_valid
      && none_or r.claim presence_valid
      && none_or r.activity activity_valid)
  require (not (some_and r.lifecycle is_end && is_some r.activity))
  require (is_some r.lifecycle || is_some r.claim || is_some r.activity || not (r.event == ""))
  validate_report_metadata r

-- `v.Presence == PresenceGone || v.Presence == PresenceUnknown`.
abbrev verifiable : Presence → Bool
verifiable Presence.gone = true
verifiable Presence.unknown = true
verifiable _ = false

-- The `validate` methods.
unfoldable pub validate_evidence : Evidence → Result (Unit {0})
unfolding validate_report complete valid_location valid_listing activity_valid valid_for
validate_evidence (Evidence.report r) = validate_report r
validate_evidence (Evidence.sighting s) = require (not s.present || complete s.process)
validate_evidence (Evidence.placement p) = do
  require (complete p.process)
  require (valid_location (some p.location))
validate_evidence (Evidence.listing l) = require (valid_listing (some l))
validate_evidence (Evidence.reading r) = do
  require (complete r.process && activity_valid r.activity)
  require (detail_blank r.detail || valid_for r.detail r.activity)
validate_evidence (Evidence.verification v) =
    require (verifiable v.presence && not (v.reason == ""))
validate_evidence Evidence.absent = err invalid_observation

abbrev detail_follows : Evidence → Time → Bool
detail_follows (Evidence.report r) at = some_and r.detail_observed_at (λ t. after t at)
detail_follows _ at = false

-- `validateEvidenceAt`.
unfoldable pub validate_evidence_at : Evidence → Time → Result (Unit {0})
unfolding validate_evidence
validate_evidence_at e at = do validate_evidence e; require (not (detail_follows e at))

-- `Observation.Validate`.
unfoldable pub validate : Rules → Observation → Result (Unit {0})
unfolding validate_evidence_at valid_stored_process process_identity
validate rules o = do
  require (not (o.harness == ""))
  require (rules.known o.harness)
  require (not (is_zero o.at))
  validate_evidence_at o.evidence o.at
  require (none_or (process_identity o) (λ p. valid_stored_process p false))
  require (
      not (o.subject.session_id == "")
      || not (o.subject.session_path == "")
      || is_some (process_identity o))
