-- ===== src/Registry/Evidence.antt =====
-- pkg/registry/evidence.go: the kinds of evidence and what an observation says of each subject.
use aht.Prelude.{Bool, true, false, not, Option, none, some, ◌==◌, ◌||◌, pos, [], if◌then◌else◌}
use aht.Registry.Model.{
  Activity, ProcessIdentity, Location, Listing, Report, Reporter, Evidence, Observation,
  Verification,
}
use aht.Registry.Values.{process_zero}

-- The string that `Kind` returns; `blank` is "".
pub data Kind : Type 0 where
  report sighting placement listing reading verification blank : Kind

abbrev pub evidence_kind : Evidence → Kind
evidence_kind (Evidence.report r) = Kind.report
evidence_kind (Evidence.sighting s) = Kind.sighting
evidence_kind (Evidence.placement p) = Kind.placement
evidence_kind (Evidence.listing l) = Kind.listing
evidence_kind (Evidence.reading r) = Kind.reading
evidence_kind (Evidence.verification v) = Kind.verification
evidence_kind Evidence.absent = Kind.blank

abbrev pub kind : Observation → Kind
kind o = evidence_kind o.evidence

abbrev pub is_report : Kind → Bool
is_report Kind.report = true
is_report _ = false

abbrev pub is_sighting : Kind → Bool
is_sighting Kind.sighting = true
is_sighting _ = false

abbrev pub is_placement : Kind → Bool
is_placement Kind.placement = true
is_placement _ = false

abbrev pub is_listing : Kind → Bool
is_listing Kind.listing = true
is_listing _ = false

abbrev pub is_reading : Kind → Bool
is_reading Kind.reading = true
is_reading _ = false

abbrev pub zero_reporter : Reporter
zero_reporter = record { sequence = none; integration = ""; version = pos 0; multi_session = false }

abbrev pub zero_report : Report
zero_report = record {
  detail_observed_at = none;
  detail = none;
  reporter = zero_reporter;
  event = "";
  lifecycle = none;
  claim = none;
  activity = none;
  process = none;
  location = none;
  listing = none;
  attributes = [];
  payload = [];
}

-- `observation.Evidence.(*Report)`, nil where the type differs.
abbrev pub as_report : Evidence → Option Report
as_report (Evidence.report r) = some r
as_report _ = none

abbrev pub as_verification : Evidence → Option Verification
as_verification (Evidence.verification v) = some v
as_verification _ = none

-- `Observation.Report` never returns nil.
abbrev pub evidence_report : Evidence → Report
evidence_report (Evidence.report r) = r
evidence_report _ = zero_report

abbrev pub report_of : Observation → Report
report_of o = evidence_report o.evidence

unfoldable pub evidence_process : Evidence → Option ProcessIdentity
evidence_process (Evidence.report r) = r.process
evidence_process (Evidence.sighting s) = if process_zero s.process then none else some s.process
evidence_process (Evidence.placement p) = some p.process
evidence_process (Evidence.reading r) = some r.process
evidence_process _ = none

-- `Observation.ProcessIdentity`.
unfoldable pub process_identity : Observation → Option ProcessIdentity
unfolding evidence_process
process_identity o = evidence_process o.evidence

abbrev pub evidence_present : Evidence → Option Bool
evidence_present (Evidence.sighting s) = some s.present
evidence_present _ = none

-- `Observation.Present`.
abbrev pub present : Observation → Option Bool
present o = evidence_present o.evidence

abbrev pub evidence_activity : Evidence → Option Activity
evidence_activity (Evidence.report r) = r.activity
evidence_activity (Evidence.reading r) = some r.activity
evidence_activity _ = none

abbrev pub evidence_location : Evidence → Option Location
evidence_location (Evidence.report r) = r.location
evidence_location (Evidence.placement p) = some p.location
evidence_location _ = none

-- `Observation.Location`.
abbrev pub location_of : Observation → Option Location
location_of o = evidence_location o.evidence

abbrev pub evidence_listing : Evidence → Option Listing
evidence_listing (Evidence.report r) = r.listing
evidence_listing (Evidence.listing l) = some l
evidence_listing _ = none

-- `Observation.Listing`.
abbrev pub listing_of : Observation → Option Listing
listing_of o = evidence_listing o.evidence

-- `observationHasIdentity` of matching.go.
unfoldable pub has_identity : Observation → Bool
has_identity o = not (o.subject.session_id == "") || not (o.subject.session_path == "")
