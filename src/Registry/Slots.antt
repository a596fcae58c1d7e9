-- ===== src/Registry/Slots.antt =====
-- pkg/registry/evidence_store.go: the slot that each kind of evidence keeps in a session, and
-- the order of the reports of one reporter.
pub mod Sequence
use aht.Prelude.{
  ◌≡◌, refl, ℕ, ◌+◌, Bool, true, false, not, ◌&&◌, ◌||◌, ◌==◌, Option, none, some, some_and,
  is_some, none_or, if◌then◌else◌, decide, leb, nat_eq,
}
use aht.Prelude.Text.{trim_space}
use aht.Registry.Model.{
  Time, Activity, Evidence, Observation, Observations, Session, Report, NativeObservation,
  ProcessIdentity,
}
use aht.Registry.Equality.{
  NativeObservation-discrete, ProcessObservation-discrete, MultiplexerObservation-discrete,
  CatalogObservation-discrete, ScreenObservation-discrete,
}
use aht.Registry.Values.{zero_time, after, time_equal, is_gone, same_process, zero_process}
use aht.Registry.Liveness.{presence}
use aht.Registry.Evidence.{kind, is_report, process_identity, report_of}
use aht.Registry.Authority.{native_ended}
use aht.Registry.Lifecycle.{report_ends}
use aht.Registry.Detail.{native_detail}

-- The errors of the reducer, by the sentinel that `errors.Is` finds in them.
pub data Error : Type 0 where
  observation_dropped observation_conflict invalid_observation canceled : Error

-- What a method of the reducer returns: `(value, nil)` or an error.
pub data Result {κ} (V : Type κ) : Type κ where
  err : (cause : Error) → Result V
  ok : (value : V) → Result V

-- `if err != nil { return err }`, and otherwise the rest of the method on the value.
abbrev pub unless_err {κ ℓ} : {V : Type κ} {W : Type ℓ} → (V → Result W) → Result V → Result W
unless_err rest (ok value) = rest value
unless_err rest (err cause) = err cause

infixl 5 ◌>>=◌
abbrev pub ◌>>=◌ {κ ℓ} : {V : Type κ} {W : Type ℓ} → Result V → (V → Result W) → Result W
step >>= rest = unless_err rest step

infixl 5 ◌>>◌
abbrev pub ◌>>◌ {κ} : {W : Type κ} → Result (Unit {0}) → Result W → Result W
check >> rest = unless_err (λ _. rest) check

-- `observationTime`.
unfoldable pub observation_time : Time → Time → Time
observation_time observed_at received_at =
    if after observed_at received_at then received_at else observed_at

abbrev pub pointed_process : Option ProcessIdentity → ProcessIdentity
pointed_process none = zero_process
pointed_process (some p) = p

-- `Session.nativeActivity`.
unfoldable pub native_activity : Session → Report → ProcessIdentity → Option Activity
unfolding presence report_ends native_ended
native_activity s r p =
    let carried = some_and s.observations.native λ n.
      not (native_ended n)
      && n.reporter.integration == r.reporter.integration
      && some_and s.process (λ q. same_process q p)
      && same_process n.process p in
    if not (is_some r.activity) && not (is_gone (presence s)) && not (report_ends r) && carried
    then elim s.observations.native [ none ↦ none | some n ↦ n.activity ]
    else r.activity

-- `storeNativeObservation`, the value that it stores.
unfoldable pub native_slot : Session → Observation → Report → Time → NativeObservation
unfolding process_identity native_activity native_detail
native_slot s o r at =
    let p = pointed_process (process_identity o) in
    record {
      detail = native_detail s r p at;
      reporter = r.reporter;
      event = r.event;
      lifecycle = r.lifecycle;
      presence = r.claim;
      activity = native_activity s r p;
      session_id = o.subject.session_id;
      session_path = o.subject.session_path;
      observed_at = at;
      attributes = r.attributes;
      raw_payload = r.payload;
      process = p;
    }

stored : Session → Observation → Evidence → Time → Observations
unfolding process_identity native_slot
stored s o (Evidence.report r) at = record (s.observations) { native = some (native_slot s o r at) }
stored s o (Evidence.sighting e) at = record (s.observations) {
  process = some (record {
    present = e.present;
    process = pointed_process (process_identity o);
    observed_at = at;
  });
}
stored s o (Evidence.placement e) at = record (s.observations) {
  location = some (record { process = e.process; location = e.location; observed_at = at });
}
stored s o (Evidence.listing l) at = record (s.observations) {
  catalog = some (record {
    session_id = o.subject.session_id;
    session_path = o.subject.session_path;
    resume_command = l.resume_command;
    cwd = l.cwd;
    project_root = l.project_root;
    process_pid = l.process_pid;
    observed_at = at;
  });
}
stored s o (Evidence.reading r) at = record (s.observations) {
  screen = some (record r { observed_at = at });
}
stored s o (Evidence.verification v) at = s.observations
stored s o Evidence.absent at = s.observations

-- `storeObservation`.
unfoldable pub store_observation : Observation → Time → Session → Session
unfolding stored
store_observation o at s = record s { observations = stored s o o.evidence at }

abbrev time_of_slot {ℓ} : {A : Type ℓ} → (A → Time) → Option A → Time
time_of_slot observed none = zero_time
time_of_slot observed (some a) = observed a

slot_time : Observations → Evidence → Time
slot_time obs (Evidence.report r) = time_of_slot (λ n. n.observed_at) obs.native
slot_time obs (Evidence.sighting e) = time_of_slot (λ n. n.observed_at) obs.process
slot_time obs (Evidence.placement e) = time_of_slot (λ n. n.observed_at) obs.location
slot_time obs (Evidence.listing l) = time_of_slot (λ n. n.observed_at) obs.catalog
slot_time obs (Evidence.reading r) = time_of_slot (λ n. n.observed_at) obs.screen
slot_time obs (Evidence.verification v) = zero_time
slot_time obs Evidence.absent = zero_time

-- `sourceSlotTime`.
unfoldable pub source_slot_time : Session → Observation → Time
unfolding slot_time
source_slot_time s o = slot_time s.observations o.evidence

abbrev slot_eq {ℓ} : {A : Type ℓ} → Discrete A → Option A → Option A → Bool
slot_eq d none none = true
slot_eq d (some a) (some b) = decide (d a b)
slot_eq d _ _ = false

same_slot : Observations → Observations → Evidence → Bool
same_slot a b (Evidence.report r) = slot_eq NativeObservation-discrete a.native b.native
same_slot a b (Evidence.sighting e) = slot_eq ProcessObservation-discrete a.process b.process
same_slot a b (Evidence.placement e) = slot_eq MultiplexerObservation-discrete a.location b.location
same_slot a b (Evidence.listing l) = slot_eq CatalogObservation-discrete a.catalog b.catalog
same_slot a b (Evidence.reading r) = slot_eq ScreenObservation-discrete a.screen b.screen
same_slot a b (Evidence.verification v) = true
same_slot a b Evidence.absent = true

-- `observationEquivalent`.
unfoldable pub observation_equivalent : Session → Observation → Time → Bool
unfolding same_slot store_observation
observation_equivalent s o at =
    same_slot s.observations (store_observation o at s).observations o.evidence

-- `sameReportProcess`.
unfoldable pub same_report_process : NativeObservation → Report → Bool
same_report_process previous r = none_or r.process (λ p. same_process previous.process p)

-- `*a == *b` where neither is nil.
abbrev same_sequence : Option ℕ → Option ℕ → Bool
same_sequence (some a) (some b) = nat_eq a b
same_sequence _ _ = false

-- `duplicateSequencedReport`.
unfoldable pub duplicate_sequenced_report : Session → Observation → Bool
unfolding same_report_process observation_equivalent
duplicate_sequenced_report s o =
    let r = report_of o in
    some_and s.observations.native λ n.
      same_report_process n r
      && same_sequence r.reporter.sequence n.reporter.sequence
      && not (trim_space r.reporter.integration == "")
      && trim_space r.reporter.integration == trim_space n.reporter.integration
      && observation_equivalent s o n.observed_at

-- `validateSequenceOrder`: true where it returns nil.
unfoldable pub sequence_follows : Option ℕ → Option ℕ → Bool
sequence_follows none current = true
sequence_follows (some previous) none = false
sequence_follows (some previous) (some current) = not (leb current previous)

-- `previous.ObservedAt.Add(time.Nanosecond)`.
abbrev next_instant : Time → Time
next_instant t = t + 1

sequenced_time : Session → Observation → Time → NativeObservation → Result Time
unfolding duplicate_sequenced_report sequence_follows observation_equivalent
sequenced_time s o at n =
    let r = report_of o in
    if duplicate_sequenced_report s o
    then ok n.observed_at
    else if not (sequence_follows n.reporter.sequence r.reporter.sequence)
    then err observation_conflict
    else if not (is_some r.reporter.sequence)
    then ok (
        if time_equal at n.observed_at && not (observation_equivalent s o at)
        then next_instant n.observed_at
        else at)
    else ok (if not (after at n.observed_at) then next_instant n.observed_at else at)

-- `sequencedObservationTime`.
unfoldable pub sequenced_observation_time : Session → Observation → Time → Result Time
unfolding sequenced_time same_report_process
sequenced_observation_time s o at =
    let r = report_of o in
    let reporter = trim_space r.reporter.integration in
    if not (is_report (kind o)) || reporter == "" then ok at else elim s.observations.native [
      | none ↦ ok at
      | some n ↦
          if not (same_report_process n r) || not (trim_space n.reporter.integration == reporter)
          then ok at
          else sequenced_time s o at n
    ]

-- A method that returns a value has one from its first step.
pub unless_err-eq_ok {κ ℓ} :
    {V : Type κ} {W : Type ℓ} (rest : V → Result W) (step : Result V) {w : W}
    → unless_err rest step ≡ ok w
    → (v : V) × (step ≡ ok v) × (rest v ≡ ok w)
unless_err-eq_ok rest (err cause) returned = cc
unless_err-eq_ok rest (ok value) returned = (value, refl, returned)
