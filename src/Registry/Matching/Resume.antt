-- ===== src/Registry/Matching/Resume.antt =====
-- pkg/registry/matching.go: the session of the same process that a resumed session takes in.
use aht.Prelude.{
  Bool, true, false, not, ◌&&◌, ◌||◌, String, ◌==◌, none, some, some_and, is_some, if◌then◌else◌,
  [], ◌∷◌,
}
use aht.Registry.Model.{Observation, Session, ProcessIdentity}
use aht.Registry.Values.{is_provisional, max_time, same_process}
use aht.Registry.Evidence.{process_identity, location_of}
use aht.Registry.Matching.{Sessions}

-- The test of the loop of `reconcileResumedProcessSession`: whether it passes an entry over.
unfoldable pub passes_over : Observation → ProcessIdentity → String → Session → Session → Bool
unfolding same_process
passes_over o p id provisional s =
    id == s.id
    || not (provisional.harness == s.harness)
    || not (is_provisional provisional.identity_state)
    || is_some provisional.observations.native
    || not (some_and provisional.process (λ q. same_process q p))

-- The rest of its body: the location and the process evidence are carried over.
unfoldable pub absorbed : Observation → Session → Session → Session
absorbed o provisional s =
    let carries = is_some provisional.observations.location && not (is_some (location_of o)) in
    record s {
      observations = record (s.observations) {
        process = elim provisional.observations.process [
          | none ↦ s.observations.process
          | some x ↦ some x
        ];
        location = if carries then provisional.observations.location else s.observations.location;
      };
      location = if carries then provisional.location else s.location;
      incarnation = record (s.incarnation) {
        evidence_at =
            max_time (s.incarnation.evidence_at ∷ provisional.incarnation.evidence_at ∷ []);
      };
    }

-- The session, and whether the entry is deleted.
unfoldable pub absorb : Observation → ProcessIdentity → String → Session → Session → Session × Bool
unfolding passes_over absorbed
absorb o p id provisional s =
    if passes_over o p id provisional s then (s, false) else (absorbed o provisional s, true)

unfoldable pub absorb_entries :
    Observation → ProcessIdentity → Session → Sessions → Session × Sessions
unfolding absorb
absorb_entries o p s [] = (s, [])
absorb_entries o p s ((id, provisional) ∷ rest) =
    let (s', deleted) = absorb o p id provisional s in
    let (s'', rest') = absorb_entries o p s' rest in
    (s'', if deleted then rest' else (id, provisional) ∷ rest')

-- `reconcileResumedProcessSession`.
unfoldable pub reconcile_resumed_process_session :
    Observation → Session → Sessions → Session × Sessions
unfolding process_identity absorb_entries
reconcile_resumed_process_session o s sessions = elim (process_identity o) [
  | none ↦ (s, sessions)
  | some p ↦ absorb_entries o p s sessions
]
