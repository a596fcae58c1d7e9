-- ===== src/Registry/Model.antt =====
-- pkg/registry/model.go, detail.go, lifecycle.go, liveness.go, evidence.go, authority.go: the
-- types. A string type with named values has a constructor for each and `other` for the rest.
-- A `time.Time` is its nanoseconds since Go's zero time; earlier instants are not modelled.
-- A map or a byte slice that is only stored and compared is the list of its entries, by key.
use aht.Prelude.{ℕ, ℤ, Bool, String, Option, List}

abbrev pub Time : Type 0
Time = ℕ

abbrev pub Harness : Type 0
Harness = String

pub data Presence : Type 0 where
  live gone unknown : Presence
  other : String → Presence

pub data Activity : Type 0 where
  running waiting idle failed interrupted unknown : Activity
  other : String → Activity

pub data NativeLifecycle : Type 0 where
  start resume end : NativeLifecycle
  other : String → NativeLifecycle

pub data MultiplexerKind : Type 0 where
  tmux zellij herdr : MultiplexerKind
  other : String → MultiplexerKind

pub data IdentityState : Type 0 where
  provisional identified : IdentityState
  other : String → IdentityState

pub data IncarnationState : Type 0 where
  starting live ended exited : IncarnationState
  other : String → IncarnationState

pub data Authority : Type 0 where
  hook screen process : Authority
  other : String → Authority

pub data ActivityDetail : Type 0 where
  permission question general usage_limit : ActivityDetail
  other : String → ActivityDetail

pub data DetailQuality : Type 0 where
  current stale missing unsupported : DetailQuality
  other : String → DetailQuality

pub record Location : Type 0 where
  pub kind : MultiplexerKind
  pub server_id : String
  pub session_id : String
  pub session_name : String
  pub workspace_id : String
  pub workspace_name : String
  pub tab_id : String
  pub tab_index : String
  pub tab_name : String
  pub window_id : String
  pub window_index : String
  pub window_name : String
  pub pane_id : String
  pub pane_index : String
  pub pane_current_path : String
  pub pane_pid : ℤ
  pub pane_tty : String
  pub client_tty : String

pub record ProcessIdentity : Type 0 where
  pub pid : ℤ
  pub ppid : ℤ
  pub process_group_id : ℤ
  pub foreground : Bool
  pub start_identity : String
  pub executable : String
  pub cwd : String
  pub tty : String

pub record Reporter : Type 0 where
  pub sequence : Option ℕ  -- *uint64
  pub integration : String
  pub version : ℤ
  pub multi_session : Bool

pub record DetailEvidence : Type 0 where
  pub value : ActivityDetail
  pub observed_at : Time

pub record NativeObservation : Type 0 where
  pub detail : Option DetailEvidence
  pub reporter : Reporter
  pub event : String
  pub lifecycle : Option NativeLifecycle
  pub presence : Option Presence
  pub activity : Option Activity
  pub session_id : String
  pub session_path : String
  pub observed_at : Time
  pub attributes : List (String × String)
  pub raw_payload : List ℕ
  pub process : ProcessIdentity

pub record ScreenObservation : Type 0 where
  pub detail : ActivityDetail
  pub activity : Activity
  pub authority : Authority
  pub reason : String
  pub rule_id : String
  pub manifest_source : String
  pub manifest_version : ℤ
  pub fallback_for_integration : String
  pub fallback_reason : String
  pub process : ProcessIdentity
  pub observed_at : Time

pub record ActivityDecision : Type 0 where
  pub authority : Authority
  pub reason : String
  pub rule_id : String
  pub manifest_source : String
  pub manifest_version : ℤ
  pub fallback_reason : String
  pub process : ProcessIdentity
  pub observed_at : Time

pub record ProcessObservation : Type 0 where
  pub present : Bool
  pub process : ProcessIdentity
  pub observed_at : Time

pub record MultiplexerObservation : Type 0 where
  pub process : ProcessIdentity
  pub location : Location
  pub observed_at : Time

pub record CatalogObservation : Type 0 where
  pub session_id : String
  pub session_path : String
  pub resume_command : List String
  pub cwd : String
  pub project_root : String
  pub process_pid : ℤ
  pub observed_at : Time

pub record Observations : Type 0 where
  pub native : Option NativeObservation
  pub process : Option ProcessObservation
  pub location : Option MultiplexerObservation
  pub catalog : Option CatalogObservation
  pub screen : Option ScreenObservation

-- `absent` is the nil interface value, which the zero `Session` holds.
pub data Liveness : Type 0 where
  unknown live : Activity → Option ActivityDecision → Liveness
  gone : Time → String → Option ActivityDecision → Liveness
  absent : Liveness

pub record Incarnation : Type 0 where
  pub state : IncarnationState
  pub process : ProcessIdentity
  pub evidence_at : Time
  pub transition_at : Time
  pub previous : Option ProcessIdentity

pub record StateDetail : Type 0 where
  pub value : ActivityDetail
  pub quality : DetailQuality
  pub authority : Authority
  pub observed_at : Time

pub record Session : Type 0 where
  pub detail : Option StateDetail
  pub incarnation : Incarnation
  pub identity_state : IdentityState
  pub liveness : Liveness
  pub schema_version : ℤ
  pub id : String
  pub harness : Harness
  pub session_id : String
  pub session_path : String
  pub resume_command : List String
  pub cwd : String
  pub project_root : String
  pub process : Option ProcessIdentity
  pub location : Location
  pub observations : Observations
  pub created_at : Time
  pub updated_at : Time
  pub presence_changed_at : Time
  pub activity_changed_at : Time

pub record ObservationIdentity : Type 0 where
  pub session_id : String
  pub session_path : String
  pub cwd : String
  pub attributes : List (String × String)

pub record Listing : Type 0 where
  pub resume_command : List String
  pub cwd : String
  pub project_root : String
  pub process_pid : ℤ
  pub process_start_identity : String
  pub current : Bool

pub record Report : Type 0 where
  pub detail_observed_at : Option Time
  pub detail : Option ActivityDetail
  pub reporter : Reporter
  pub event : String
  pub lifecycle : Option NativeLifecycle
  pub claim : Option Presence
  pub activity : Option Activity
  pub process : Option ProcessIdentity
  pub location : Option Location
  pub listing : Option Listing
  pub attributes : List (String × String)
  pub payload : List ℕ

pub record Sighting : Type 0 where
  pub process : ProcessIdentity
  pub present : Bool

pub record Verification : Type 0 where
  pub presence : Presence
  pub reason : String

pub record Placement : Type 0 where
  pub process : ProcessIdentity
  pub location : Location

-- `absent` is the nil interface value; a typed nil pointer in the interface is not modelled.
pub data Evidence : Type 0 where
  report : Report → Evidence
  sighting : Sighting → Evidence
  placement : Placement → Evidence
  listing : Listing → Evidence
  reading : ScreenObservation → Evidence
  verification : Verification → Evidence
  absent : Evidence

pub record Observation : Type 0 where
  pub harness : Harness
  pub at : Time
  pub subject : ObservationIdentity
  pub evidence : Evidence

pub record DetailSupport : Type 0 where
  pub permission : Bool
  pub question : Bool
  pub usage_limit : Bool

pub record DetailCapabilities : Type 0 where
  pub native : DetailSupport
  pub screen : DetailSupport

pub record Policy : Type 0 where
  pub detail_reporters : List String
  pub details : DetailCapabilities
  pub exclusive_process : Bool
  pub authority : Authority
  pub screen_fallback : Bool
  pub retain_native_activity : Bool
  pub reporter : String
  pub catalog_creates : Bool
