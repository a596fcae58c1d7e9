-- ===== src/Registry/Values.antt =====
-- pkg/registry/model.go, query.go and clone.go: the tests on single values.
use aht.Prelude.{
  ℤ, pos, negsuc, eq_iff, int_eq, int_pos, Bool, true, false, not, ◌&&◌, ◌==◌, Option, none, some,
  ◌≡◌, ltb, nat_eq, if◌then◌else◌, decide, ◌≤◌, arith, ◌⊎◌, List, [], ◌∷◌,
}
use aht.Registry.Model.{
  Time, Presence, Activity, NativeLifecycle, MultiplexerKind, Authority, Location, ProcessIdentity,
  Incarnation, IncarnationState, IdentityState, Liveness, Observations, Session,
}
use aht.Registry.Equality.{Location-discrete, ProcessIdentity-discrete}

-- time.Time: the zero time, Before, After and Equal.
abbrev pub zero_time : Time
zero_time = 0

abbrev pub is_zero : Time → Bool
is_zero t = nat_eq t 0

abbrev pub before : Time → Time → Bool
before a b = ltb a b

abbrev pub after : Time → Time → Bool
after a b = ltb b a

abbrev pub time_equal : Time → Time → Bool
time_equal a b = nat_eq a b

latest_of : Time → List Time → Time
latest_of latest [] = latest
latest_of latest (value ∷ values) = latest_of (if after value latest then value else latest) values

unfoldable pub max_time : List Time → Time
unfolding latest_of
max_time values = latest_of zero_time values

pub le-max_time-left : (a b : Time) → a ≤ max_time (a ∷ b ∷ [])
unfolding max_time
le-max_time-left a b = ground arith

pub le-max_time-right : (a b : Time) → b ≤ max_time (a ∷ b ∷ [])
unfolding max_time
le-max_time-right a b = ground arith

pub max_time_choice : (a b : Time) → (max_time (a ∷ b ∷ []) ≡ a) ⊎ (max_time (a ∷ b ∷ []) ≡ b)
unfolding max_time
max_time_choice a b = ground arith

-- The `Valid` methods of the string types.
unfoldable pub presence_valid : Presence → Bool
presence_valid (Presence.other s) = false
presence_valid _ = true

unfoldable pub activity_valid : Activity → Bool
activity_valid (Activity.other s) = false
activity_valid _ = true

unfoldable pub lifecycle_valid : NativeLifecycle → Bool
lifecycle_valid (NativeLifecycle.other s) = false
lifecycle_valid _ = true

unfoldable pub kind_valid : MultiplexerKind → Bool
kind_valid (MultiplexerKind.other s) = false
kind_valid _ = true

unfoldable pub authority_valid : Authority → Bool
authority_valid (Authority.other s) = false
authority_valid _ = true

-- Comparisons with one value of a string type.
abbrev pub is_live : Presence → Bool
is_live Presence.live = true
is_live _ = false

abbrev pub is_gone : Presence → Bool
is_gone Presence.gone = true
is_gone _ = false

abbrev pub is_end : NativeLifecycle → Bool
is_end NativeLifecycle.end = true
is_end _ = false

abbrev pub is_start : NativeLifecycle → Bool
is_start NativeLifecycle.start = true
is_start _ = false

abbrev pub is_resume : NativeLifecycle → Bool
is_resume NativeLifecycle.resume = true
is_resume _ = false

abbrev pub is_hook : Authority → Bool
is_hook Authority.hook = true
is_hook _ = false

abbrev pub is_screen : Authority → Bool
is_screen Authority.screen = true
is_screen _ = false

abbrev pub is_unknown : Activity → Bool
is_unknown Activity.unknown = true
is_unknown _ = false

unfoldable pub presence_eq : Presence → Presence → Bool
presence_eq Presence.live Presence.live = true
presence_eq Presence.gone Presence.gone = true
presence_eq Presence.unknown Presence.unknown = true
presence_eq (Presence.other s) (Presence.other t) = s == t
presence_eq _ _ = false

unfoldable pub activity_eq : Activity → Activity → Bool
activity_eq Activity.running Activity.running = true
activity_eq Activity.waiting Activity.waiting = true
activity_eq Activity.idle Activity.idle = true
activity_eq Activity.failed Activity.failed = true
activity_eq Activity.interrupted Activity.interrupted = true
activity_eq Activity.unknown Activity.unknown = true
activity_eq (Activity.other s) (Activity.other t) = s == t
activity_eq _ _ = false

unfoldable pub kind_eq : MultiplexerKind → MultiplexerKind → Bool
kind_eq MultiplexerKind.tmux MultiplexerKind.tmux = true
kind_eq MultiplexerKind.zellij MultiplexerKind.zellij = true
kind_eq MultiplexerKind.herdr MultiplexerKind.herdr = true
kind_eq (MultiplexerKind.other s) (MultiplexerKind.other t) = s == t
kind_eq _ _ = false

abbrev pub is_provisional : IdentityState → Bool
is_provisional IdentityState.provisional = true
is_provisional _ = false

-- `activityEqual` of clone.go.
unfoldable pub activity_equal : Option Activity → Option Activity → Bool
unfolding activity_eq
activity_equal none none = true
activity_equal (some a) (some b) = activity_eq a b
activity_equal _ _ = false

abbrev pub zero_location : Location
zero_location = record {
  kind = MultiplexerKind.other "";
  server_id = "";
  session_id = "";
  session_name = "";
  workspace_id = "";
  workspace_name = "";
  tab_id = "";
  tab_index = "";
  tab_name = "";
  window_id = "";
  window_index = "";
  window_name = "";
  pane_id = "";
  pane_index = "";
  pane_current_path = "";
  pane_pid = pos 0;
  pane_tty = "";
  client_tty = "";
}

-- `Location.Empty`.
unfoldable pub location_empty : Location → Bool
location_empty l = decide (Location-discrete l zero_location)

abbrev pub zero_process : ProcessIdentity
zero_process = record {
  pid = pos 0;
  ppid = pos 0;
  process_group_id = pos 0;
  foreground = false;
  start_identity = "";
  executable = "";
  cwd = "";
  tty = "";
}

-- `p == ProcessIdentity{}`.
unfoldable pub process_zero : ProcessIdentity → Bool
process_zero p = decide (ProcessIdentity-discrete p zero_process)

-- `ProcessIdentity.Complete` and `ProcessIdentity.Equal`.
unfoldable pub complete : ProcessIdentity → Bool
complete p = int_pos p.pid && not (p.start_identity == "")

unfoldable pub same_process : ProcessIdentity → ProcessIdentity → Bool
same_process p q =
    int_eq p.pid q.pid && (not (p.start_identity == "") && p.start_identity == q.start_identity)

pub int_eq_refl : (n : ℤ) → int_eq n n ≡ true
int_eq_refl (pos n) = ground arith
int_eq_refl (negsuc n) = ground arith

pub same_process_refl : (p : ProcessIdentity) → complete p ≡ true → same_process p p ≡ true
unfolding complete same_process
same_process_refl p h = ground (arith, int_eq_refl p.pid, eq_iff p.start_identity p.start_identity)

abbrev pub zero_incarnation : Incarnation
zero_incarnation = record {
  state = IncarnationState.other "";
  process = zero_process;
  evidence_at = zero_time;
  transition_at = zero_time;
  previous = none;
}

abbrev pub no_observations : Observations
no_observations = record {
  native = none;
  process = none;
  location = none;
  catalog = none;
  screen = none;
}

-- `Session{}`.
abbrev pub zero_session : Session
zero_session = record {
  detail = none;
  incarnation = zero_incarnation;
  identity_state = IdentityState.other "";
  liveness = Liveness.absent;
  schema_version = pos 0;
  id = "";
  harness = "";
  session_id = "";
  session_path = "";
  resume_command = [];
  cwd = "";
  project_root = "";
  process = none;
  location = zero_location;
  observations = no_observations;
  created_at = zero_time;
  updated_at = zero_time;
  presence_changed_at = zero_time;
  activity_changed_at = zero_time;
}
