-- ===== src/Registry/Summary.antt =====
-- pkg/registry/summary.go: the numbers of the sessions, by multiplexer session, project or harness.
pub mod Sorted
pub mod Counts
pub mod Members
use Prim.Native.Nat.{Ordering, lt, eq, gt}
use Prim.Native.String.{compare, ◌++◌}
use aht.Prelude.{
  ℕ, ◌+◌, Bool, true, false, not, ◌&&◌, ◌==◌, String, Option, none, some, List, [], ◌∷◌, map,
  if◌then◌else◌,
}
use aht.Prelude.Paths.{clean, base}
use aht.Prelude.Order.{first_difference}
use aht.Registry.Model.{Harness, MultiplexerKind, Presence, Activity, Session}
use aht.Registry.Values.{kind_eq, is_gone}
use aht.Registry.Liveness.{presence, activity}

pub data SummaryGroupBy : Type 0 where
  multiplexer_session project harness : SummaryGroupBy
  other : String → SummaryGroupBy

pub record SummaryGroupKey : Type 0 where
  pub group_by : SummaryGroupBy
  pub kind : MultiplexerKind
  pub server : String
  pub id : String
  pub name : String
  pub project_root : String
  pub harness : Harness

pub record Summary : Type 0 where
  pub group_by : SummaryGroupBy
  pub group_key : String
  pub group_label : String
  pub project : String
  pub project_root : String
  pub harness : Harness
  pub multiplexer_kind : MultiplexerKind
  pub multiplexer_server_id : String
  pub multiplexer_session_id : String
  pub multiplexer_session_name : String
  pub total : ℕ
  pub live : ℕ
  pub gone : ℕ
  pub presence_unknown : ℕ
  pub running : ℕ
  pub waiting : ℕ
  pub idle : ℕ
  pub failed : ℕ
  pub interrupted : ℕ
  pub activity_unknown : ℕ

abbrev pub no_kind : MultiplexerKind
no_kind = MultiplexerKind.other ""

-- `string(kind)`.
abbrev pub kind_text : MultiplexerKind → String
kind_text MultiplexerKind.tmux = "tmux"
kind_text MultiplexerKind.zellij = "zellij"
kind_text MultiplexerKind.herdr = "herdr"
kind_text (MultiplexerKind.other s) = s

-- `cmp.Or` on strings.
abbrev pub first_nonblank : String → String → String
first_nonblank s t = if s == "" then t else s

-- The key, the label and the text of the key.
abbrev pub Grouped : Type 0
Grouped = SummaryGroupKey × String × String

-- A key in which the rest is blank.
abbrev pub blank_key : SummaryGroupBy → SummaryGroupKey
blank_key group_by = record {
  group_by = group_by;
  kind = no_kind;
  server = "";
  id = "";
  name = "";
  project_root = "";
  harness = "";
}

-- `multiplexerSummaryKey`.
unfoldable pub multiplexer_summary_key : Session → Grouped
multiplexer_summary_key s =
    let l = s.location in
    let key : SummaryGroupKey = record (blank_key SummaryGroupBy.multiplexer_session) {
      kind = l.kind;
      server = l.server_id;
      id = l.session_id;
      name = if not (l.session_id == "") then "" else l.session_name;
    } in
    let label =
      if not (l.session_name == "")
      then l.session_name
      else if not (l.session_id == "")
      then l.session_id
      else "unknown" in
    let id_or_name = first_nonblank key.id key.name in
    let key_text =
      if not (key.server == "")
      then kind_text key.kind ++ (":" ++ (key.server ++ (":" ++ id_or_name)))
      else if not (id_or_name == "")
      then kind_text key.kind ++ (":" ++ id_or_name)
      else "unknown" in
    (key, label, key_text)

-- `projectSummaryKey`.
unfoldable pub project_summary_key : Session → Grouped
unfolding clean base
project_summary_key s =
    let cleaned = clean s.project_root in
    let label = base cleaned in
    if s.project_root == "" then (blank_key SummaryGroupBy.project, "unknown", "") else (
      record (blank_key SummaryGroupBy.project) { project_root = cleaned },
      (if label == ""
          then cleaned
          else if label == "."
          then cleaned
          else if label == "/"
          then cleaned
          else label),
      cleaned,
    )

-- `harnessSummaryKey`.
unfoldable pub harness_summary_key : Session → Grouped
harness_summary_key s = (
  record (blank_key SummaryGroupBy.harness) { harness = s.harness },
  (if s.harness == "" then "unknown" else s.harness),
  s.harness,
)

-- `sessionGroupKey`.
unfoldable pub session_group_key : Session → SummaryGroupBy → Grouped
unfolding multiplexer_summary_key project_summary_key harness_summary_key
session_group_key s SummaryGroupBy.project = project_summary_key s
session_group_key s SummaryGroupBy.harness = harness_summary_key s
session_group_key s SummaryGroupBy.multiplexer_session = multiplexer_summary_key s
session_group_key s (SummaryGroupBy.other g) = multiplexer_summary_key s

abbrev pub empty_summary : SummaryGroupBy → String → String → Summary
empty_summary group_by label key_text = record {
  group_by = group_by;
  group_key = key_text;
  group_label = label;
  project = "";
  project_root = "";
  harness = "";
  multiplexer_kind = no_kind;
  multiplexer_server_id = "";
  multiplexer_session_id = "";
  multiplexer_session_name = "";
  total = 0;
  live = 0;
  gone = 0;
  presence_unknown = 0;
  running = 0;
  waiting = 0;
  idle = 0;
  failed = 0;
  interrupted = 0;
  activity_unknown = 0;
}

abbrev pub of_multiplexer : Session → Summary → Summary
of_multiplexer s m = record m {
  multiplexer_kind = s.location.kind;
  multiplexer_server_id = s.location.server_id;
  multiplexer_session_id = s.location.session_id;
  multiplexer_session_name = s.location.session_name;
}

-- `newSummaryForGroup`.
unfoldable pub new_summary_for_group : Session → SummaryGroupBy → Grouped → Summary
new_summary_for_group s SummaryGroupBy.project (key, label, text) =
    record (empty_summary SummaryGroupBy.project label text) {
      project = label;
      project_root = key.project_root;
    }
new_summary_for_group s SummaryGroupBy.harness (key, label, text) =
    record (empty_summary SummaryGroupBy.harness label text) { harness = s.harness }
new_summary_for_group s SummaryGroupBy.multiplexer_session (key, label, text) =
    of_multiplexer s (empty_summary SummaryGroupBy.multiplexer_session label text)
new_summary_for_group s (SummaryGroupBy.other g) (key, label, text) =
    of_multiplexer s (empty_summary (SummaryGroupBy.other g) label text)

-- The first `switch` of `addSession`.
abbrev pub add_presence : Presence → Summary → Summary
add_presence Presence.live m = record m { live = m.live + 1 }
add_presence Presence.gone m = record m { gone = m.gone + 1 }
add_presence Presence.unknown m = record m { presence_unknown = m.presence_unknown + 1 }
add_presence (Presence.other p) m = record m { presence_unknown = m.presence_unknown + 1 }

-- `addActivity`.
unfoldable pub add_activity : Option Activity → Summary → Summary
add_activity none m = record m { activity_unknown = m.activity_unknown + 1 }
add_activity (some Activity.running) m = record m { running = m.running + 1 }
add_activity (some Activity.waiting) m = record m { waiting = m.waiting + 1 }
add_activity (some Activity.idle) m = record m { idle = m.idle + 1 }
add_activity (some Activity.failed) m = record m { failed = m.failed + 1 }
add_activity (some Activity.interrupted) m = record m { interrupted = m.interrupted + 1 }
add_activity (some Activity.unknown) m = record m { activity_unknown = m.activity_unknown + 1 }
add_activity (some (Activity.other a)) m = record m { activity_unknown = m.activity_unknown + 1 }

-- `addSession`.
unfoldable pub add_session : Session → Summary → Summary
unfolding presence activity add_activity
add_session s m =
    let seen = add_presence (presence s) (record m { total = m.total + 1 }) in
    if is_gone (presence s) then seen else add_activity (activity s) seen

-- `==` on keys.
abbrev pub group_by_eq : SummaryGroupBy → SummaryGroupBy → Bool
group_by_eq SummaryGroupBy.multiplexer_session SummaryGroupBy.multiplexer_session = true
group_by_eq SummaryGroupBy.project SummaryGroupBy.project = true
group_by_eq SummaryGroupBy.harness SummaryGroupBy.harness = true
group_by_eq (SummaryGroupBy.other g) (SummaryGroupBy.other h) = g == h
group_by_eq _ _ = false

unfoldable pub key_eq : SummaryGroupKey → SummaryGroupKey → Bool
unfolding kind_eq
key_eq k j =
    group_by_eq k.group_by j.group_by
    && kind_eq k.kind j.kind
    && k.server == j.server
    && k.id == j.id
    && k.name == j.name
    && k.project_root == j.project_root
    && k.harness == j.harness

-- `byKey` and `order`: the summaries by their keys, in the order in which the keys appear.
abbrev pub Groups : Type 0
Groups = List (SummaryGroupKey × Summary)

-- The body of the loop of `SummariesWithOptions`.
unfoldable pub add_to_group : Session → SummaryGroupBy → Grouped → Groups → Groups
unfolding add_session new_summary_for_group key_eq
add_to_group s group_by (key, label, text) [] =
    (key, add_session s (new_summary_for_group s group_by (key, label, text))) ∷ []
add_to_group s group_by (key, label, text) ((k, m) ∷ groups) =
    let rest = add_to_group s group_by (key, label, text) groups in
    if key_eq k key then (k, add_session s m) ∷ groups else (k, m) ∷ rest

unfoldable pub grouped : List Session → SummaryGroupBy → Groups → Groups
unfolding add_to_group session_group_key
grouped [] group_by groups = groups
grouped (s ∷ sessions) group_by groups =
    grouped sessions group_by (add_to_group s group_by (session_group_key s group_by) groups)
