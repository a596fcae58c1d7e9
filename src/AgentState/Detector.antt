-- ===== src/AgentState/Detector.antt =====
-- internal/agentstate/detector.go: the decision of a manifest on a screen.
pub mod Agreement
pub mod Winner
use Prim.Native.String.{◌++◌}
use mathlib.Core.List as List
use aht.Prelude.{
  ℤ, pos, int_eq, Bool, true, false, not, ◌&&◌, ◌==◌, Option, some, String, List, [], ◌∷◌,
  if◌then◌else◌,
}
use aht.Prelude.Text.{itoa}
use aht.Prelude.Lists.{length}
use aht.Registry.Model.{Activity, ActivityDetail}
use aht.Registry.Normalize.{normalize_activity, no_activity}
use aht.Registry.Detail.{no_detail}
use aht.AgentState.Model.{
  Tools, Rule, Manifest, Snapshot, Decision, RuleEvidence, CandidateRule, Inspection,
}
use aht.AgentState.Matching.{matches}
use aht.AgentState.Inspecting.{Inspected, inspect}
use aht.AgentState.Sorting.{sorted_rules}

-- `Manifest.initialDecision`.
unfoldable pub initial_decision : Manifest → Decision
initial_decision m = record {
  activity = Activity.unknown;
  detail = no_detail;
  reason = "no_rule_matched";
  rule_id = "";
  manifest_source = m.source;
  manifest_version = m.version;
  warning = m.warning;
  evidence = [];
}

-- `activity, _ := registry.NormalizeActivity(rule.State)`.
abbrev pub stated_activity : Option Activity → Activity
stated_activity Option.none = no_activity
stated_activity (some a) = a

-- `append(decision.Evidence, RuleEvidence{…})`.
unfoldable pub with_evidence : Rule → Bool → Decision → Decision
with_evidence rule matched d = record d {
  evidence = List.◌++◌ d.evidence (record { rule_id = rule.id; matched = matched } ∷ []);
}

-- The fields that a rule which matches sets.
unfoldable pub decided : Tools → Rule → Decision → Decision
unfolding normalize_activity
decided t rule d = record d {
  activity = stated_activity (normalize_activity t.to_lower rule.state);
  reason = "manifest_rule";
  detail = rule.detail;
  rule_id = rule.id;
}

-- The loop of `Evaluate`.
unfoldable pub evaluate_rules : Tools → Snapshot → List Rule → Decision → Decision
unfolding matches with_evidence decided
evaluate_rules t snapshot [] d = d
evaluate_rules t snapshot (rule ∷ rules) d =
    let matched = matches t rule snapshot in
    let seen = with_evidence rule matched d in
    let rest = evaluate_rules t snapshot rules seen in
    if not matched then rest else decided t rule seen

-- `Manifest.Evaluate`.
unfoldable pub evaluate : Tools → Manifest → Snapshot → Decision
unfolding evaluate_rules sorted_rules initial_decision
evaluate t m snapshot = evaluate_rules t snapshot (sorted_rules m.rules) (initial_decision m)

-- The variables of the loop of `Inspect`.
pub record Course : Type 0 where
  pub decision : Decision
  pub winner_priority : ℤ
  pub candidates : List CandidateRule

-- `decision` and `winnerPriority` after a rule.
unfoldable pub course_decision : Tools → Rule → Bool → Decision → Decision
unfolding with_evidence decided
course_decision t rule matched d =
    if d.rule_id == ""
    then (if matched
        then decided t rule (with_evidence rule matched d)
        else with_evidence rule matched d)
    else d

shadowed : Tools → Rule → Course → String
shadowed t rule c =
    if int_eq c.winner_priority rule.priority
    then "matched (shadowed by "
      ++ (t.quote c.decision.rule_id
          ++ (": equal priority " ++ (itoa rule.priority ++ ", earlier in manifest)")))
    else "matched (shadowed by "
      ++ (t.quote c.decision.rule_id
          ++ (": higher priority "
              ++ (itoa c.winner_priority ++ (" > " ++ (itoa rule.priority ++ ")")))))

-- The `switch` over `winner` and `matched`; a shadowed rule leaves the decision as it was.
unfoldable pub candidate_reason : Tools → Rule → Bool → Inspected → Course → String
unfolding shadowed
candidate_reason t rule winner i c =
    if winner
    then "matched"
    else if i.matched
    then shadowed t rule c
    else if not (i.first_failure == "")
    then i.first_failure
    else "did not match"

abbrev pub candidate : Tools → Rule → Bool → Inspected → Course → CandidateRule
candidate t rule winner i c = record {
  id = rule.id;
  state = rule.state;
  priority = rule.priority;
  region = rule.region;
  matched = i.matched;
  winner = winner;
  reason = candidate_reason t rule winner i c;
  matchers = i.matchers;
}

-- The body of the loop of `Inspect`.
unfoldable pub inspect_rule : Tools → Rule → Inspected → Course → Course
unfolding course_decision candidate_reason
inspect_rule t rule i c =
    let winner = i.matched && c.decision.rule_id == "" in
    record {
      decision = course_decision t rule i.matched c.decision;
      winner_priority = if winner then rule.priority else c.winner_priority;
      candidates = List.◌++◌ c.candidates (candidate t rule winner i c ∷ []);
    }

unfoldable pub inspect_rules : Tools → Snapshot → List Rule → Course → Course
unfolding inspect_rule inspect
inspect_rules t snapshot [] c = c
inspect_rules t snapshot (rule ∷ rules) c =
    inspect_rules t snapshot rules (inspect_rule t rule (inspect t rule snapshot) c)

abbrev pub first_course : Manifest → Course
first_course m = record { decision = initial_decision m; winner_priority = pos 0; candidates = [] }

-- `Manifest.Inspect`.
unfoldable pub inspect_manifest : Tools → Manifest → Snapshot → Inspection
unfolding inspect_rules sorted_rules initial_decision
inspect_manifest t m snapshot =
    let c = inspect_rules t snapshot (sorted_rules m.rules) (first_course m) in
    record {
      harness = m.agent;
      manifest_source = m.source;
      manifest_version = m.version;
      warning = m.warning;
      lines_evaluated = length snapshot.lines;
      title = snapshot.title;
      decision = c.decision;
      winning_rule = c.decision.rule_id;
      candidates = c.candidates;
      screen = "";
    }
