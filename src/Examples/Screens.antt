-- ===== src/Examples/Screens.antt =====
-- The detection on concrete screens: tests, and instances of the theorems.
use aht.Prelude.{◌≡◌, refl, pos, true, false, ◌==◌, ◌⊎◌, String, some, List, [], ◌∷◌, arith}
use aht.Prelude.Strings.{contains, join, split, atoi}
use Prim.Native.String
use aht.Prelude.Text.{trim_space, itoa}
use aht.Prelude.Lists.{length, drop, All}
use aht.Registry.Model.{Activity, ActivityDetail}
use aht.Registry.Normalize.{normalize_activity}
use aht.Registry.Detail.{no_detail}
use aht.AgentState.Model.{Tools, Rule, Manifest, Snapshot, done}
use aht.AgentState.Region.{invalid_region, select_region, bound_bottom_lines}
use aht.AgentState.Matching.{matches, has_literal}
use aht.AgentState.Inspecting.{inspect}
use aht.AgentState.Detector.{evaluate, inspect_manifest}
use aht.AgentState.Manifest.{validate, unsupported}
use aht.AgentState.Region.Selected.{Selects, select_region-Selects}
use aht.AgentState.Region.Lines.{free_of, IsLine}
use aht.AgentState.Region.Written.{bound_bottom_lines-written}
use aht.AgentState.Inspecting.Agreement.{inspect-matches}
use aht.AgentState.Sorting.{sorted_rules}
use aht.AgentState.Sorting.Stable.{Descending, of_priority, sorted_rules-of_priority}
use aht.AgentState.Detector.Agreement.{inspect_manifest-evaluate}
use aht.AgentState.Detector.Winner.{IsWinner, evaluate-IsWinner}

-- Unicode's tables and the regular expressions, as far as these screens meet them.
abbrev pub tools : Tools
tools = record {
  to_lower = λ s. s;
  quote = λ s. String.◌++◌ "\"" (String.◌++◌ s "\"");
  compile = λ e. done (λ s. contains s e);
  without_ansi = λ s. s;
}

abbrev pub rule : Rule
rule = record {
  detail = no_detail;
  id = "working";
  state = "working";
  priority = pos 10;
  region = "bottom:3";
  case_sensitive = true;
  all = "esc to interrupt" ∷ [];
  any = [];
  none = "done" ∷ [];
  regex_all = [];
  regex_any = [];
  regex_none = [];
  title_any = [];
  title_regex_any = [];
  regex_all_compiled = [];
  regex_any_compiled = [];
  regex_none_compiled = [];
  title_regex_any_compiled = [];
}

abbrev pub idle_rule : Rule
idle_rule = record rule {
  id = "idle";
  state = "idle";
  priority = pos 1;
  region = "all";
  all = ">" ∷ [];
  none = [];
}

abbrev pub question_rule : Rule
question_rule = record idle_rule {
  id = "question";
  state = "blocked";
  detail = ActivityDetail.question;
  priority = pos 20;
  any = "y/n" ∷ "(y)" ∷ [];
}

abbrev pub manifest : Manifest
manifest = record {
  version = pos 1;
  agent = "codex";
  rules = idle_rule ∷ rule ∷ question_rule ∷ [];
  source = "bundled:codex";
  warning = "";
}

abbrev screen : Snapshot
screen = record { lines = "> fix it" ∷ "thinking" ∷ "esc to interrupt" ∷ " " ∷ []; title = "codex" }

manifest_valid : validate tools manifest ≡ done tt
unfolding validate trim_space normalize_activity length split atoi
manifest_valid = refl

detects_running : (evaluate tools manifest screen).activity ≡ Activity.running
unfolding evaluate select_region trim_space normalize_activity has_literal join split atoi drop
    length
detects_running = refl

explains_shadowed : (inspect_manifest tools manifest screen).winning_rule ≡ "working"
unfolding inspect_manifest select_region trim_space normalize_activity has_literal join split atoi
    drop length itoa
explains_shadowed = refl

inspect-matches_example :
    ((inspect tools question_rule screen).matched ≡ matches tools question_rule screen)
    × (((inspect tools question_rule screen).first_failure == "")
        ≡ matches tools question_rule screen)
inspect-matches_example = inspect-matches tools question_rule screen

sorted_rules-of_priority_example :
    Descending (sorted_rules (idle_rule ∷ rule ∷ question_rule ∷ []))
    × (of_priority (pos 10) (sorted_rules (idle_rule ∷ rule ∷ question_rule ∷ []))
        ≡ of_priority (pos 10) (idle_rule ∷ rule ∷ question_rule ∷ []))
sorted_rules-of_priority_example =
    sorted_rules-of_priority (pos 10) (idle_rule ∷ rule ∷ question_rule ∷ [])

inspect_manifest-evaluate_example :
    (inspect_manifest tools manifest screen).decision ≡ evaluate tools manifest screen
inspect_manifest-evaluate_example = inspect_manifest-evaluate tools manifest screen manifest_valid

evaluate-IsWinner_example :
    (All (λ r. matches tools r screen ≡ false) manifest.rules
      × ((evaluate tools manifest screen).activity ≡ Activity.unknown)
      × ((evaluate tools manifest screen).reason ≡ "no_rule_matched")
      × ((evaluate tools manifest screen).rule_id ≡ ""))
    ⊎ ((r : Rule) × IsWinner tools screen manifest.rules (evaluate tools manifest screen) r
        × (normalize_activity tools.to_lower r.state
            ≡ some (evaluate tools manifest screen).activity)
        × (unsupported (some (evaluate tools manifest screen).activity) ≡ false))
evaluate-IsWinner_example = evaluate-IsWinner tools manifest screen manifest_valid

bottom_selected :
    select_region tools " bottom:2" screen.lines ≡ done ("thinking" ∷ "esc to interrupt" ∷ [])
unfolding select_region trim_space split atoi drop length
bottom_selected = refl

select_region-Selects_example :
    (((lines : List String)
        → select_region tools " bottom:2" lines ≡ invalid_region tools (trim_space " bottom:2"))
      × ((lines out : List String) → ¬ Selects (trim_space " bottom:2") lines out))
    ⊎ ((lines : List String)
        → (out : List String) × (select_region tools " bottom:2" lines ≡ done out)
          × Selects (trim_space " bottom:2") lines out)
select_region-Selects_example = select_region-Selects tools " bottom:2"

two_lines : All IsLine ("> fix it" ∷ "thinking" ∷ [])
unfolding All free_of
two_lines = (refl, (refl, tt))

bound_bottom_lines-written_example :
    bound_bottom_lines (String.◌++◌ (join "\n" ("> fix it" ∷ "thinking" ∷ [])) "\n") (pos 100)
    ≡ "> fix it" ∷ "thinking" ∷ []
bound_bottom_lines-written_example =
    bound_bottom_lines-written "> fix it" ("thinking" ∷ []) 100 two_lines
      (unfold length in omega arith)
