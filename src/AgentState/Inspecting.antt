-- ===== src/AgentState/Inspecting.antt =====
-- internal/agentstate/detector.go: the same with an account of each matcher.
pub mod Agreement
pub mod Reports
use Prim.Native.String.{◌++◌}
use aht.Prelude.{
  pos, Bool, true, false, not, ◌&&◌, ◌||◌, ◌==◌, String, List, [], ◌∷◌, if◌then◌else◌,
}
use aht.Prelude.Text.{itoa}
use aht.Prelude.Strings.{join}
use aht.Prelude.Lists.{nonempty, length}
use mathlib.Core.List as List
use aht.AgentState.Model.{Tools, Regexp, Rule, Snapshot, Outcome, failed, done, MatcherInspection}
use aht.AgentState.Region.{select_region}
use aht.AgentState.Matching.{has_literal, cased}

-- The three values that the function of a matcher returns.
pub record Check : Type 0 where
  pub matcher : MatcherInspection
  pub ok : Bool
  pub fail : String

abbrev pub passed_check : String → String → Check
passed_check name details = record {
  matcher = record { name = name; passed = true; details = details };
  ok = true;
  fail = "";
}

abbrev pub failed_check : String → String → String → Check
failed_check name prefix message = record {
  matcher = record { name = name; passed = false; details = message };
  ok = false;
  fail = prefix ++ message;
}

-- `fmt.Sprintf("<before> %d <after>", len(l))`.
abbrev pub counted : String → List String → String → String
counted before l after = before ++ (itoa (pos (length l)) ++ after)

-- `expressions[i]` at the head of what is left of the list. The list of the compiled expressions
-- has the same length (AgentState/Manifest.antt); out of range, where Go panics, it is "".
abbrev pub expression_at : List String → String
expression_at [] = ""
expression_at (e ∷ es) = e

abbrev pub expressions_after : List String → List String
expressions_after [] = []
expressions_after (e ∷ es) = es

-- Each `inspect…Matcher`, at the list of the rule that it walks.
module _ (t : Tools) (rule : Rule) where
  unfoldable pub inspect_all_matcher : String → List String → Check
  inspect_all_matcher text [] = passed_check "all" (counted "all " rule.all " literals matched")
  inspect_all_matcher text (literal ∷ literals) =
      if not (has_literal t rule.case_sensitive text literal)
      then failed_check "all" "all: " ("missing literal " ++ t.quote literal)
      else inspect_all_matcher text literals

  unfoldable pub inspect_any_matcher : String → List String → Check
  inspect_any_matcher text [] =
      failed_check "any" "any: " (counted "none of " rule.any " literals matched")
  inspect_any_matcher text (literal ∷ literals) =
      if has_literal t rule.case_sensitive text literal
      then passed_check "any" ("matched literal " ++ t.quote literal)
      else inspect_any_matcher text literals

  unfoldable pub inspect_none_matcher : String → List String → Check
  inspect_none_matcher text [] =
      passed_check "none" (counted "none of " rule.none " excluded literals matched")
  inspect_none_matcher text (literal ∷ literals) =
      if has_literal t rule.case_sensitive text literal
      then failed_check "none" "none: " ("matched excluded literal " ++ t.quote literal)
      else inspect_none_matcher text literals

  unfoldable pub inspect_regex_all_matcher : String → List String → List Regexp → Check
  inspect_regex_all_matcher text sources [] =
      passed_check "regex_all" (counted "all " rule.regex_all " regular expressions matched")
  inspect_regex_all_matcher text sources (e ∷ es) =
      if not (e text)
      then failed_check "regex_all" "regex_all: "
          ("regular expression " ++ (t.quote (expression_at sources) ++ " did not match"))
      else inspect_regex_all_matcher text (expressions_after sources) es

  unfoldable pub inspect_regex_any_matcher : String → List String → List Regexp → Check
  inspect_regex_any_matcher text sources [] =
      failed_check "regex_any" "regex_any: "
        (counted "none of " rule.regex_any " regular expressions matched")
  inspect_regex_any_matcher text sources (e ∷ es) =
      if e text
      then passed_check "regex_any"
          ("matched regular expression " ++ t.quote (expression_at sources))
      else inspect_regex_any_matcher text (expressions_after sources) es

  unfoldable pub inspect_regex_none_matcher : String → List String → List Regexp → Check
  inspect_regex_none_matcher text sources [] =
      passed_check "regex_none"
        (counted "none of " rule.regex_none " excluded regular expressions matched")
  inspect_regex_none_matcher text sources (e ∷ es) =
      if e text
      then failed_check "regex_none" "regex_none: "
          ("matched excluded regular expression " ++ t.quote (expression_at sources))
      else inspect_regex_none_matcher text (expressions_after sources) es

  unfoldable pub inspect_title_any_matcher : String → List String → Check
  inspect_title_any_matcher title [] =
      failed_check "title_any" "title_any: "
        (counted "none of " rule.title_any " title literals matched")
  inspect_title_any_matcher title (literal ∷ literals) =
      if has_literal t rule.case_sensitive title literal
      then passed_check "title_any" ("matched title literal " ++ t.quote literal)
      else inspect_title_any_matcher title literals

  unfoldable pub inspect_title_regex_any_matcher : String → List String → List Regexp → Check
  inspect_title_regex_any_matcher title sources [] =
      failed_check "title_regex_any" "title_regex_any: "
        (counted "none of " rule.title_regex_any " title regular expressions matched")
  inspect_title_regex_any_matcher title sources (e ∷ es) =
      if e title
      then passed_check "title_regex_any"
          ("matched title regular expression " ++ t.quote (expression_at sources))
      else inspect_title_regex_any_matcher title (expressions_after sources) es

-- What `appendMatcher` changes.
pub record Progress : Type 0 where
  pub matchers : List MatcherInspection
  pub first_failure : String

-- `appendMatcher`, where the rule has the matcher.
unfoldable pub append_matcher : Bool → Check → Progress → Progress
append_matcher false c p = p
append_matcher true c p = record {
  matchers = List.◌++◌ p.matchers (c.matcher ∷ []);
  first_failure = if not c.ok && p.first_failure == "" then c.fail else p.first_failure;
}

-- `inspectTextMatchers`.
unfoldable pub inspect_text_matchers : Tools → Rule → String → Progress → Progress
unfolding append_matcher inspect_all_matcher inspect_any_matcher inspect_none_matcher
    inspect_regex_all_matcher inspect_regex_any_matcher inspect_regex_none_matcher
inspect_text_matchers t rule text p =
    let p_all = append_matcher (nonempty rule.all) (inspect_all_matcher t rule text rule.all) p in
    let p_any =
      append_matcher (nonempty rule.any) (inspect_any_matcher t rule text rule.any) p_all in
    let p_none =
      append_matcher (nonempty rule.none) (inspect_none_matcher t rule text rule.none) p_any in
    let p_regex_all =
      append_matcher (nonempty rule.regex_all_compiled)
        (inspect_regex_all_matcher t rule text rule.regex_all rule.regex_all_compiled) p_none in
    let p_regex_any =
      append_matcher (nonempty rule.regex_any_compiled)
        (inspect_regex_any_matcher t rule text rule.regex_any rule.regex_any_compiled)
        p_regex_all in
    append_matcher (nonempty rule.regex_none_compiled)
      (inspect_regex_none_matcher t rule text rule.regex_none rule.regex_none_compiled) p_regex_any

-- `inspectTitleMatchers`.
unfoldable pub inspect_title_matchers : Tools → Rule → String → Progress → Progress
unfolding append_matcher inspect_title_any_matcher inspect_title_regex_any_matcher
inspect_title_matchers t rule title p =
    let p_any =
      append_matcher (nonempty rule.title_any)
        (inspect_title_any_matcher t rule title rule.title_any) p in
    append_matcher (nonempty rule.title_regex_any_compiled)
      (inspect_title_regex_any_matcher t rule title rule.title_regex_any
        rule.title_regex_any_compiled)
      p_any

-- What `Rule.inspect` returns.
pub record Inspected : Type 0 where
  pub matched : Bool
  pub matchers : List MatcherInspection
  pub first_failure : String

abbrev region_matcher : Bool → String → MatcherInspection
region_matcher passed details = record { name = "region"; passed = passed; details = details }

-- `Rule.inspect` from the lines of the region on.
unfoldable pub inspect_lines :
    Tools → Rule → Snapshot → List MatcherInspection → List String → Inspected
unfolding inspect_text_matchers inspect_title_matchers cased
inspect_lines t rule snapshot matchers lines =
    let start : Progress = record { matchers = matchers; first_failure = "" } in
    let text = inspect_text_matchers t rule (cased t rule (join "\n" lines)) start in
    let p = inspect_title_matchers t rule (cased t rule snapshot.title) text in
    record {
      matched = p.first_failure == "";
      matchers = p.matchers;
      first_failure = p.first_failure;
    }

-- `inspectRegionMatcher`, and what `Rule.inspect` makes of its four values. Where the region is
-- not configured, `selectRegion` has no error.
unfoldable pub inspect_region : Tools → Rule → Snapshot → Outcome (List String) → Inspected
unfolding inspect_lines
inspect_region t rule snapshot (failed cause) =
    if rule.region == "" || rule.region == "all"
    then inspect_lines t rule snapshot [] []
    else (record {
      matched = false;
      matchers = region_matcher false cause ∷ [];
      first_failure = "region: " ++ cause;
    })
inspect_region t rule snapshot (done lines) =
    if rule.region == "" || rule.region == "all"
    then inspect_lines t rule snapshot [] lines
    else (inspect_lines t rule snapshot
        (region_matcher true (itoa (pos (length lines)) ++ " lines selected") ∷ []) lines)

-- `Rule.inspect`.
unfoldable pub inspect : Tools → Rule → Snapshot → Inspected
unfolding inspect_region select_region
inspect t rule snapshot =
    inspect_region t rule snapshot (select_region t rule.region snapshot.lines)
