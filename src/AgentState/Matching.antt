-- ===== src/AgentState/Matching.antt =====
-- internal/agentstate/detector.go: whether a rule matches a screen.
use aht.Prelude.{Bool, true, false, not, ◌&&◌, ◌||◌, String, List, [], ◌∷◌, if◌then◌else◌}
use aht.Prelude.Strings.{contains, join}
use aht.Prelude.Lists.{nonempty}
use aht.AgentState.Model.{Tools, Regexp, Rule, Snapshot, Outcome, failed, done}
use aht.AgentState.Region.{select_region}

-- `normalizedLiteral`.
unfoldable pub normalized_literal : Tools → String → Bool → String
normalized_literal t value case_sensitive = if case_sensitive then value else t.to_lower value

-- `strings.Contains(text, normalizedLiteral(literal, rule.CaseSensitive))`.
unfoldable pub has_literal : Tools → Bool → String → String → Bool
unfolding normalized_literal contains
has_literal t case_sensitive text literal =
    contains text (normalized_literal t literal case_sensitive)

-- `containsAny`.
unfoldable pub contains_any : Tools → String → List String → Bool → Bool
contains_any t text [] case_sensitive = false
contains_any t text (value ∷ values) case_sensitive =
    has_literal t case_sensitive text value || contains_any t text values case_sensitive

-- The loop over `rule.All` in `matchesText`.
unfoldable pub contains_all : Tools → String → List String → Bool → Bool
contains_all t text [] case_sensitive = true
contains_all t text (value ∷ values) case_sensitive =
    has_literal t case_sensitive text value && contains_all t text values case_sensitive

-- `matchesAllRegex`.
unfoldable pub matches_all_regex : String → List Regexp → Bool
matches_all_regex text [] = true
matches_all_regex text (e ∷ es) = e text && matches_all_regex text es

-- `matchesAnyRegex`.
unfoldable pub matches_any_regex : String → List Regexp → Bool
matches_any_regex text [] = false
matches_any_regex text (e ∷ es) = e text || matches_any_regex text es

-- `matchesText`.
unfoldable pub matches_text : Tools → Rule → String → Bool
unfolding contains_all contains_any matches_all_regex matches_any_regex
matches_text t rule text =
    if not (contains_all t text rule.all rule.case_sensitive)
    then false
    else if nonempty rule.any && not (contains_any t text rule.any rule.case_sensitive)
    then false
    else if contains_any t text rule.none rule.case_sensitive
        || not (matches_all_regex text rule.regex_all_compiled)
    then false
    else if nonempty rule.regex_any_compiled && not (matches_any_regex text rule.regex_any_compiled)
    then false
    else not (matches_any_regex text rule.regex_none_compiled)

-- `matchesTitle`.
unfoldable pub matches_title : Tools → Rule → String → Bool
unfolding contains_any matches_any_regex
matches_title t rule title =
    if nonempty rule.title_any && not (contains_any t title rule.title_any rule.case_sensitive)
    then false
    else not (nonempty rule.title_regex_any_compiled)
      || matches_any_regex title rule.title_regex_any_compiled

-- `if !rule.CaseSensitive { text = strings.ToLower(text) }`.
unfoldable pub cased : Tools → Rule → String → String
cased t rule text = if not rule.case_sensitive then t.to_lower text else text

unfoldable pub matches_region : Tools → Rule → Snapshot → Outcome (List String) → Bool
unfolding matches_text matches_title cased
matches_region t rule snapshot (failed cause) = false
matches_region t rule snapshot (done region) =
    matches_text t rule (cased t rule (join "\n" region))
    && matches_title t rule (cased t rule snapshot.title)

-- `Rule.matches`.
unfoldable pub matches : Tools → Rule → Snapshot → Bool
unfolding matches_region
matches t rule snapshot =
    matches_region t rule snapshot (select_region t rule.region snapshot.lines)
