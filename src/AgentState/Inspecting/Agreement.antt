-- ===== src/AgentState/Inspecting/Agreement.antt =====
-- internal/agentstate/detector.go: the account of a rule agrees with the test of the rule.
use aht.Prelude.{
  ◌≡◌, refl, Bool, true, false, not, ◌&&◌, ◌||◌, ◌==◌, String, List, [], ◌∷◌, if◌then◌else◌, arith,
  eq_iff, inl, inr, subst, ap, sym, Bool-cases,
}
use aht.Prelude.Strings.{append-not_blank, join}
use aht.Prelude.Text.{trim_space}
use mathlib.Core.Bool.{false≢true}
use aht.Prelude.Lists.{nonempty}
use aht.AgentState.Model.{
  Tools, Regexp, Rule, Snapshot, Outcome, failed, done, is_done, MatcherInspection,
}
use aht.AgentState.Region.{select_region}
use aht.AgentState.Matching.{
  cased, contains_all, contains_any, matches_all_regex, matches_any_regex, matches, matches_region,
  matches_text, matches_title,
}
use aht.AgentState.Inspecting.{
  Inspected, inspect_lines, inspect_region, Check, Progress, append_matcher, inspect_all_matcher,
  inspect_any_matcher, inspect_none_matcher, inspect_text_matchers, inspect_title_matchers,
  inspect_regex_all_matcher, inspect_regex_any_matcher, inspect_regex_none_matcher,
  inspect_title_any_matcher, inspect_title_regex_any_matcher, inspect,
}
use aht.AgentState.Inspecting.Reports.{
  Reports, all-Reports, any-Reports, none-Reports, regex_all-Reports, regex_any-Reports,
  regex_none-Reports, title_any-Reports, title_regex_any-Reports,
}

-- A matcher that the rule has, or whose test holds without it, keeps the failure away exactly
-- when its test holds.
append_matcher-blank :
    (has test : Bool) (c : Check) (p : Progress)
    → Reports test c
    → ((append_matcher has c p).first_failure == "") ≡ (p.first_failure == "") && (not has || test)
unfolding append_matcher
append_matcher-blank false test c p h = ground arith
append_matcher-blank true test c p (o, b) = ground (arith, o, b)

-- A test of every element holds where there is none, so that the matcher may be left out.
module _ (t : Tools) (text : String) where
  all_absent :
      (l : List String) (b : Bool)
      → not (nonempty l) || contains_all t text l b ≡ contains_all t text l b
  unfolding contains_all
  all_absent [] b = refl
  all_absent (a ∷ l) b = refl

  none_absent :
      (l : List String) (b : Bool)
      → not (nonempty l) || not (contains_any t text l b) ≡ not (contains_any t text l b)
  unfolding contains_any
  none_absent [] b = refl
  none_absent (a ∷ l) b = refl

  regex_all_absent :
      (es : List Regexp)
      → not (nonempty es) || matches_all_regex text es ≡ matches_all_regex text es
  unfolding matches_all_regex
  regex_all_absent [] = refl
  regex_all_absent (e ∷ es) = refl

  regex_none_absent :
      (es : List Regexp)
      → not (nonempty es) || not (matches_any_regex text es) ≡ not (matches_any_regex text es)
  unfolding matches_any_regex
  regex_none_absent [] = refl
  regex_none_absent (e ∷ es) = refl

module _ (t : Tools) (rule : Rule) (text : String) where
  -- The six matchers of the text, one after the other.
  inspect_text_matchers-blank :
      (p : Progress)
      → ((inspect_text_matchers t rule text p).first_failure == "")
        ≡ (p.first_failure == "") && matches_text t rule text
  unfolding inspect_text_matchers matches_text
  inspect_text_matchers-blank p =
      let p_all = append_matcher (nonempty rule.all) (inspect_all_matcher t rule text rule.all) p in
      let p_any =
        append_matcher (nonempty rule.any) (inspect_any_matcher t rule text rule.any) p_all in
      let p_none =
        append_matcher (nonempty rule.none) (inspect_none_matcher t rule text rule.none) p_any in
      let p_regex_all =
        append_matcher (nonempty rule.regex_all_compiled)
          (inspect_regex_all_matcher t rule text rule.regex_all rule.regex_all_compiled) p_none in
      let p_regex_any =
        append_matcher (nonempty rule.regex_any_compiled)
          (inspect_regex_any_matcher t rule text rule.regex_any rule.regex_any_compiled)
          p_regex_all in
      ground (
        arith,
        append_matcher-blank (nonempty rule.all) _ (inspect_all_matcher t rule text rule.all) p
            (all-Reports t rule text rule.all),
        append_matcher-blank (nonempty rule.any) _ (inspect_any_matcher t rule text rule.any) p_all
            (any-Reports t rule text rule.any),
        append_matcher-blank (nonempty rule.none) _ (inspect_none_matcher t rule text rule.none)
            p_any (none-Reports t rule text rule.none),
        append_matcher-blank (nonempty rule.regex_all_compiled) _
            (inspect_regex_all_matcher t rule text rule.regex_all rule.regex_all_compiled) p_none
            (regex_all-Reports t rule text rule.regex_all rule.regex_all_compiled),
        append_matcher-blank (nonempty rule.regex_any_compiled) _
            (inspect_regex_any_matcher t rule text rule.regex_any rule.regex_any_compiled)
            p_regex_all (regex_any-Reports t rule text rule.regex_any rule.regex_any_compiled),
        append_matcher-blank (nonempty rule.regex_none_compiled) _
            (inspect_regex_none_matcher t rule text rule.regex_none rule.regex_none_compiled)
            p_regex_any (regex_none-Reports t rule text rule.regex_none rule.regex_none_compiled),
        all_absent t text rule.all rule.case_sensitive,
        none_absent t text rule.none rule.case_sensitive,
        regex_all_absent t text rule.regex_all_compiled,
        regex_none_absent t text rule.regex_none_compiled,
      )

  inspect_title_matchers-blank :
      (p : Progress)
      → ((inspect_title_matchers t rule text p).first_failure == "")
        ≡ (p.first_failure == "") && matches_title t rule text
  unfolding inspect_title_matchers matches_title
  inspect_title_matchers-blank p =
      let p_any =
        append_matcher (nonempty rule.title_any)
          (inspect_title_any_matcher t rule text rule.title_any) p in
      ground (
        arith,
        append_matcher-blank (nonempty rule.title_any) _
            (inspect_title_any_matcher t rule text rule.title_any) p
            (title_any-Reports t rule text rule.title_any),
        append_matcher-blank (nonempty rule.title_regex_any_compiled) _
            (inspect_title_regex_any_matcher t rule text rule.title_regex_any
              rule.title_regex_any_compiled)
            p_any
            (title_regex_any-Reports t rule text rule.title_regex_any
              rule.title_regex_any_compiled),
      )

-- The region of the whole screen, which no account names, is always there.
whole_region :
    (t : Tools) (region : String) (lines : List String)
    → ((region == "") || (region == "all")) ≡ true
    → select_region t region lines ≡ done lines
whole_region t region lines h = elim (Bool-cases (region == "")) [
  | inl e ↦
      subst (λ r. select_region t r lines ≡ done lines) (sym (ground (arith, eq_iff region "")))
        (blank t lines)
  | inr n ↦
      subst (λ r. select_region t r lines ≡ done lines) (sym (ground (arith, eq_iff region "all")))
        (all t lines)
]
  where
    blank : (t : Tools) (lines : List String) → select_region t "" lines ≡ done lines
    blank t lines = unfold select_region trim_space in refl

    all : (t : Tools) (lines : List String) → select_region t "all" lines ≡ done lines
    all t lines = unfold select_region trim_space in refl

-- The account says that the rule matches when `test` does, and why not exactly otherwise.
abbrev Agrees : Inspected → Bool → Type 0
Agrees i test = (i.matched ≡ test) × ((i.first_failure == "") ≡ test)

if-Agrees :
    (b test : Bool) (i j : Inspected)
    → (b ≡ true → Agrees i test)
    → (b ≡ false → Agrees j test)
    → Agrees (if b then i else j) test
if-Agrees true test i j f g = f refl
if-Agrees false test i j f g = g refl

module _ (t : Tools) (rule : Rule) (snapshot : Snapshot) where
  inspect_lines-Agrees :
      (matchers : List MatcherInspection) (lines : List String)
      → Agrees
          (inspect_lines t rule snapshot matchers lines)
          (matches_region t rule snapshot (done lines))
  unfolding inspect_lines matches_region
  inspect_lines-Agrees matchers lines =
      let start : Progress = record { matchers = matchers; first_failure = "" } in
      let text = inspect_text_matchers t rule (cased t rule (join "\n" lines)) start in
      ground (
        arith,
        inspect_text_matchers-blank t rule (cased t rule (join "\n" lines)) start,
        inspect_title_matchers-blank t rule (cased t rule snapshot.title) text,
      )

  inspect_region-Agrees :
      (selected : Outcome (List String))
      → (((rule.region == "") || (rule.region == "all")) ≡ true → is_done selected ≡ true)
      → Agrees (inspect_region t rule snapshot selected) (matches_region t rule snapshot selected)
  unfolding inspect_region
  inspect_region-Agrees (done lines) whole =
      if-Agrees (rule.region == "" || rule.region == "all") _ _ _
        (λ e. inspect_lines-Agrees _ lines) (λ e. inspect_lines-Agrees _ lines)
  inspect_region-Agrees (failed cause) whole =
      if-Agrees (rule.region == "" || rule.region == "all") _ _ _
        (λ e. absurd (false≢true (whole e)))
        (λ e. unfold matches_region in (refl, append-not_blank "region: " cause refl))

  -- The account that `Rule.inspect` gives of a rule says matched exactly when `Rule.matches`
  -- holds, and has a first failure exactly when it does not.
  pub inspect-matches :
      ((inspect t rule snapshot).matched ≡ matches t rule snapshot)
      × (((inspect t rule snapshot).first_failure == "") ≡ matches t rule snapshot)
  unfolding inspect matches
  inspect-matches =
      inspect_region-Agrees (select_region t rule.region snapshot.lines)
        (λ e. ap is_done (whole_region t rule.region snapshot.lines e))
