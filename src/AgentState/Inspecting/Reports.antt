-- ===== src/AgentState/Inspecting/Reports.antt =====
-- internal/agentstate/detector.go: what the account of each matcher says.
use aht.Prelude.{
  ◌≡◌, refl, Bool, true, false, not, ◌&&◌, ◌||◌, ◌==◌, String, List, [], ◌∷◌, if◌then◌else◌,
}
use aht.Prelude.Strings.{append-not_blank}
use aht.AgentState.Model.{Tools, Regexp, Rule}
use aht.AgentState.Matching.{
  has_literal, contains_all, contains_any, matches_all_regex, matches_any_regex,
}
use aht.AgentState.Inspecting.{
  Check, inspect_all_matcher, inspect_any_matcher, inspect_none_matcher, inspect_regex_all_matcher,
  inspect_regex_any_matcher, inspect_regex_none_matcher, expressions_after,
  inspect_title_any_matcher, inspect_title_regex_any_matcher, passed_check, failed_check,
}

-- The check says that the test has this result, and has a text for a failure exactly then.
abbrev pub Reports : Bool → Check → Type 0
Reports test c = (c.ok ≡ test) × ((c.fail == "") ≡ test)

-- One round of a loop that leaves at the first element that decides.
found-Reports :
    (test rest : Bool) (name details : String) (c : Check)
    → Reports rest c
    → Reports (test || rest) (if test then passed_check name details else c)
found-Reports true rest name details c h = (refl, refl)
found-Reports false rest name details c h = h

missing-Reports :
    (test rest : Bool) (name prefix message : String) (c : Check)
    → (prefix == "") ≡ false
    → Reports rest c
    → Reports (test && rest) (if not test then failed_check name prefix message else c)
missing-Reports true rest name prefix message c blank h = h
missing-Reports false rest name prefix message c blank h =
    (refl, append-not_blank prefix message blank)

excluded-Reports :
    (test rest : Bool) (name prefix message : String) (c : Check)
    → (prefix == "") ≡ false
    → Reports (not rest) c
    → Reports (not (test || rest)) (if test then failed_check name prefix message else c)
excluded-Reports true rest name prefix message c blank h =
    (refl, append-not_blank prefix message blank)
excluded-Reports false rest name prefix message c blank h = h

failed-Reports :
    (name prefix message : String)
    → (prefix == "") ≡ false
    → Reports false (failed_check name prefix message)
failed-Reports name prefix message blank = (refl, append-not_blank prefix message blank)

module _ (t : Tools) (rule : Rule) where
  pub all-Reports :
      (text : String) (l : List String)
      → Reports (contains_all t text l rule.case_sensitive) (inspect_all_matcher t rule text l)
  unfolding contains_all inspect_all_matcher
  all-Reports text [] = (refl, refl)
  all-Reports text (a ∷ l) =
      missing-Reports (has_literal t rule.case_sensitive text a) _ _ _ _ _ refl (all-Reports text l)

  pub any-Reports :
      (text : String) (l : List String)
      → Reports (contains_any t text l rule.case_sensitive) (inspect_any_matcher t rule text l)
  unfolding contains_any inspect_any_matcher
  any-Reports text [] = failed-Reports "any" _ _ refl
  any-Reports text (a ∷ l) =
      found-Reports (has_literal t rule.case_sensitive text a) _ _ _ _ (any-Reports text l)

  pub none-Reports :
      (text : String) (l : List String)
      → Reports
          (not (contains_any t text l rule.case_sensitive))
          (inspect_none_matcher t rule text l)
  unfolding contains_any inspect_none_matcher
  none-Reports text [] = (refl, refl)
  none-Reports text (a ∷ l) =
      excluded-Reports (has_literal t rule.case_sensitive text a) _ _ _ _ _ refl
        (none-Reports text l)

  pub regex_all-Reports :
      (text : String) (l : List String) (es : List Regexp)
      → Reports (matches_all_regex text es) (inspect_regex_all_matcher t rule text l es)
  unfolding matches_all_regex inspect_regex_all_matcher
  regex_all-Reports text l [] = (refl, refl)
  regex_all-Reports text l (e ∷ es) =
      missing-Reports (e text) _ _ _ _ _ refl (regex_all-Reports text (expressions_after l) es)

  pub regex_any-Reports :
      (text : String) (l : List String) (es : List Regexp)
      → Reports (matches_any_regex text es) (inspect_regex_any_matcher t rule text l es)
  unfolding matches_any_regex inspect_regex_any_matcher
  regex_any-Reports text l [] = failed-Reports "regex_any" _ _ refl
  regex_any-Reports text l (e ∷ es) =
      found-Reports (e text) _ _ _ _ (regex_any-Reports text (expressions_after l) es)

  pub regex_none-Reports :
      (text : String) (l : List String) (es : List Regexp)
      → Reports (not (matches_any_regex text es)) (inspect_regex_none_matcher t rule text l es)
  unfolding matches_any_regex inspect_regex_none_matcher
  regex_none-Reports text l [] = (refl, refl)
  regex_none-Reports text l (e ∷ es) =
      excluded-Reports (e text) _ _ _ _ _ refl (regex_none-Reports text (expressions_after l) es)

  pub title_any-Reports :
      (title : String) (l : List String)
      → Reports
          (contains_any t title l rule.case_sensitive)
          (inspect_title_any_matcher t rule title l)
  unfolding contains_any inspect_title_any_matcher
  title_any-Reports title [] = failed-Reports "title_any" _ _ refl
  title_any-Reports title (a ∷ l) =
      found-Reports (has_literal t rule.case_sensitive title a) _ _ _ _ (title_any-Reports title l)

  pub title_regex_any-Reports :
      (title : String) (l : List String) (es : List Regexp)
      → Reports (matches_any_regex title es) (inspect_title_regex_any_matcher t rule title l es)
  unfolding matches_any_regex inspect_title_regex_any_matcher
  title_regex_any-Reports title l [] = failed-Reports "title_regex_any" _ _ refl
  title_regex_any-Reports title l (e ∷ es) =
      found-Reports (e title) _ _ _ _ (title_regex_any-Reports title (expressions_after l) es)
