-- ===== src/History/Required.antt =====
-- pkg/history/match.go: the literal that every match of a regular expression contains.
pub mod Contained
use aht.Prelude.{ℕ, Bool, true, false, ◌&&◌, List, [], ◌∷◌, if◌then◌else◌, ltb}
use aht.Prelude.Lists.{length}

-- The operators of `regexp/syntax` that the function tells apart; a text is its runes.
mutual
  pub data Regexp : Type 0 where
    op_literal : (fold_case : Bool) → List ℕ → Regexp
    op_capture op_plus : Regexp → Regexp
    op_repeat : (min : ℕ) → Regexp → Regexp
    op_concat : Regexps → Regexp
    -- Classes, anchors, `*`, `?` and `|`.
    op_other : Regexps → Regexp

  pub data Regexps : Type 0 where
    no_more : Regexps
    then_more : Regexp → Regexps → Regexps

-- `requiredLiteral`, and its loop over the parts of a sequence.
unfoldable mutual
  unfolding length

  pub required_literal : Regexp → Bool → List ℕ
  required_literal (op_literal fold_case runes) case_sensitive =
      if case_sensitive && fold_case then [] else runes
  required_literal (op_capture sub) case_sensitive = required_literal sub case_sensitive
  required_literal (op_plus sub) case_sensitive = required_literal sub case_sensitive
  required_literal (op_repeat min sub) case_sensitive =
      let literal = required_literal sub case_sensitive in if ltb 0 min then literal else []
  required_literal (op_concat subs) case_sensitive = longest_literal subs case_sensitive []
  required_literal (op_other subs) case_sensitive = []

  pub longest_literal : Regexps → Bool → List ℕ → List ℕ
  longest_literal no_more case_sensitive longest = longest
  longest_literal (then_more sub subs) case_sensitive longest =
      let literal = required_literal sub case_sensitive in
      longest_literal subs case_sensitive
        (if ltb (length longest) (length literal) then literal else longest)
