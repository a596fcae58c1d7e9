-- ===== src/History/Required/Contained.antt =====
-- pkg/history/match.go: a match contains the required literal.
use aht.Prelude.{
  ◌≡◌, refl, sym, ap, subst, ◌∙◌, ℕ, Bool, true, false, List, [], ◌++◌, if◌then◌else◌, ltb,
}
use mathlib.Core.List.{append_assoc, append-nil}
use aht.Prelude.Lists.{length}
use aht.History.Required.{
  Regexp, op_literal, op_capture, op_plus, op_repeat, op_concat, op_other, Regexps, no_more,
  then_more, required_literal, longest_literal,
}

-- Every text that an expression matches is in this relation, and perhaps more: what a letter
-- matches in either case, the further rounds of a repetition and the operators that the function
-- does not look into are left open.
mutual
  pub data Matches : Regexp → List ℕ → Type 0 where
    exact : (runes w : List ℕ) → w ≡ runes → Matches (op_literal false runes) w
    in_either_case : (runes w : List ℕ) → Matches (op_literal true runes) w
    captured : (r : Regexp) (w : List ℕ) → Matches r w → Matches (op_capture r) w
    at_least_once :
        (r : Regexp) (w first rest : List ℕ)
        → Matches r first
        → w ≡ first ++ rest
        → Matches (op_plus r) w
    first_round :
        (min : ℕ) (r : Regexp) (w first rest : List ℕ)
        → Matches r first
        → w ≡ first ++ rest
        → Matches (op_repeat min r) w
    no_round : (min : ℕ) (r : Regexp) (w : List ℕ) → min ≡ 0 → Matches (op_repeat min r) w
    in_sequence : (rs : Regexps) (w : List ℕ) → MatchesAll rs w → Matches (op_concat rs) w
    unknown : (rs : Regexps) (w : List ℕ) → Matches (op_other rs) w

  pub data MatchesAll : Regexps → List ℕ → Type 0 where
    at_end : (w : List ℕ) → w ≡ [] → MatchesAll no_more w
    followed :
        (r : Regexp) (rs : Regexps) (w first rest : List ℕ)
        → Matches r first
        → MatchesAll rs rest
        → w ≡ first ++ rest
        → MatchesAll (then_more r rs) w

-- The part stands in the text.
abbrev pub IsPart : List ℕ → List ℕ → Type 0
IsPart part w = (before : List ℕ) × ((after : List ℕ) × (w ≡ before ++ (part ++ after)))

nothing-IsPart : (w : List ℕ) → IsPart [] w
nothing-IsPart w = ([], (w, refl))

IsPart-append :
    (part first rest before w : List ℕ)
    → IsPart part first
    → w ≡ before ++ (first ++ rest)
    → IsPart part w
IsPart-append part first rest before w (b, (a, e)) f =
    (before ++ b, (a ++ rest, f ∙ ap (λ x. before ++ (x ++ rest)) e ∙ simp append_assoc refl))

if-IsPart : (b : Bool) (l m w : List ℕ) → IsPart l w → IsPart m w → IsPart (if b then l else m) w
if-IsPart true l m w h k = h
if-IsPart false l m w h k = k

mutual
  unfolding required_literal longest_literal

  required-IsPart : (r : Regexp) (w : List ℕ) → Matches r w → IsPart (required_literal r true) w
  required-IsPart _ w (exact runes _ e) = ([], ([], e ∙ sym (append-nil runes)))
  required-IsPart _ w (in_either_case runes _) = nothing-IsPart w
  required-IsPart _ w (captured r _ m) = required-IsPart r w m
  required-IsPart _ w (at_least_once r _ first rest m e) =
      IsPart-append (required_literal r true) first rest [] w (required-IsPart r first m) e
  required-IsPart _ w (first_round min r _ first rest m e) =
      if-IsPart (ltb 0 min) (required_literal r true) [] w
        (IsPart-append (required_literal r true) first rest [] w (required-IsPart r first m) e)
        (nothing-IsPart w)
  required-IsPart _ w (no_round min r _ e) =
      subst (λ n. IsPart (if ltb 0 n then required_literal r true else []) w) (sym e)
        (nothing-IsPart w)
  required-IsPart _ w (in_sequence rs _ m) = longest-IsPart rs w w [] [] m refl (nothing-IsPart w)
  required-IsPart _ w (unknown rs _) = nothing-IsPart w

  longest-IsPart :
      (rs : Regexps) (w whole before longest : List ℕ)
      → MatchesAll rs w
      → whole ≡ before ++ w
      → IsPart longest whole
      → IsPart (longest_literal rs true longest) whole
  longest-IsPart _ w whole before longest (at_end _ e) f p = p
  longest-IsPart _ w whole before longest (followed r rs _ first rest m ms e) f p =
      let literal = required_literal r true in
      let here = f ∙ ap (λ x. before ++ x) e in
      longest-IsPart rs rest whole (before ++ first)
        (if ltb (length longest) (length literal) then literal else longest) ms
        (here ∙ sym (append_assoc before first rest))
        (if-IsPart (ltb (length longest) (length literal)) literal longest whole
          (IsPart-append literal first rest before whole (required-IsPart r first m) here) p)

-- In a search that tells letter cases apart, every text that a regular expression matches
-- contains the literal that `requiredLiteral` gives for it, whatever its repetitions, classes,
-- anchors and alternatives match.
pub required_literal-IsPart :
    (r : Regexp) (w : List ℕ) → Matches r w → IsPart (required_literal r true) w
required_literal-IsPart r w m = required-IsPart r w m
