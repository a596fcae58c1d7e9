-- ===== src/Examples/Searches.antt =====
-- The search in concrete files and the summaries of concrete sessions.
use aht.Prelude.{◌≡◌, refl, ℕ, suc, some, ◌<◌, true, false, none, List, [], ◌∷◌, ◌++◌, arith}
use aht.Prelude.Lists.{length, All, drop, take}
use aht.Registry.Model.{Session, Liveness, Activity}
use aht.Registry.Values.{zero_session}
use aht.Registry.Summary.{SummaryGroupBy, SummaryGroupKey, blank_key, session_group_key, key_eq}
use aht.Registry.Summary.Sorted.{summaries_with_options}
use aht.Registry.Summary.Counts.{IsBalanced, sum_total, summaries_with_options-IsBalanced}
use aht.Registry.Summary.Members.{members}
use aht.History.Required.{
  Regexp, op_literal, op_capture, op_plus, op_concat, op_other, no_more, then_more,
  required_literal,
}
use aht.History.Required.Contained.{
  Matches, exact, captured, at_least_once, in_sequence, unknown, at_end, followed, IsPart,
  required_literal-IsPart,
}
use aht.History.Spans.{Span, merged_spans}
use aht.History.Spans.Merged.{HasByte, Apart, covered, merged_spans-Apart}
use aht.History.Bytes.{matches_from, Bytes, BytePattern, matches}
use aht.History.Bytes.Occurs.{occurs, matches-occurs}
use aht.History.Ascii.{ascii_prefix, ascii_bytes, is_ascii}
use aht.History.Ascii.Prefix.{IsByte, all_ascii, ascii_prefix-bytes}
use aht.History.Unicode.{Folding}
use aht.History.Prefilter.{bytes_of}
use aht.History.Stream.{Input, last, next, eof, candidate}
use aht.History.Stream.Found.{Uncancelled, contents}
use aht.History.Compile.{Matcher, pattern_of, new_byte_prefilter, filter_matches}
use aht.History.Compile.Searchable.{filter_matches-finds}

abbrev idle_session : Session
idle_session = record zero_session {
  harness = "codex";
  liveness = Liveness.live Activity.idle none;
}

abbrev gone_session : Session
gone_session = record zero_session { harness = "claude"; liveness = Liveness.gone 5 "" none }

abbrev all_sessions : List Session
all_sessions = idle_session ∷ gone_session ∷ idle_session ∷ []

summaries_with_options-IsBalanced_example :
    (sum_total (summaries_with_options (λ s. s) all_sessions SummaryGroupBy.harness)
      ≡ length all_sessions)
    × All IsBalanced (summaries_with_options (λ s. s) all_sessions SummaryGroupBy.harness)
summaries_with_options-IsBalanced_example =
    summaries_with_options-IsBalanced (λ s. s) all_sessions SummaryGroupBy.harness

abbrev codex_key : SummaryGroupKey
codex_key = record (blank_key SummaryGroupBy.harness) { harness = "codex" }

codex_members : members codex_key SummaryGroupBy.harness all_sessions ≡ 2
unfolding members session_group_key key_eq
codex_members = refl

abbrev found_spans : List Span
found_spans =
    record { start = 7; end = 9 }
    ∷ record { start = 0; end = 3 }
    ∷ record { start = 2; end = 5 }
    ∷ record { start = 0; end = 1 }
    ∷ []

merged_run :
    merged_spans found_spans ≡ record { start = 0; end = 5 } ∷ record { start = 7; end = 9 } ∷ []
unfolding merged_spans
merged_run = refl

found_spans-HasByte : All HasByte found_spans
unfolding All
found_spans-HasByte = ground arith

merged_spans-Apart_example :
    Apart (merged_spans found_spans)
    × ((n : ℕ) → covered n (merged_spans found_spans) ≡ covered n found_spans)
merged_spans-Apart_example = merged_spans-Apart found_spans found_spans-HasByte

abbrev folding : Folding
folding = record { to_lower = λ s. s; fold_caser = λ s. s }

abbrev term : Matcher
term = record { literal = bytes_of "fix it"; case_sensitive = false }

anchor_of_x : (pattern_of term).anchor ≡ 2
unfolding pattern_of
anchor_of_x = refl

abbrev upper_input : Input
upper_input = next false (bytes_of "please F") (last false (bytes_of "IX it\n") eof)

-- The literal stands across the two pieces.
upper_occurs :
    All (λ p. occurs p (contents upper_input) ≡ true) (new_byte_prefilter (term ∷ [])).patterns
unfolding All occurs contents new_byte_prefilter length take
upper_occurs = (refl, tt)

not_cancelled : Uncancelled upper_input
unfolding Uncancelled
not_cancelled = (refl, refl)

filter_matches-finds_example :
    filter_matches folding (new_byte_prefilter (term ∷ [])) upper_input ≡ candidate true
filter_matches-finds_example =
    filter_matches-finds folding (term ∷ []) upper_input not_cancelled upper_occurs

absent_literal :
    filter_matches folding (new_byte_prefilter (term ∷ [])) (last false (bytes_of "please fix") eof)
    ≡ candidate false
unfolding filter_matches new_byte_prefilter length take drop
absent_literal = refl

abbrev pattern_ab : BytePattern
pattern_ab = record {
  literal = bytes_of "aab";
  text = bytes_of "aab";
  anchor = 2;
  case_sensitive = true;
  unicode = false;
  slash = false;
}

anchor_inside : pattern_ab.anchor < length pattern_ab.text
unfolding length
anchor_inside = omega arith

matches-occurs_example :
    (matches_from (suc (length (bytes_of "abaaabb"))) pattern_ab (bytes_of "abaaabb")
      ≡ some (occurs pattern_ab (bytes_of "abaaabb")))
    × (matches pattern_ab (bytes_of "abaaabb") ≡ occurs pattern_ab (bytes_of "abaaabb"))
matches-occurs_example = matches-occurs pattern_ab anchor_inside (bytes_of "abaaabb")

abbrev mostly_ascii : Bytes
mostly_ascii = bytes_of "0123456789" ++ (0xc3 ∷ 0x9f ∷ 0x21 ∷ [])

mostly_ascii-IsByte : All IsByte mostly_ascii
unfolding All
mostly_ascii-IsByte = ground arith

ascii_prefix-bytes_example :
    (ascii_prefix mostly_ascii ≡ ascii_bytes mostly_ascii)
    × (is_ascii mostly_ascii ≡ all_ascii mostly_ascii)
ascii_prefix-bytes_example = ascii_prefix-bytes mostly_ascii mostly_ascii-IsByte

-- `(fix)+ ?it`, with the space as a part that may be left out.
abbrev fix_it : Regexp
fix_it = op_concat (
    then_more (op_plus (op_capture (op_literal false (bytes_of "fix"))))
      (then_more (op_other no_more) (then_more (op_literal false (bytes_of "it")) no_more)))

fix_required : required_literal fix_it true ≡ bytes_of "fix"
unfolding required_literal length
fix_required = refl

fix_it-Matches : Matches fix_it (bytes_of "fixfix it")
fix_it-Matches = in_sequence _ _ (
    followed _ _ _ (bytes_of "fixfix") (bytes_of " it")
      (at_least_once _ _ (bytes_of "fix") (bytes_of "fix") (captured _ _ (exact _ _ refl)) refl)
      (followed _ _ _ (bytes_of " ") (bytes_of "it") (unknown _ _)
        (followed _ _ _ (bytes_of "it") [] (exact _ _ refl) (at_end _ refl) refl) refl)
      refl)

required_literal-IsPart_example : IsPart (required_literal fix_it true) (bytes_of "fixfix it")
required_literal-IsPart_example =
    required_literal-IsPart fix_it (bytes_of "fixfix it") fix_it-Matches
