-- ===== src/History/Spans.antt =====
-- pkg/history/match.go: the ranges of a text that matches cover.
pub mod Merged
use aht.Prelude.{ℕ, Bool, List, [], ◌∷◌, if◌then◌else◌, ltb, leb, nat_eq}

pub record Span : Type 0 where
  pub start : ℕ
  pub end : ℕ

-- `a` goes before `b` or is equal to it: by rising start, then by falling end.
unfoldable pub span_leb : Span → Span → Bool
span_leb a b = if nat_eq a.start b.start then leb b.end a.end else ltb a.start b.start

-- `slices.SortFunc`, by insertion. Spans that compare equal are equal, so every sort gives this.
unfoldable pub insert_span : Span → List Span → List Span
unfolding span_leb
insert_span s [] = s ∷ []
insert_span s (t ∷ rest) =
    let later = insert_span s rest in if span_leb s t then s ∷ t ∷ rest else t ∷ later

unfoldable pub sort_spans : List Span → List Span
unfolding insert_span
sort_spans [] = []
sort_spans (s ∷ rest) = insert_span s (sort_spans rest)

abbrev pub max : ℕ → ℕ → ℕ
max m n = if leb m n then n else m

-- The loop over `found[1:]`, from the last span of `merged` on.
unfoldable pub merge_from : Span → List Span → List Span
merge_from last [] = last ∷ []
merge_from last (s ∷ rest) =
    let joined = merge_from (record last { end = max last.end s.end }) rest in
    let apart = merge_from s rest in if leb s.start last.end then joined else last ∷ apart

unfoldable pub merge_sorted : List Span → List Span
unfolding merge_from
merge_sorted [] = []
merge_sorted (s ∷ rest) = merge_from s rest

-- `spans`, from the spans that the matchers found.
unfoldable pub merged_spans : List Span → List Span
unfolding merge_sorted sort_spans
merged_spans found = merge_sorted (sort_spans found)
