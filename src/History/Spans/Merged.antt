-- ===== src/History/Spans/Merged.antt =====
-- pkg/history/match.go: the merged ranges are apart, in order, and cover what was found.
use aht.Prelude.{
  ◌≡◌, refl, ◌∙◌, ℕ, ◌≤◌, ◌<◌, Bool, true, false, ◌&&◌, ◌||◌, List, [], ◌∷◌, if◌then◌else◌, ltb,
  leb, arith,
}
use aht.Prelude.Lists.{All, All-map}
use aht.History.Spans.{
  Span, span_leb, insert_span, sort_spans, max, merge_from, merge_sorted, merged_spans,
}

-- The place is in a range of the list.
unfoldable pub covered : ℕ → List Span → Bool
covered n [] = false
covered n (s ∷ rest) = (leb s.start n && ltb n s.end) || covered n rest

-- Every range has a byte, and ends before the next begins.
unfoldable pub Apart : List Span → Type 0
Apart [] = Unit
Apart (s ∷ []) = s.start < s.end
Apart (s ∷ t ∷ rest) = (s.start < s.end) × (s.end < t.start) × Apart (t ∷ rest)

-- The starts do not fall.
unfoldable pub Sorted : List Span → Type 0
Sorted [] = Unit
Sorted (s ∷ rest) = All (λ t. s.start ≤ t.start) rest × Sorted rest

abbrev pub HasByte : Span → Type 0
HasByte s = s.start < s.end

insert_span-covered :
    (n : ℕ) (s : Span) (l : List Span) → covered n (insert_span s l) ≡ covered n (s ∷ l)
unfolding covered insert_span
insert_span-covered n s [] = refl
insert_span-covered n s (t ∷ l) = ground (arith, insert_span-covered n s l)

sort_spans-covered : (n : ℕ) (l : List Span) → covered n (sort_spans l) ≡ covered n l
unfolding covered sort_spans
sort_spans-covered n [] = refl
sort_spans-covered n (s ∷ l) =
    ground (arith, insert_span-covered n s (sort_spans l), sort_spans-covered n l)

insert_span-All :
    (P : Span → Type 0) (s : Span) (l : List Span) → P s → All P l → All P (insert_span s l)
unfolding All insert_span
insert_span-All P s [] h k = (h, tt)
insert_span-All P s (t ∷ l) h (i, k) =
    elim (span_leb s t) as (λ b. All P (if b then s ∷ t ∷ l else t ∷ insert_span s l)) [
      | true ↦ (h, (i, k))
      | false ↦ (i, insert_span-All P s l h k)
    ]

sort_spans-All : (P : Span → Type 0) (l : List Span) → All P l → All P (sort_spans l)
unfolding All sort_spans
sort_spans-All P [] h = tt
sort_spans-All P (s ∷ l) (i, h) = insert_span-All P s (sort_spans l) i (sort_spans-All P l h)

insert_span-Sorted : (s : Span) (l : List Span) → Sorted l → Sorted (insert_span s l)
unfolding Sorted insert_span All
insert_span-Sorted s [] h = (tt, tt)
insert_span-Sorted s (t ∷ l) (below, h) = go (span_leb s t) refl (insert_span-Sorted s l h)
  where
    go :
        (b : Bool)
        → span_leb s t ≡ b
        → Sorted (insert_span s l)
        → Sorted (if b then s ∷ t ∷ l else t ∷ insert_span s l)
    go true e ih =
        let first : s.start ≤ t.start = unfold span_leb in ground (arith, e) in
        ((first, All-map (λ u k. omega (arith, first, k)) l below), (below, h))
    go false e ih =
        let first : t.start ≤ s.start = unfold span_leb in ground (arith, e) in
        (insert_span-All (λ u. t.start ≤ u.start) s l first below, ih)

sort_spans-Sorted : (l : List Span) → Sorted (sort_spans l)
unfolding Sorted sort_spans
sort_spans-Sorted [] = tt
sort_spans-Sorted (s ∷ l) = insert_span-Sorted s (sort_spans l) (sort_spans-Sorted l)

merge_from-covered :
    (n : ℕ) (last : Span) (l : List Span)
    → HasByte last
    → All HasByte l
    → Sorted (last ∷ l)
    → covered n (merge_from last l) ≡ covered n (last ∷ l)
unfolding covered merge_from All Sorted
merge_from-covered n last [] h hs s = refl
merge_from-covered n last (t ∷ l) h (k, hs) ((f, fs), (g, s)) =
    let joined : Span = record last { end = max last.end t.end } in
    ground (
      arith,
      f,
      h,
      k,
      merge_from-covered n joined l (ground (arith, h)) hs (fs, s),
      merge_from-covered n t l k hs (g, s),
    )

-- The first merged range starts where the first range starts.
merge_from-cons :
    (s last : Span) (l : List Span)
    → HasByte s
    → s.end < last.start
    → Apart (merge_from last l)
    → Apart (s ∷ merge_from last l)
unfolding merge_from Apart
merge_from-cons s last [] h k a = (h, k, a)
merge_from-cons s last (t ∷ l) h k a =
    go (leb t.start last.end) (merge_from-cons s (record last { end = max last.end t.end }) l h k) a
  where
    go :
        (b : Bool)
        → (Apart (merge_from (record last { end = max last.end t.end }) l)
            → Apart (s ∷ merge_from (record last { end = max last.end t.end }) l))
        → Apart (
            if b
            then merge_from (record last { end = max last.end t.end }) l
            else last ∷ merge_from t l)
        → Apart (
            s
            ∷ (if b
                then merge_from (record last { end = max last.end t.end }) l
                else last ∷ merge_from t l))
    go true ih a = ih a
    go false ih a = (h, k, a)

merge_from-Apart :
    (last : Span) (l : List Span) → HasByte last → All HasByte l → Apart (merge_from last l)
unfolding merge_from Apart All
merge_from-Apart last [] h hs = h
merge_from-Apart last (t ∷ l) h (k, hs) =
    go (leb t.start last.end) refl
      (merge_from-Apart (record last { end = max last.end t.end }) l (ground (arith, h)) hs)
      (merge_from-Apart t l k hs)
  where
    go :
        (b : Bool)
        → leb t.start last.end ≡ b
        → Apart (merge_from (record last { end = max last.end t.end }) l)
        → Apart (merge_from t l)
        → Apart (
            if b
            then merge_from (record last { end = max last.end t.end }) l
            else last ∷ merge_from t l)
    go true e j a = j
    go false e j a = merge_from-cons last t l h (ground (arith, e)) a

-- Where every range that the matchers found has a byte, the ranges that `spans` returns have a
-- byte each, each ends before the next begins, and together they cover exactly the bytes that the
-- ranges found cover.
pub merged_spans-Apart :
    (found : List Span)
    → All HasByte found
    → Apart (merged_spans found) × ((n : ℕ) → covered n (merged_spans found) ≡ covered n found)
unfolding merged_spans
merged_spans-Apart found h =
    go (sort_spans found) (sort_spans-All HasByte found h) (sort_spans-Sorted found)
      (λ n. sort_spans-covered n found)
  where
    go :
        (l : List Span)
        → All HasByte l
        → Sorted l
        → ((n : ℕ) → covered n l ≡ covered n found)
        → Apart (merge_sorted l) × ((n : ℕ) → covered n (merge_sorted l) ≡ covered n found)
    go [] a s c = unfold merge_sorted Apart in (tt, c)
    go (s ∷ l) a sorted c =
        unfold merge_sorted All in
        (merge_from-Apart s l a.0 a.1, λ n. merge_from-covered n s l a.0 a.1 sorted ∙ c n)
