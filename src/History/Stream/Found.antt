-- ===== src/History/Stream/Found.antt =====
-- pkg/history/prefilter.go: the chunks overlap far enough, so that a file which has the literals is
-- never left out.
use aht.Prelude.{
  ◌≡◌, refl, sym, ap, subst, ◌∙◌, ◌⊎◌, inl, inr, ℕ, zero, suc, ◌+◌, ◌-◌, ◌<◌, ◌≤◌, Bool, true,
  false, List, [], ◌∷◌, ◌++◌, if◌then◌else◌, arith, dec_lt, Bool-cases,
}
use mathlib.Core.List.{append_assoc}
use mathlib.Core.Bool.{true≢false}
use aht.Prelude.Lists.{length, take, drop, All, length-append}
use aht.History.Bytes.{Bytes, BytePattern}
use aht.History.Bytes.Occurs.{occurs, starts_here, matches-occurs}
use aht.History.Unicode.{Folding}
use aht.History.Stream.{
  chunk_candidate, Searched, mark_chunk, Input, last, next, candidate, retained_bytes, scan,
  unmarked, matches_input, min,
}

take-append : (n : ℕ) (x r : Bytes) → n ≤ length x → take n (x ++ r) ≡ take n x
unfolding take length
take-append zero x r h = refl
take-append (suc n) [] r h = absurd (omega (arith, h))
take-append (suc n) (b ∷ x) r h = ap (λ l. b ∷ l) (take-append n x r (omega (arith, h)))

-- What stands at the start of a longer text and fits into the shorter stands there too.
starts_here-append :
    (p : BytePattern) (x r : Bytes)
    → length p.text ≤ length x
    → starts_here p (x ++ r) ≡ starts_here p x
starts_here-append p x r h = ground (arith, h, length-append x r, take-append (length p.text) x r h)

retained-short : (overlap : ℕ) (x : Bytes) → length x ≤ overlap → retained_bytes overlap x ≡ x
unfolding retained_bytes drop
retained-short overlap x h =
    let none_dropped : length x - min (length x) overlap ≡ 0 = ground (arith, h) in
    ap (λ n. drop n x) none_dropped

retained-long :
    (overlap b : ℕ) (x : Bytes)
    → overlap ≤ length x
    → retained_bytes overlap (b ∷ x) ≡ retained_bytes overlap x
unfolding retained_bytes drop length
retained-long overlap b x h =
    let one_more : suc (length x) - min (suc (length x)) overlap
        ≡ suc (length x - min (length x) overlap) =
      ground (arith, h) in
    ap (λ n. drop n (b ∷ x)) one_more

-- A literal that a chunk does not have is still ahead when only the overlap is kept.
retained-occurs :
    (p : BytePattern) (overlap : ℕ)
    → length p.text ≤ overlap
    → (x r : Bytes) → occurs p x ≡ false
    → occurs p (x ++ r) ≡ true
    → occurs p (retained_bytes overlap x ++ r) ≡ true
unfolding occurs length
retained-occurs p overlap fits [] r none here =
    subst (λ l. occurs p (l ++ r) ≡ true) (sym (retained-short overlap [] (omega arith))) here
retained-occurs p overlap fits (b ∷ x) r none here = elim (dec_lt (length x) overlap) [
  | yes short ↦
      subst (λ l. occurs p (l ++ r) ≡ true)
        (sym (retained-short overlap (b ∷ x) (omega (arith, short)))) here
  | no long ↦
      let ahead : occurs p (x ++ r) ≡ true =
        ground (arith, none, here, starts_here-append p (b ∷ x) r (omega (arith, fits, long))) in
      subst (λ l. occurs p (l ++ r) ≡ true) (sym (retained-long overlap b x (omega (arith, long))))
        (retained-occurs p overlap fits x r (ground (arith, none)) ahead)
]

-- The literals that are not found yet.
unfoldable pub unfound : List Searched → ℕ
unfound [] = 0
unfound (s ∷ rest) = (if s.found then 0 else 1) + unfound rest

module _ (f : Folding) where
  mark_chunk-unfound :
      (chunk : Bytes) (searched : List Searched)
      → unfound (mark_chunk f chunk searched).0 + (mark_chunk f chunk searched).1 ≡ unfound searched
  unfolding mark_chunk unfound
  mark_chunk-unfound chunk [] = omega arith
  mark_chunk-unfound chunk (s ∷ rest) = ground (arith, mark_chunk-unfound chunk rest)

-- The anchor is in the text, and the text fits into the overlap.
abbrev pub IsSearchable : ℕ → BytePattern → Type 0
IsSearchable overlap p = (p.anchor < length p.text) × (length p.text ≤ overlap)

-- The literal is found, or it stands in these bytes.
abbrev Ahead : ℕ → Bytes → Searched → Type 0
Ahead overlap bs s =
    IsSearchable overlap s.pattern × ((s.found ≡ true) ⊎ (occurs s.pattern bs ≡ true))

abbrev marks_of : List Searched × ℕ → List Searched
marks_of (marked, matched) = marked

module _ (f : Folding) (overlap : ℕ) where
  occurs-chunk_candidate :
      (p : BytePattern) (chunk : Bytes)
      → IsSearchable overlap p
      → occurs p chunk ≡ true
      → chunk_candidate f p chunk ≡ true
  unfolding chunk_candidate
  occurs-chunk_candidate p chunk (inside, fits) h =
      ground (arith, h, (matches-occurs p inside chunk).1)

  mark_one-Ahead :
      (s : Searched) (chunk r : Bytes)
      → Ahead overlap (chunk ++ r) s
      → s.found ≡ false
      → chunk_candidate f s.pattern chunk ≡ false
      → Ahead overlap (retained_bytes overlap chunk ++ r) s
  mark_one-Ahead s chunk r (searchable, inl found) h k = absurd (true≢false (sym found ∙ h))
  mark_one-Ahead s chunk r (searchable, inr here) h k = (
    searchable,
    inr (
        retained-occurs s.pattern overlap searchable.1 chunk r
          (elim (Bool-cases (occurs s.pattern chunk)) [
            | inl e ↦
                absurd (true≢false (sym (occurs-chunk_candidate s.pattern chunk searchable e) ∙ k))
            | inr e ↦ e
          ])
          here),
  )

  mark_chunk-Ahead :
      (chunk r : Bytes) (searched : List Searched)
      → All (Ahead overlap (chunk ++ r)) searched
      → All (Ahead overlap (retained_bytes overlap chunk ++ r)) (mark_chunk f chunk searched).0
  unfolding mark_chunk All
  mark_chunk-Ahead chunk r [] h = tt
  mark_chunk-Ahead chunk r (s ∷ rest) (a, h) =
      go s.found refl (chunk_candidate f s.pattern chunk) refl (mark_chunk-Ahead chunk r rest h)
    where
      go :
          (found : Bool)
          → s.found ≡ found
          → (marks : Bool) → chunk_candidate f s.pattern chunk ≡ marks
          → All (Ahead overlap (retained_bytes overlap chunk ++ r)) (mark_chunk f chunk rest).0
          → All (Ahead overlap (retained_bytes overlap chunk ++ r)) (
              marks_of (
                if found
                then (s ∷ (mark_chunk f chunk rest).0, (mark_chunk f chunk rest).1)
                else if marks
                then (
                  record s { found = true } ∷ (mark_chunk f chunk rest).0,
                  (mark_chunk f chunk rest).1 + 1,
                )
                else (s ∷ (mark_chunk f chunk rest).0, (mark_chunk f chunk rest).1)))
      go true e marks g ih = ((a.0, inl e), ih)
      go false e true g ih = ((a.0, inl refl), ih)
      go false e false g ih = (mark_one-Ahead s chunk r a e g, ih)

  mark_chunk-none_left :
      (chunk : Bytes) (searched : List Searched)
      → All (Ahead overlap chunk) searched
      → unfound (mark_chunk f chunk searched).0 ≡ 0
  unfolding mark_chunk All unfound
  mark_chunk-none_left chunk [] h = refl
  mark_chunk-none_left chunk (s ∷ rest) (a, h) =
      ground
        (arith, a, occurs-chunk_candidate s.pattern chunk a.0, mark_chunk-none_left chunk rest h)

-- No call of the reader finds the context cancelled.
unfoldable pub Uncancelled : Input → Type 0
Uncancelled (last cancelled bytes error) = cancelled ≡ false
Uncancelled (next cancelled bytes input) = (cancelled ≡ false) × Uncancelled input

-- All that the reader gives.
unfoldable pub contents : Input → Bytes
contents (last cancelled bytes error) = bytes
contents (next cancelled bytes input) = bytes ++ contents input

module _ (f : Folding) (overlap : ℕ) where
  scan-finds :
      (input : Input) (kept : Bytes) (searched : List Searched)
      → Uncancelled input
      → All (Ahead overlap (kept ++ contents input)) searched
      → scan f overlap input kept searched (unfound searched) ≡ candidate true
  unfolding scan Uncancelled contents
  scan-finds (last cancelled bytes error) kept searched open_context h = ground (
    arith,
    open_context,
    mark_chunk-none_left f overlap (kept ++ bytes) searched h,
    mark_chunk-unfound f (kept ++ bytes) searched,
  )
  scan-finds (next cancelled bytes input) kept searched (open_now, open_context) h =
      let chunk = kept ++ bytes in
      let marks = mark_chunk f chunk searched in
      let ahead = mark_chunk-Ahead f overlap chunk (contents input) searched (
        subst (λ l. All (Ahead overlap l) searched) (sym (append_assoc kept bytes (contents input)))
          h) in
      let rest = scan-finds input (retained_bytes overlap chunk) marks.0 open_context ahead in
      let left : unfound searched - marks.1 ≡ unfound marks.0 =
        omega (arith, mark_chunk-unfound f chunk searched) in
      ground (
        arith,
        open_now,
        subst (λ n. scan f overlap input (retained_bytes overlap chunk) marks.0 n ≡ candidate true)
            (sym left) rest,
      )

  unmarked-Ahead :
      (bs : Bytes) (patterns : List BytePattern)
      → All (λ p. IsSearchable overlap p × (occurs p bs ≡ true)) patterns
      → All (Ahead overlap bs) (unmarked patterns)
  unfolding All
  unmarked-Ahead bs [] h = tt
  unmarked-Ahead bs (p ∷ patterns) ((s, o), h) = ((s, inr o), unmarked-Ahead bs patterns h)

  unmarked-unfound : (patterns : List BytePattern) → unfound (unmarked patterns) ≡ length patterns
  unfolding unfound length
  unmarked-unfound [] = refl
  unmarked-unfound (p ∷ patterns) = omega (arith, unmarked-unfound patterns)

  -- about
  pub matches_input-finds :
      (patterns : List BytePattern) (input : Input)
      → Uncancelled input
      → All (λ p. IsSearchable overlap p × (occurs p (contents input) ≡ true)) patterns
      → matches_input f patterns overlap input ≡ candidate true
  unfolding matches_input
  matches_input-finds [] input open_context h = refl
  matches_input-finds (p ∷ patterns) input open_context h =
      subst (λ n. scan f overlap input [] (unmarked (p ∷ patterns)) n ≡ candidate true)
        (unmarked-unfound (p ∷ patterns))
        (scan-finds input [] (unmarked (p ∷ patterns)) open_context
          (unmarked-Ahead (contents input) (p ∷ patterns) h))
