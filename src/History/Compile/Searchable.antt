-- ===== src/History/Compile/Searchable.antt =====
-- pkg/history/prefilter.go: the patterns that are compiled are fit for the search.
use aht.Prelude.{
  ◌≡◌, refl, ℕ, zero, suc, ◌+◌, ◌*◌, ◌<◌, ◌≤◌, Bool, true, false, Option, List, [], ◌∷◌, ◌++◌,
  if◌then◌else◌, ltb, nat_eq, arith,
}
use aht.Prelude.Lists.{length, take, All, All-map, length-append}
use aht.History.Bytes.{Bytes, BytePattern, index_byte}
use aht.History.Bytes.Occurs.{occurs}
use aht.History.Unicode.{Folding, decode_rune}
use aht.History.Prefilter.{bytes_of, rare_byte, rare_from, ascii_fragment, frequency}
use aht.History.Stream.{Input, candidate}
use aht.History.Stream.Found.{IsSearchable, Uncancelled, contents, matches_input-finds}
use aht.History.Compile.{
  Matcher, BytePrefilter, json_byte, json_text, pattern_of, with_term, add_terms,
  new_byte_prefilter, filter_matches, max,
}

-- The anchor stays, or is one of the places that are still ahead.
rare_from-bound :
    (index anchor n : ℕ) (rarity : Option ℕ) (text : Bytes)
    → anchor < n
    → index + length text ≤ n
    → rare_from index anchor rarity text < n
unfolding rare_from length
rare_from-bound index anchor n rarity [] h k = h
rare_from-bound index anchor n rarity (value ∷ text) h k =
    let rank = index_byte value frequency in
    ground (
      arith,
      h,
      k,
      rare_from-bound (index + 1) index n rank text (omega (arith, k)) (omega (arith, k)),
      rare_from-bound (index + 1) anchor n rarity text h (omega (arith, k)),
    )

pub rare_byte-bound : (text : Bytes) → 0 < length text → rare_byte text < length text
unfolding rare_byte
rare_byte-bound text h = rare_from-bound 0 0 (length text) _ text h (omega arith)

json_byte-length : (b : ℕ) → 0 < length (json_byte b)
unfolding json_byte length
json_byte-length b = ground arith

decode_rune-width : (bs : Bytes) → 0 < (decode_rune bs).1
unfolding decode_rune
decode_rune-width bs = ground arith

take-length_pos : (n b : ℕ) (bs : Bytes) → 0 < n → 0 < length (take n (b ∷ bs))
unfolding take length
take-length_pos zero b bs h = absurd (omega (arith, h))
take-length_pos (suc n) b bs h = omega arith

append-length_pos : (l m : Bytes) → 0 < length l → 0 < length (l ++ m)
append-length_pos l m h = omega (arith, h, length-append l m)

if-length_pos :
    (b : Bool) (l m : Bytes) → 0 < length l → 0 < length m → 0 < length (if b then l else m)
if-length_pos true l m h k = h
if-length_pos false l m h k = k

json_text-length : (fuel b : ℕ) (bs : Bytes) → 0 < length (json_text (suc fuel) (b ∷ bs))
unfolding json_text
json_text-length fuel b bs =
    if-length_pos (ltb b 0x80) _ _ (append-length_pos (json_byte b) _ (json_byte-length b)) (
      if-length_pos _ _ _ (append-length_pos (bytes_of "\\ufffd") _ (unfold length in omega arith))
        (if-length_pos _ _ _
          (append-length_pos (bytes_of "\\u2028") _ (unfold length in omega arith))
          (if-length_pos _ _ _
            (append-length_pos (bytes_of "\\u2029") _ (unfold length in omega arith))
            (append-length_pos _ _
              (take-length_pos (decode_rune (b ∷ bs)).1 b bs (decode_rune-width (b ∷ bs)))))))

ascii_fragment-length : (text : Bytes) → 0 < length text → 0 < length (ascii_fragment text)
unfolding ascii_fragment
ascii_fragment-length text h = ground (arith, h)

json_text-nonempty : (bs : Bytes) → 0 < length bs → 0 < length (json_text (length bs) bs)
unfolding length
json_text-nonempty [] h = absurd (omega (arith, h))
json_text-nonempty (b ∷ bs) h = json_text-length (length bs) b bs

pattern_of-bound :
    (term : Matcher)
    → nat_eq (length term.literal) 0 ≡ false
    → (pattern_of term).anchor < length (pattern_of term).text
unfolding pattern_of
pattern_of-bound term h =
    let literal = ascii_fragment term.literal in
    rare_byte-bound (json_text (length literal) literal)
      (json_text-nonempty literal (ascii_fragment-length term.literal (ground (arith, h))))

All-snoc :
    (P : BytePattern → Type 0) (l : List BytePattern) (p : BytePattern)
    → All P l
    → P p
    → All P (l ++ (p ∷ []))
unfolding All
All-snoc P [] p h k = (k, tt)
All-snoc P (q ∷ l) p (g, h) k = (g, All-snoc P l p h k)

with_term-IsSearchable :
    (term : Matcher) (filter : BytePrefilter)
    → nat_eq (length term.literal) 0 ≡ false
    → All (IsSearchable filter.overlap) filter.patterns
    → All (IsSearchable (with_term term filter).overlap) (with_term term filter).patterns
with_term-IsSearchable term filter k h =
    let width = length (pattern_of term).text in
    All-snoc (IsSearchable (max filter.overlap (width * 4))) filter.patterns (pattern_of term)
      (All-map (λ p s. (s.0, ground (arith, s.1))) filter.patterns h)
      (pattern_of-bound term k, ground arith)

add_terms-IsSearchable :
    (terms : List Matcher) (filter : BytePrefilter)
    → All (IsSearchable filter.overlap) filter.patterns
    → All (IsSearchable (add_terms terms filter).overlap) (add_terms terms filter).patterns
unfolding add_terms
add_terms-IsSearchable [] filter h = h
add_terms-IsSearchable (term ∷ terms) filter h =
    add_terms-IsSearchable terms
      (if nat_eq (length term.literal) 0 then filter else with_term term filter)
      (go (nat_eq (length term.literal) 0) refl)
  where
    go :
        (b : Bool)
        → nat_eq (length term.literal) 0 ≡ b
        → All
            (IsSearchable (if b then filter else with_term term filter).overlap)
            (if b then filter else with_term term filter).patterns
    go true e = h
    go false e = with_term-IsSearchable term filter e h

All-zip :
    (P Q : BytePattern → Type 0) (l : List BytePattern) → All P l → All Q l → All (λ p. P p × Q p) l
unfolding All
All-zip P Q [] h k = tt
All-zip P Q (p ∷ l) (g, h) (i, k) = ((g, i), All-zip P Q l h k)

-- However a file is cut into the pieces that are read, if the context is never cancelled and the
-- text of every pattern that `newBytePrefilter` makes of the terms stands in the file, letter
-- case aside where it does not matter, then `bytePrefilter.matches` says that the file is a
-- candidate: no such file is left out, also where a text crosses the pieces.
pub filter_matches-finds :
    (f : Folding) (terms : List Matcher) (input : Input)
    → Uncancelled input
    → All (λ p. occurs p (contents input) ≡ true) (new_byte_prefilter terms).patterns
    → filter_matches f (new_byte_prefilter terms) input ≡ candidate true
unfolding filter_matches new_byte_prefilter
filter_matches-finds f terms input open_context h =
    let filter = new_byte_prefilter terms in
    matches_input-finds f filter.overlap filter.patterns input open_context (
      All-zip (IsSearchable filter.overlap) (λ p. occurs p (contents input) ≡ true) filter.patterns
        (add_terms-IsSearchable terms (record { patterns = []; overlap = 12 }) (unfold All in tt))
        h)
