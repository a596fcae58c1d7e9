-- ===== src/History/Stream.antt =====
-- pkg/history/prefilter.go: a file is searched in chunks that overlap.
pub mod Found
use aht.Prelude.{
  ℕ, zero, suc, ◌+◌, ◌-◌, ◌*◌, Bool, true, false, not, ◌&&◌, ◌||◌, List, [], ◌∷◌, ◌++◌,
  if◌then◌else◌, ltb, leb, nat_eq, is_some,
}
use aht.Prelude.Lists.{length, take, drop}
use aht.History.Bytes.{Bytes, BytePattern, matches}
use aht.History.Ascii.{ascii_prefix, is_ascii}
use aht.History.Unicode.{Folding, fold, encode_rune, decode_rune}
use aht.History.Prefilter.{bytes_of, index_of, escaped_candidate}

abbrev pub min : ℕ → ℕ → ℕ
min m n = if leb m n then m else n

-- Some byte of the text is below `utf8.RuneSelf`.
unfoldable pub has_ascii : Bytes → Bool
has_ascii [] = false
has_ascii (b ∷ bs) = ltb b 0x80 || has_ascii bs

-- `foldsToASCII`. The map `foldedRunes` remembers what it returned for a rune.
unfoldable pub folds_to_ascii : Folding → ℕ → Bool
unfolding has_ascii fold encode_rune
folds_to_ascii f character = has_ascii (fold f (encode_rune character))

-- `data[max(0, start-margin):min(len(data), end+margin)]`.
abbrev window : BytePattern → Bytes → ℕ → ℕ → Bytes
window p bs start end =
    let margin = length p.text * 4 in
    take (min (length bs) (end + margin) - (start - margin)) (drop (start - margin) bs)

-- The loop of `foldedCandidate`.
unfoldable pub folded_from : ℕ → Folding → BytePattern → Bytes → ℕ → Bool
unfolding ascii_prefix decode_rune folds_to_ascii fold matches length take drop
folded_from zero f p bs offset = false
folded_from (suc fuel) f p bs offset =
    let start = offset + ascii_prefix (drop offset bs) in
    let decoded = decode_rune (drop start bs) in
    let end = start + decoded.1 in
    let onward = folded_from fuel f p bs end in
    if leb (length bs) offset || nat_eq start (length bs)
    then false
    else (folds_to_ascii f decoded.0 && matches p (fold f (window p bs start end))) || onward

-- `foldedCandidate`: every round goes on by a byte at least.
unfoldable pub folded_candidate : Folding → BytePattern → Bytes → Bool
unfolding folded_from
folded_candidate f p bs = folded_from (length bs) f p bs 0

-- `rawCandidate`.
unfoldable pub raw_candidate : Folding → BytePattern → Bytes → Bool → Bool → Bool
unfolding escaped_candidate index_of
raw_candidate f p bs ascii escaped =
    (p.unicode && not ascii)
    || (escaped && escaped_candidate f p bs)
    || (p.slash && is_some (index_of (bytes_of "\\/") bs))

-- The test of a pattern in `markChunk`.
unfoldable pub chunk_candidate : Folding → BytePattern → Bytes → Bool
unfolding raw_candidate matches folded_candidate is_ascii index_of
chunk_candidate f p chunk =
    let escaped = is_some (index_of (bytes_of "\\u") chunk) in
    let ascii = is_ascii chunk in
    raw_candidate f p chunk ascii escaped
    || matches p chunk
    || (not ascii && not p.case_sensitive && not p.unicode && folded_candidate f p chunk)

-- A pattern, and whether it is found; the code has the two in slices of one length.
pub record Searched : Type 0 where
  pub pattern : BytePattern
  pub found : Bool

-- `markChunk`: the marks that it leaves, and the number that it returns.
unfoldable pub mark_chunk : Folding → Bytes → List Searched → List Searched × ℕ
unfolding chunk_candidate
mark_chunk f chunk [] = ([], 0)
mark_chunk f chunk (s ∷ rest) =
    let (marked, matched) = mark_chunk f chunk rest in
    if s.found
    then (s ∷ marked, matched)
    else if chunk_candidate f s.pattern chunk
    then (record s { found = true } ∷ marked, matched + 1)
    else (s ∷ marked, matched)

-- What `input.Read` returns, call after call, until an error; and whether the context is
-- cancelled before the call.
pub data ReadError : Type 0 where
  eof other : ReadError

pub data Input : Type 0 where
  last : (cancelled : Bool) → Bytes → ReadError → Input
  next : (cancelled : Bool) → Bytes → Input → Input

-- `(candidate, nil)` or an error.
pub data Answer : Type 0 where
  candidate : Bool → Answer
  canceled read_failed : Answer

abbrev at_end : ReadError → Answer
at_end eof = candidate false
at_end other = read_failed

-- `chunk[len(chunk)-retained:]`.
unfoldable pub retained_bytes : ℕ → Bytes → Bytes
unfolding length drop
retained_bytes overlap chunk = drop (length chunk - min (length chunk) overlap) chunk

-- The loop of `bytePrefilter.matches`; `kept` is what the buffer retains.
unfoldable pub scan : Folding → ℕ → Input → Bytes → List Searched → ℕ → Answer
unfolding mark_chunk retained_bytes
scan f overlap (last cancelled bytes error) kept searched remaining =
    let (marked, matched) = mark_chunk f (kept ++ bytes) searched in
    if cancelled
    then canceled
    else if nat_eq (remaining - matched) 0
    then candidate true
    else at_end error
scan f overlap (next cancelled bytes input) kept searched remaining =
    let chunk = kept ++ bytes in
    let (marked, matched) = mark_chunk f chunk searched in
    let onward = scan f overlap input (retained_bytes overlap chunk) marked (remaining - matched) in
    if cancelled
    then canceled
    else if nat_eq (remaining - matched) 0
    then candidate true
    else onward

abbrev pub unmarked : List BytePattern → List Searched
unmarked [] = []
unmarked (p ∷ patterns) = record { pattern = p; found = false } ∷ unmarked patterns

-- `bytePrefilter.matches`, on a filter that is not nil.
unfoldable pub matches_input : Folding → List BytePattern → ℕ → Input → Answer
unfolding scan length
matches_input f [] overlap input = candidate true
matches_input f (p ∷ patterns) overlap input =
    scan f overlap input [] (unmarked (p ∷ patterns)) (length (p ∷ patterns))
