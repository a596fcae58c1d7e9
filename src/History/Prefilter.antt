-- ===== src/History/Prefilter.antt =====
-- pkg/history/prefilter.go: the choice of the bytes that a file is searched for, and the pieces of
-- a file that may hold them in another spelling.
use Prim.Native.Char.{code}
use aht.Prelude.{
  ℕ, zero, suc, ◌+◌, Bool, true, false, not, ◌&&◌, ◌||◌, Option, none, some, String, [], ◌∷◌, ◌++◌,
  if◌then◌else◌, ltb, leb, nat_eq, is_some,
}
use aht.Prelude.Lists.{length, take, drop}
use aht.History.Bytes.{Bytes, BytePattern, index_byte, shifted}
use aht.History.Unicode.{
  Folding, fold, encode_rune, rune_error, is_surrogate, decode_surrogates, parse_hex,
}

-- The bytes of an ASCII text.
abbrev pub bytes_of : String → Bytes
bytes_of String.[] = []
bytes_of (String.◌∷◌ c s) = code c ∷ bytes_of s

-- The letters from the rarest on.
abbrev pub frequency : Bytes
frequency = bytes_of "zqxjkvbpygfwmucldrhsnioate \\\""

-- `rank < rarity`, with `none` for the rank -1.
abbrev pub rarer : Option ℕ → Option ℕ → Bool
rarer none (some rarity) = true
rarer (some rank) (some rarity) = ltb rank rarity
rarer _ none = false

-- The loop of `rareByte`.
unfoldable pub rare_from : ℕ → ℕ → Option ℕ → Bytes → ℕ
unfolding index_byte
rare_from index anchor rarity [] = anchor
rare_from index anchor rarity (value ∷ text) =
    let rank = index_byte value frequency in
    let this = rare_from (index + 1) index rank text in
    let earlier = rare_from (index + 1) anchor rarity text in
    if rarer rank rarity then this else earlier

-- `rareByte`.
unfoldable pub rare_byte : Bytes → ℕ
unfolding rare_from length
rare_byte text = rare_from 0 0 (some (length frequency)) text

-- The loop of `asciiFragment`; `run` is `text[start:index]`.
unfoldable pub fragment_from : Bytes → Bytes → Bytes → Bytes
unfolding length
fragment_from longest run [] = if ltb (length longest) (length run) then run else longest
fragment_from longest run (b ∷ text) =
    let onward = fragment_from longest (run ++ (b ∷ [])) text in
    let next = fragment_from (if ltb (length longest) (length run) then run else longest) [] text in
    if ltb b 0x80 then onward else next

-- `asciiFragment`.
unfoldable pub ascii_fragment : Bytes → Bytes
unfolding fragment_from
ascii_fragment text =
    let longest = fragment_from [] [] text in if nat_eq (length longest) 0 then text else longest

-- `bytes.Contains`.
unfoldable pub starts_with : Bytes → Bytes → Bool
starts_with bs [] = true
starts_with [] (x ∷ part) = false
starts_with (b ∷ bs) (x ∷ part) = nat_eq b x && starts_with bs part

unfoldable pub index_of : Bytes → Bytes → Option ℕ
unfolding starts_with
index_of part [] = if starts_with [] part then some 0 else none
index_of part (b ∷ bs) = if starts_with (b ∷ bs) part then some 0 else shifted (index_of part bs)

abbrev escape : Bytes
escape = bytes_of "\\u"

-- `escapedRune`, the function: at an escape of six bytes.
unfoldable pub escaped_rune : Bytes → ℕ × ℕ
unfolding parse_hex decode_surrogates drop take length starts_with
escaped_rune data_bytes = elim (parse_hex (drop 2 data_bytes)) [
  | none ↦ (rune_error, 6)
  | some first ↦
      if not (is_surrogate first)
        || ltb (length data_bytes) 12
        || not (starts_with (drop 6 data_bytes) escape)
      then (first, 6)
      else (elim (parse_hex (drop 8 data_bytes)) [
        | none ↦ (first, 6)
        | some second ↦
            let decoded = decode_surrogates first second in
            if nat_eq decoded rune_error then (first, 6) else (decoded, 12)
      ])
]

-- An ASCII letter of the list is one of the literal's.
unfoldable pub any_letter_in : Bytes → Bytes → Bool
unfolding index_byte
any_letter_in [] literal = false
any_letter_in (letter ∷ letters) literal =
    (ltb letter 0x80 && is_some (index_byte letter literal)) || any_letter_in letters literal

-- `bytePattern.escapedRune`. The runes below `utf8.RuneSelf` of a text are its bytes below 0x80.
unfoldable pub pattern_escaped_rune : Folding → BytePattern → ℕ → Bool
unfolding any_letter_in fold encode_rune
pattern_escaped_rune f p value =
    if p.case_sensitive
    then ltb value 0x80 && is_some (index_byte value p.literal)
    else any_letter_in (fold f (encode_rune value)) p.literal

-- The loop of `escapedCandidate`; `rest` is `data[start:]`.
unfoldable pub escaped_from : ℕ → Folding → BytePattern → Bytes → Bool
unfolding index_of escaped_rune pattern_escaped_rune length drop
escaped_from zero f p rest = false
escaped_from (suc fuel) f p rest =
    if leb 6 (length rest)
    then (elim (index_of escape rest) [
      | none ↦ false
      | some offset ↦
          let here = drop offset rest in
          let found = escaped_rune here in
          let onward = escaped_from fuel f p (drop found.1 here) in
          if ltb (length here) 6 then false else pattern_escaped_rune f p found.0 || onward
    ])
    else false

-- `escapedCandidate`: every round goes on by six bytes at least.
unfoldable pub escaped_candidate : Folding → BytePattern → Bytes → Bool
unfolding escaped_from
escaped_candidate f p bs = if p.unicode then true else escaped_from (suc (length bs)) f p bs
