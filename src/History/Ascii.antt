-- ===== src/History/Ascii.antt =====
-- pkg/history/prefilter.go: the bytes of a text that are ASCII, eight at a time.
pub mod Prefix
use aht.Prelude.{
  ℕ, zero, suc, ◌+◌, ◌-◌, ◌*◌, ◌/◌, ◌%◌, Bool, true, false, not, ◌&&◌, ◌||◌, List, [], ◌∷◌,
  if◌then◌else◌, ltb, leb, nat_eq,
}
use aht.Prelude.Lists.{length, take, drop}
use aht.History.Bytes.{Bytes}

-- `b & 0x80`, on one byte of the word.
abbrev pub high_bit : ℕ → ℕ
high_bit b = ((b / 128) % 2) * 128

-- `binary.LittleEndian.Uint64(data[offset:]) & asciiHighBits != 0`, on the bytes of the word.
unfoldable pub has_high_bits : Bytes → Bool
has_high_bits [] = false
has_high_bits (b ∷ bs) = not (nat_eq (high_bit b) 0) || has_high_bits bs

-- The second loop of `asciiPrefix`, from the offset on.
unfoldable pub ascii_bytes : Bytes → ℕ
ascii_bytes [] = 0
ascii_bytes (b ∷ bs) = let more = ascii_bytes bs in if ltb b 128 then more + 1 else 0

-- The first loop, and the second behind it; `rest` is `data[offset:]`.
unfoldable pub ascii_words : ℕ → Bytes → ℕ
unfolding has_high_bits ascii_bytes
ascii_words zero rest = ascii_bytes rest
ascii_words (suc fuel) rest =
    let onward = ascii_words fuel (drop 8 rest) in
    if leb 8 (length rest)
    then (if has_high_bits (take 8 rest) then ascii_bytes rest else 8 + onward)
    else ascii_bytes rest

-- `asciiPrefix`: the first loop takes eight bytes a round.
unfoldable pub ascii_prefix : Bytes → ℕ
unfolding ascii_words
ascii_prefix bs = ascii_words (length bs) bs

-- `isASCII`.
unfoldable pub is_ascii : Bytes → Bool
unfolding ascii_prefix
is_ascii bs = nat_eq (ascii_prefix bs) (length bs)
