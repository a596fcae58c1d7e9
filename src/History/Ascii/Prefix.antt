-- ===== src/History/Ascii/Prefix.antt =====
-- pkg/history/prefilter.go: the words give the prefix that the bytes give.
use aht.Prelude.{
  ◌≡◌, refl, ap, ◌∙◌, ℕ, zero, suc, ◌+◌, ◌<◌, ◌≤◌, Bool, true, false, ◌&&◌, [], ◌∷◌, ltb, nat_eq,
  arith,
}
use aht.Prelude.Lists.{length, take, drop, All}
use aht.History.Bytes.{Bytes}
use aht.History.Ascii.{has_high_bits, ascii_bytes, ascii_words, ascii_prefix, is_ascii}

abbrev pub IsByte : ℕ → Type 0
IsByte b = b < 256

-- A number of bytes with no high bit is passed by the loop over bytes.
ascii_bytes-take :
    (n : ℕ) (bs : Bytes)
    → All IsByte bs
    → n ≤ length bs
    → has_high_bits (take n bs) ≡ false
    → ascii_bytes bs ≡ n + ascii_bytes (drop n bs)
unfolding All has_high_bits ascii_bytes take drop length
ascii_bytes-take zero bs h l e = omega arith
ascii_bytes-take (suc n) [] h l e = absurd (omega (arith, l))
ascii_bytes-take (suc n) (b ∷ bs) (i, h) l e = ground (arith, i, l, e, ascii_bytes-take n bs h)

drop-All : (n : ℕ) (bs : Bytes) → All IsByte bs → All IsByte (drop n bs)
unfolding All drop
drop-All zero bs h = h
drop-All (suc n) [] h = tt
drop-All (suc n) (b ∷ bs) (i, h) = drop-All n bs h

ascii_words-bytes : (fuel : ℕ) (bs : Bytes) → All IsByte bs → ascii_words fuel bs ≡ ascii_bytes bs
unfolding ascii_words
ascii_words-bytes zero bs h = refl
ascii_words-bytes (suc fuel) bs h =
    ground (arith, ascii_words-bytes fuel (drop 8 bs) (drop-All 8 bs h), ascii_bytes-take 8 bs h)

-- Every byte is ASCII.
unfoldable pub all_ascii : Bytes → Bool
all_ascii [] = true
all_ascii (b ∷ bs) = ltb b 128 && all_ascii bs

ascii_bytes-all : (bs : Bytes) → nat_eq (ascii_bytes bs) (length bs) ≡ all_ascii bs
unfolding ascii_bytes all_ascii length
ascii_bytes-all [] = refl
ascii_bytes-all (b ∷ bs) = ground (arith, ascii_bytes-all bs)

-- On bytes, `asciiPrefix`, which takes eight at a time, gives the number of bytes before the
-- first that is not ASCII, and `isASCII` says whether every byte is.
pub ascii_prefix-bytes :
    (bs : Bytes) → All IsByte bs → (ascii_prefix bs ≡ ascii_bytes bs) × (is_ascii bs ≡ all_ascii bs)
unfolding ascii_prefix is_ascii
ascii_prefix-bytes bs h =
    let same = ascii_words-bytes (length bs) bs h in
    (same, ap (λ n. nat_eq n (length bs)) same ∙ ascii_bytes-all bs)
