-- ===== src/History/Unicode.antt =====
-- What pkg/history uses of Go's `unicode/utf8` and `unicode/utf16`; and pkg/history/fold.go.
use aht.Prelude.{
  ◌≡◌, refl, ℕ, ◌+◌, ◌-◌, ◌*◌, ◌/◌, ◌%◌, Bool, ◌&&◌, ◌||◌, Option, none, some, [], ◌∷◌,
  if◌then◌else◌, ltb, leb, nat_eq,
}
use aht.History.Bytes.{Bytes, byte_at}
use aht.History.Ascii.{is_ascii}

-- What Unicode's tables decide: `strings.ToLower`, and the caser of golang.org/x/text/cases.
pub record Folding : Type 0 where
  pub to_lower : Bytes → Bytes
  pub fold_caser : Bytes → Bytes

-- `fold`.
unfoldable pub fold : Folding → Bytes → Bytes
unfolding is_ascii
fold f text = let lower = f.to_lower text in if is_ascii lower then lower else f.fold_caser lower

-- `utf8.RuneError`.
abbrev pub rune_error : ℕ
rune_error = 0xfffd

abbrev pub between : ℕ → ℕ → ℕ → Bool
between lo hi b = leb lo b && leb b hi

abbrev encode_three : ℕ → Bytes
encode_three r = (0xe0 + r / 4096) ∷ (0x80 + (r / 64) % 64) ∷ (0x80 + r % 64) ∷ []

-- `string(r)`, where a surrogate or a number too large gives that of the error.
unfoldable pub encode_rune : ℕ → Bytes
encode_rune r =
    if ltb r 0x80
    then r ∷ []
    else if ltb r 0x800
    then (0xc0 + r / 64) ∷ (0x80 + r % 64) ∷ []
    else if between 0xd800 0xdfff r || ltb 0x10ffff r
    then encode_three rune_error
    else if ltb r 0x10000
    then encode_three r
    else (0xf0 + r / 262144)
      ∷ (0x80 + (r / 4096) % 64)
      ∷ (0x80 + (r / 64) % 64)
      ∷ (0x80 + r % 64)
      ∷ []

abbrev is_tail : ℕ → Bool
is_tail b = between 0x80 0xbf b

-- The second byte that may follow the first.
abbrev second_byte : ℕ → ℕ → Bool
second_byte first b =
    if nat_eq first 0xe0
    then between 0xa0 0xbf b
    else if nat_eq first 0xed
    then between 0x80 0x9f b
    else if nat_eq first 0xf0
    then between 0x90 0xbf b
    else if nat_eq first 0xf4
    then between 0x80 0x8f b
    else is_tail b

-- `utf8.DecodeRune`, on some bytes; a missing byte is read as 0, which follows no other.
unfoldable pub decode_rune : Bytes → ℕ × ℕ
unfolding byte_at
decode_rune bs =
    let a = byte_at 0 bs in
    let b = byte_at 1 bs in
    let c = byte_at 2 bs in
    let d = byte_at 3 bs in
    if ltb a 0x80
    then (a, 1)
    else if between 0xc2 0xdf a && is_tail b
    then ((a - 0xc0) * 64 + (b - 0x80), 2)
    else if between 0xe0 0xef a && second_byte a b && is_tail c
    then ((a - 0xe0) * 4096 + (b - 0x80) * 64 + (c - 0x80), 3)
    else if between 0xf0 0xf4 a && second_byte a b && is_tail c && is_tail d
    then ((a - 0xf0) * 262144 + (b - 0x80) * 4096 + (c - 0x80) * 64 + (d - 0x80), 4)
    else (rune_error, 1)

-- `utf16.IsSurrogate`.
abbrev pub is_surrogate : ℕ → Bool
is_surrogate r = between 0xd800 0xdfff r

-- `utf16.DecodeRune`.
unfoldable pub decode_surrogates : ℕ → ℕ → ℕ
decode_surrogates first second =
    if between 0xd800 0xdbff first && between 0xdc00 0xdfff second
    then (first - 0xd800) * 1024 + (second - 0xdc00) + 0x10000
    else rune_error

hex_digit : ℕ → Option ℕ
hex_digit b =
    if between b'0' b'9' b
    then some (b - b'0')
    else if between b'a' b'f' b
    then some (b - b'a' + 10)
    else if between b'A' b'F' b
    then some (b - b'A' + 10)
    else none

abbrev with_digit : Option ℕ → Option ℕ → Option ℕ
with_digit (some n) (some d) = some (n * 16 + d)
with_digit _ _ = none

-- `strconv.ParseUint(…, 16, 16)` on four bytes.
unfoldable pub parse_hex : Bytes → Option ℕ
unfolding byte_at hex_digit
parse_hex bs =
    with_digit
      (with_digit (with_digit (hex_digit (byte_at 0 bs)) (hex_digit (byte_at 1 bs)))
        (hex_digit (byte_at 2 bs)))
      (hex_digit (byte_at 3 bs))

decode_euro : decode_rune (0xe2 ∷ 0x82 ∷ 0xac ∷ 0x21 ∷ []) ≡ (0x20ac, 3)
unfolding decode_rune
decode_euro = refl

decode_broken : decode_rune (0xe2 ∷ 0x82 ∷ []) ≡ (0xfffd, 1)
unfolding decode_rune
decode_broken = refl

encode_euro : encode_rune 0x20ac ≡ 0xe2 ∷ 0x82 ∷ 0xac ∷ []
unfolding encode_rune
encode_euro = refl
