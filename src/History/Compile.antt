-- ===== src/History/Compile.antt =====
-- pkg/history/prefilter.go: the patterns of a query.
pub mod Searchable
use aht.Prelude.{
  ◌≡◌, refl, ℕ, zero, suc, ◌+◌, ◌-◌, ◌*◌, ◌/◌, ◌%◌, Bool, true, false, not, ◌&&◌, ◌||◌, List, [],
  ◌∷◌, ◌++◌, if◌then◌else◌, ltb, leb, nat_eq, is_some,
}
use aht.Prelude.Lists.{length, take, drop}
use aht.History.Bytes.{Bytes, BytePattern}
use aht.History.Ascii.{is_ascii}
use aht.History.Unicode.{Folding, decode_rune, rune_error}
use aht.History.Prefilter.{bytes_of, rare_byte, ascii_fragment, index_of}
use aht.History.Stream.{Input, Answer, matches_input}

-- The fields of `matcher` that the filter reads.
pub record Matcher : Type 0 where
  pub literal : Bytes
  pub case_sensitive : Bool

pub record BytePrefilter : Type 0 where
  pub patterns : List BytePattern
  pub overlap : ℕ

abbrev hex : ℕ → ℕ
hex n = if ltb n 10 then b'0' + n else b'a' + (n - 10)

abbrev backslash : ℕ
backslash = 0x5c

-- An ASCII byte in a text of `encoding/json`, with `SetEscapeHTML(false)`.
unfoldable pub json_byte : ℕ → Bytes
json_byte b =
    if nat_eq b 0x22 || nat_eq b backslash
    then backslash ∷ b ∷ []
    else if nat_eq b 8
    then backslash ∷ b'b' ∷ []
    else if nat_eq b 12
    then backslash ∷ b'f' ∷ []
    else if nat_eq b 10
    then backslash ∷ b'n' ∷ []
    else if nat_eq b 13
    then backslash ∷ b'r' ∷ []
    else if nat_eq b 9
    then backslash ∷ b't' ∷ []
    else if ltb b 0x20
    then backslash ∷ b'u' ∷ b'0' ∷ b'0' ∷ hex (b / 16) ∷ hex (b % 16) ∷ []
    else b ∷ []

-- The text between the quotes that `encoding/json` writes; every round takes a byte at least.
unfoldable pub json_text : ℕ → Bytes → Bytes
unfolding json_byte decode_rune take drop
json_text zero bs = []
json_text (suc fuel) [] = []
json_text (suc fuel) (b ∷ bs) =
    let decoded = decode_rune (b ∷ bs) in
    let rest = json_text fuel (drop decoded.1 (b ∷ bs)) in
    if ltb b 0x80
    then json_byte b ++ rest
    else if nat_eq decoded.0 rune_error && nat_eq decoded.1 1
    then bytes_of "\\ufffd" ++ rest
    else if nat_eq decoded.0 0x2028
    then bytes_of "\\u2028" ++ rest
    else if nat_eq decoded.0 0x2029
    then bytes_of "\\u2029" ++ rest
    else take decoded.1 (b ∷ bs) ++ rest

-- The body of the loop of `newBytePrefilter`.
unfoldable pub pattern_of : Matcher → BytePattern
unfolding ascii_fragment json_text rare_byte is_ascii index_of length
pattern_of term =
    let literal = ascii_fragment term.literal in
    let text = json_text (length literal) literal in
    record {
      literal = literal;
      text = text;
      anchor = rare_byte text;
      case_sensitive = term.case_sensitive;
      unicode = not (is_ascii literal);
      slash = is_some (index_of (bytes_of "/") literal);
    }

abbrev pub max : ℕ → ℕ → ℕ
max m n = if leb m n then n else m

abbrev pub with_term : Matcher → BytePrefilter → BytePrefilter
with_term term filter =
    let p = pattern_of term in
    record {
      patterns = filter.patterns ++ (p ∷ []);
      overlap = max filter.overlap (length p.text * 4);
    }

-- The loop of `newBytePrefilter`.
unfoldable pub add_terms : List Matcher → BytePrefilter → BytePrefilter
unfolding pattern_of length
add_terms [] filter = filter
add_terms (term ∷ terms) filter =
    add_terms terms (if nat_eq (length term.literal) 0 then filter else with_term term filter)

-- `newBytePrefilter`; `surrogateEscapeBytes` is 12.
unfoldable pub new_byte_prefilter : List Matcher → BytePrefilter
unfolding add_terms
new_byte_prefilter terms = add_terms terms (record { patterns = []; overlap = 12 })

-- `bytePrefilter.matches`.
unfoldable pub filter_matches : Folding → BytePrefilter → Input → Answer
unfolding matches_input
filter_matches f filter input = matches_input f filter.patterns filter.overlap input
