-- ===== src/History/Bytes.antt =====
-- pkg/history/prefilter.go: the search for a literal in the bytes of a file.
pub mod Occurs
use aht.Prelude.{
  ◌≡◌, refl, ℕ, zero, suc, ◌+◌, ◌-◌, ◌*◌, ◌/◌, ◌%◌, Bool, true, false, not, ◌&&◌, ◌||◌, Option,
  none, some, List, [], ◌∷◌, if◌then◌else◌, ltb, leb, nat_eq,
}
use aht.Prelude.Lists.{length, take, drop}

abbrev pub Bytes : Type 0
Bytes = List ℕ

pub record BytePattern : Type 0 where
  pub literal : Bytes
  pub text : Bytes
  pub anchor : ℕ
  pub case_sensitive : Bool
  pub unicode : Bool
  pub slash : Bool

-- `text[n]`, which Go panics on out of range; the anchor is in range (Bytes/Rare.antt).
unfoldable pub byte_at : ℕ → Bytes → ℕ
byte_at n [] = 0
byte_at zero (b ∷ bs) = b
byte_at (suc n) (b ∷ bs) = byte_at n bs

abbrev pub shifted : Option ℕ → Option ℕ
shifted none = none
shifted (some n) = some (n + 1)

-- `bytes.IndexByte`, with `none` for -1.
unfoldable pub index_byte : ℕ → Bytes → Option ℕ
index_byte x [] = none
index_byte x (b ∷ bs) = if nat_eq b x then some 0 else shifted (index_byte x bs)

-- `if lower < 0 || (upper >= 0 && upper < lower)`.
abbrev pub earlier : Option ℕ → Option ℕ → Option ℕ
earlier none upper = upper
earlier (some l) none = some l
earlier (some l) (some u) = if ltb u l then some u else some l

abbrev pub is_lower : ℕ → Bool
is_lower b = leb b'a' b && leb b b'z'

-- The next place of the anchor, in either case where case does not matter.
unfoldable pub next_anchor : BytePattern → Bytes → Option ℕ
unfolding index_byte byte_at
next_anchor p bs =
    let anchor = byte_at p.anchor p.text in
    let lower = index_byte anchor bs in
    if not p.case_sensitive && is_lower anchor
    then earlier lower (index_byte (anchor - b'a' + b'A') bs)
    else lower

-- `if !pattern.caseSensitive && value >= 'A' && value <= 'Z'`.
abbrev pub lowered : BytePattern → ℕ → ℕ
lowered p b = if not p.case_sensitive && leb b'A' b && leb b b'Z' then b + (b'a' - b'A') else b

-- `bytePattern.equal`, on bytes of the length of the text.
unfoldable pub equal_from : BytePattern → Bytes → Bytes → Bool
equal_from p [] text = true
equal_from p (b ∷ bs) [] = false
equal_from p (b ∷ bs) (t ∷ text) = nat_eq (lowered p b) t && equal_from p bs text

unfoldable pub equal : BytePattern → Bytes → Bool
unfolding equal_from
equal p bs = equal_from p bs p.text

-- The loop of `bytePattern.matches`; `rest` is `data[start:]`. Where the fuel runs out before the
-- loop ends there is no answer.
unfoldable pub matches_from : ℕ → BytePattern → Bytes → Option Bool
unfolding next_anchor equal
matches_from zero p rest = none
matches_from (suc fuel) p rest =
    if leb (length p.text) (length rest)
    then elim (next_anchor p (drop p.anchor rest)) [
      | none ↦ some false
      | some lower ↦
          let here = drop lower rest in
          let onward = matches_from fuel p (drop 1 here) in
          if not (leb (length p.text) (length here))
          then some false
          else if equal p (take (length p.text) here)
          then some true
          else onward
    ]
    else some false

abbrev pub or_false : Option Bool → Bool
or_false none = false
or_false (some answer) = answer

-- `bytePattern.matches`: every round goes on by a byte at least.
unfoldable pub matches : BytePattern → Bytes → Bool
unfolding matches_from
matches p bs = or_false (matches_from (suc (length bs)) p bs)
