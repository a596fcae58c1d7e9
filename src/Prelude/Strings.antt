-- ===== src/Prelude/Strings.antt =====
-- More of Go's `strings` and `strconv`: searching, splitting and joining, and reading a number.
use Prim.Native.Nat.{ℕ, ◌+◌, ◌-◌, ◌*◌, ◌^◌}
use Prim.Native.Char.{Char, code}
use Prim.Native.String.{String}
use Prim.Native.String
use mathlib.Core.Path.{◌≡◌, refl}
use mathlib.Core.Bool.{Bool, true, false, ◌&&◌, ◌||◌}
use mathlib.Core.Option.{Option, none, some}
use mathlib.Core.List.{List, [], ◌∷◌}
use native.Mathlib.Omega.{arith}
use text.Mathlib.Text.{◌==◌}
use text.Mathlib.TextEquality.{eq_iff}
use text.Mathlib.TextLemmas.{append-eq-nil_iff}
use aht.Prelude.Tests.{leb, ltb, nat_eq, if◌then◌else◌}
use aht.Prelude.Int.{ℤ, pos, negsuc}

-- `strings.HasPrefix(s, prefix)`.
unfoldable pub has_prefix : String → String → Bool
has_prefix s String.[] = true
has_prefix String.[] (String.◌∷◌ d prefix) = false
has_prefix (String.◌∷◌ c s) (String.◌∷◌ d prefix) = nat_eq (code c) (code d) && has_prefix s prefix

-- `strings.Contains(s, part)`.
unfoldable pub contains : String → String → Bool
unfolding has_prefix
contains String.[] part = has_prefix String.[] part
contains (String.◌∷◌ c s) part = has_prefix (String.◌∷◌ c s) part || contains s part

abbrev pub extend_first : Char → List String → List String
extend_first c [] = String.◌∷◌ c String.[] ∷ []
extend_first c (e ∷ es) = String.◌∷◌ c e ∷ es

-- `strings.Split(s, sep)` at a separator of one character.
unfoldable pub split : ℕ → String → List String
split sep String.[] = "" ∷ []
split sep (String.◌∷◌ c s) =
    let rest = split sep s in if nat_eq (code c) sep then "" ∷ rest else extend_first c rest

-- `strings.Join(es, sep)`.
unfoldable pub join : String → List String → String
join sep [] = ""
join sep (e ∷ []) = e
join sep (e ∷ f ∷ es) = String.◌++◌ e (String.◌++◌ sep (join sep (f ∷ es)))

-- The decimal number of the characters, after those that were read.
digits : ℕ → String → Option ℕ
digits n String.[] = some n
digits n (String.◌∷◌ c s) =
    let rest = digits (n * 10 + (code c - b'0')) s in
    if leb b'0' (code c) && leb (code c) b'9' then rest else none

abbrev negated : ℕ → ℤ
negated n = if nat_eq n 0 then pos 0 else negsuc (n - 1)

-- In the range of a signed number of 64 bits.
abbrev in_range : Bool → ℕ → Option ℤ
in_range negative n =
    if negative
    then (if leb n (2 ^ 63) then some (negated n) else none)
    else (if ltb n (2 ^ 63) then some (pos n) else none)

signed : Bool → String → Option ℤ
unfolding digits
signed negative String.[] = none
signed negative (String.◌∷◌ c s) = elim (digits 0 (String.◌∷◌ c s)) [
  | none ↦ none
  | some n ↦ in_range negative n
]

-- `strconv.Atoi`, without the error's text.
unfoldable pub atoi : String → Option ℤ
unfolding signed
atoi String.[] = none
atoi (String.◌∷◌ c s) =
    if nat_eq (code c) b'-'
    then signed true s
    else (if nat_eq (code c) b'+' then signed false s else signed false (String.◌∷◌ c s))

pub append-not_blank : (p s : String) → (p == "") ≡ false → (String.◌++◌ p s == "") ≡ false
append-not_blank p s h =
    ground (arith, eq_iff (String.◌++◌ p s) "", eq_iff p "", (append-eq-nil_iff {p = p} {q = s}).0)

contains_test : contains "a cat sat" "at s" ≡ true
unfolding contains
contains_test = refl

contains_not_test : contains "a cat" "cats" ≡ false
unfolding contains
contains_not_test = refl

split_test : split b':' "bottom:12" ≡ "bottom" ∷ "12" ∷ []
unfolding split
split_test = refl

split_empty_test : split b':' "" ≡ "" ∷ []
unfolding split
split_empty_test = refl

join_test : join ", " ("a" ∷ "b" ∷ []) ≡ "a, b"
unfolding join
join_test = refl

atoi_test : atoi "-012" ≡ some (negsuc 11)
unfolding atoi
atoi_test = refl

atoi_blank_test : atoi "+" ≡ none
unfolding atoi
atoi_blank_test = refl
