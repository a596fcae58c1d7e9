-- ===== src/AgentState/Region/Lines.antt =====
-- pkg/mux/muxctx.go: the lines of a screen.
use Prim.Native.Char.{Char, code}
use aht.Prelude.{
  ◌≡◌, refl, ℕ, zero, ℤ, suc, ◌-◌, ◌≤◌, ◌<◌, pos, negsuc, Bool, true, false, ◌&&◌, ◌==◌, String,
  List, [], ◌∷◌, if◌then◌else◌, arith, nat_eq, ltb, not,
}
use aht.Prelude.Strings.{split, extend_first}
use aht.Prelude.Lists.{length, drop, length-drop, All}
use aht.AgentState.Region.{
  bound_bottom_lines, bounded, without_end, unix_lines, last_lines, without_cr, without_crlf,
}

-- The character does not stand in the text.
unfoldable pub free_of : ℕ → String → Bool
free_of sep String.[] = true
free_of sep (String.◌∷◌ c s) = not (nat_eq (code c) sep) && free_of sep s

-- A line has no end of a line in it.
abbrev pub IsLine : String → Type 0
IsLine line = (free_of b'\n' line && free_of b'\r' line) ≡ true

extend_first-IsLine :
    (c : Char) (lines : List String)
    → (nat_eq (code c) b'\n') ≡ false
    → (nat_eq (code c) b'\r') ≡ false
    → All IsLine lines
    → All IsLine (extend_first c lines)
unfolding All free_of
extend_first-IsLine c [] h k l = ground (arith, h, k)
extend_first-IsLine c (line ∷ lines) h k (i, l) = ground (arith, h, k, i, l)

-- A split at line feeds of a text with no carriage return.
split-IsLine : (s : String) → free_of b'\r' s ≡ true → All IsLine (split b'\n' s)
unfolding All split free_of
split-IsLine String.[] h = (refl, tt)
split-IsLine (String.◌∷◌ c s) h =
    go (nat_eq (code c) b'\n') refl (ground (arith, h)) (split-IsLine s (ground (arith, h)))
  where
    go :
        (b : Bool)
        → nat_eq (code c) b'\n' ≡ b
        → nat_eq (code c) b'\r' ≡ false
        → All IsLine (split b'\n' s)
        → All IsLine (if b then "" ∷ split b'\n' s else extend_first c (split b'\n' s))
    go true e k l = (refl, l)
    go false e k l = extend_first-IsLine c (split b'\n' s) e k l

without_cr-free_of : (s : String) → free_of b'\r' (without_cr s) ≡ true
unfolding without_cr free_of
without_cr-free_of String.[] = refl
without_cr-free_of (String.◌∷◌ c s) = ground (arith, without_cr-free_of s)

without_end-All :
    (P : String → Type 0) (lines : List String) → All P lines → All P (without_end lines)
unfolding All without_end
without_end-All P [] h = tt
without_end-All P (line ∷ []) h = elim (line == "") as (λ b. All P (if b then [] else line ∷ [])) [
  | true ↦ tt
  | false ↦ h
]
without_end-All P (line ∷ l ∷ ls) (h, hs) = (h, without_end-All P (l ∷ ls) hs)

drop-All : (P : String → Type 0) (n : ℕ) (lines : List String) → All P lines → All P (drop n lines)
unfolding All drop
drop-All P zero lines h = h
drop-All P (suc n) [] h = tt
drop-All P (suc n) (line ∷ lines) (h, hs) = drop-All P n lines hs

bounded-All :
    (P : String → Type 0) (limit : ℤ) (lines : List String)
    → All P lines
    → All P (bounded limit lines)
unfolding bounded last_lines
bounded-All P (negsuc n) lines h = h
bounded-All P (pos n) lines h =
    elim (ltb 0 n && ltb n (length lines))
      as (λ b. All P (if b then drop (length lines - n) lines else lines)) [
        | true ↦ drop-All P (length lines - n) lines h
        | false ↦ h
      ]

-- No line that `BoundBottomLines` returns has a line feed or a carriage return in it, and under a
-- positive limit there are no more lines than the limit.
pub bound_bottom_lines-IsLine :
    (text : String) (limit : ℕ)
    → All IsLine (bound_bottom_lines text (pos limit))
      × (0 < limit → length (bound_bottom_lines text (pos limit)) ≤ limit)
unfolding bound_bottom_lines unix_lines
bound_bottom_lines-IsLine text limit =
    let lines = without_end (split b'\n' (unix_lines text)) in
    (
      bounded-All IsLine (pos limit) lines
          (without_end-All IsLine _ (split-IsLine _ (without_cr-free_of (without_crlf text)))),
      λ h. unfold bounded last_lines in ground (arith, h, length-drop (length lines - limit) lines),
    )
