-- ===== src/AgentState/Region/Bounds.antt =====
-- internal/agentstate/manifest.go: the slices that `selectRegion` takes of the lines of a screen, and
-- the regions that it accepts.
use aht.Prelude.{
  ◌≡◌, refl, sym, ap, subst, ℕ, ◌-◌, Bool, true, false, ◌==◌, some, String, List, [], ◌∷◌, ◌++◌,
  if◌then◌else◌, arith, leb,
}
use aht.Prelude.Text.{trim_space}
use aht.Prelude.Lists.{All, length, take, drop, take-append_drop, length-take, length-drop}
use aht.AgentState.Region.{
  counted_lines, drop_blank_end, last_lines, min, before_blank_end, slice_to, slice_last,
}

abbrev pub IsBlank : String → Type 0
IsBlank line = (trim_space line == "") ≡ true

-- The last line is there and blank.
unfoldable pub ends_blank : List String → Bool
ends_blank [] = false
ends_blank (line ∷ []) = trim_space line == ""
ends_blank (line ∷ l ∷ ls) = ends_blank (l ∷ ls)

-- `out` is as many lines of the top of the screen as are asked for, or all if there are fewer.
abbrev pub IsTop : ℕ → List String → List String → Type 0
IsTop count lines out =
    (below : List String) × (lines ≡ out ++ below) × (length out ≡ min count (length lines))

-- The blank lines at the end of the screen aside, `out` is as many lines of its bottom as are asked
-- for, or all if there are fewer.
abbrev pub IsBottom : ℕ → List String → List String → Type 0
IsBottom count lines out =
    (above : List String) × (blank : List String) × (lines ≡ (above ++ out) ++ blank)
    × All IsBlank blank
    × (ends_blank (above ++ out) ≡ false)
    × (length out ≡ min count (length (above ++ out)))

slice_to-some :
    (n : ℕ) (lines : List String)
    → leb n (length lines) ≡ true
    → slice_to n lines ≡ some (take n lines)
unfolding slice_to
slice_to-some n lines h = ground (arith, h)

slice_last-some :
    (n : ℕ) (lines : List String)
    → leb n (length lines) ≡ true
    → slice_last n lines ≡ some (last_lines n lines)
unfolding slice_last
slice_last-some n lines h = ground (arith, h)

min-leb : (count n : ℕ) → leb (min count n) n ≡ true
min-leb count n = ground arith

pub counted_lines-IsTop :
    (count : ℕ) (lines : List String)
    → (out : List String) × (counted_lines "top" count lines ≡ some out) × IsTop count lines out
unfolding counted_lines
counted_lines-IsTop count lines =
    let n = min count (length lines) in
    let inside = min-leb count (length lines) in
    (
      take n lines,
      slice_to-some n lines inside,
      (drop n lines, sym (take-append_drop n lines), length-take n lines (ground (arith, inside))),
    )

-- Only blank lines are dropped, and a line that is kept at the end is not blank.
abbrev Trims : List String → List String → Type 0
Trims lines kept =
    (blank : List String) × (lines ≡ kept ++ blank) × All IsBlank blank × (ends_blank kept ≡ false)

drop_blank_end-Trims : (lines : List String) → Trims lines (drop_blank_end lines)
unfolding drop_blank_end ends_blank All
drop_blank_end-Trims [] = ([], refl, tt, refl)
drop_blank_end-Trims (line ∷ lines) = go (drop_blank_end lines) (drop_blank_end-Trims lines)
  where
    none_kept :
        (b : Bool)
        → (trim_space line == "") ≡ b
        → Trims lines []
        → Trims (line ∷ lines) (if b then [] else line ∷ [])
    none_kept true h (blank, e, all, _) = (line ∷ blank, ap (λ l. line ∷ l) e, (h, all), refl)
    none_kept false h (blank, e, all, _) = (blank, ap (λ l. line ∷ l) e, all, h)

    go : (kept : List String) → Trims lines kept → Trims (line ∷ lines) (before_blank_end line kept)
    go [] trims = none_kept (trim_space line == "") refl trims
    go (l ∷ ls) (blank, e, all, f) = (blank, ap (λ l. line ∷ l) e, all, f)

last_lines-length :
    (count : ℕ) (screen : List String)
    → length (last_lines (min count (length screen)) screen) ≡ min count (length screen)
unfolding last_lines
last_lines-length count screen =
    let n = min count (length screen) in
    ground (arith, min-leb count (length screen), length-drop (length screen - n) screen)

last_lines-rest :
    (n : ℕ) (screen : List String) → take (length screen - n) screen ++ last_lines n screen ≡ screen
unfolding last_lines
last_lines-rest n screen = take-append_drop (length screen - n) screen

pub counted_lines-IsBottom :
    (count : ℕ) (lines : List String)
    → (out : List String) × (counted_lines "bottom" count lines ≡ some out)
      × IsBottom count lines out
unfolding counted_lines
counted_lines-IsBottom count lines =
    let screen = drop_blank_end lines in
    let n = min count (length screen) in
    let out = last_lines n screen in
    let (blank, e, all, f) = drop_blank_end-Trims lines in
    let whole : List String → Type 0 = λ kept.
      (lines ≡ kept ++ blank)
      × All IsBlank blank
      × (ends_blank kept ≡ false)
      × (length out ≡ min count (length kept)) in
    let (e', all', f', size) =
      subst whole (sym (last_lines-rest n screen)) (e, all, f, last_lines-length count screen) in
    (
      out,
      slice_last-some n screen (min-leb count (length screen)),
      (take (length screen - n) screen, blank, e', all', f', size),
    )
