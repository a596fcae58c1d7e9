-- ===== src/AgentState/Region.antt =====
-- internal/agentstate/manifest.go: the part of a screen that a rule reads; and, from
-- internal/agentstate/detector.go and pkg/mux/muxctx.go, the lines of a screen.
pub mod Bounds
pub mod Lines
pub mod Selected
pub mod Written
use Prim.Native.Char.{code}
use Prim.Native.String
use aht.Prelude.{
  ℕ, ℤ, ◌-◌, pos, negsuc, Bool, true, false, ◌&&◌, ◌||◌, ◌==◌, Option, none, some, List, [], ◌∷◌,
  String, if◌then◌else◌, leb, ltb, nat_eq,
}
use aht.Prelude.Text.{trim_space}
use aht.Prelude.Strings.{split, atoi}
use aht.Prelude.Lists.{length, take, drop}
use aht.AgentState.Model.{Outcome, failed, done, Snapshot, Tools}

-- `min(count, n)`.
abbrev pub min : ℕ → ℕ → ℕ
min count n = if leb count n then count else n

-- `lines[len(lines)-count:]`.
unfoldable pub last_lines : ℕ → List String → List String
last_lines count lines = drop (length lines - count) lines

-- The loop of `selectRegion` that drops the blank lines at the end.
abbrev pub before_blank_end : String → List String → List String
before_blank_end line [] = if trim_space line == "" then [] else line ∷ []
before_blank_end line (l ∷ ls) = line ∷ l ∷ ls

unfoldable pub drop_blank_end : List String → List String
drop_blank_end [] = []
drop_blank_end (line ∷ lines) = before_blank_end line (drop_blank_end lines)

abbrev pub invalid_region : Tools → String → Outcome (List String)
invalid_region t value = failed (String.◌++◌ "invalid manifest region: " (t.quote value))

-- `lines[:count]` and `lines[len(lines)-count:]`: Go panics where `count` is out of range, and there
-- is no value.
unfoldable pub slice_to : ℕ → List String → Option (List String)
slice_to count lines = if leb count (length lines) then some (take count lines) else none

unfoldable pub slice_last : ℕ → List String → Option (List String)
unfolding last_lines
slice_last count lines = if leb count (length lines) then some (last_lines count lines) else none

-- The lines that `top:<count>` and `bottom:<count>` name.
unfoldable pub counted_lines : String → ℕ → List String → Option (List String)
unfolding drop_blank_end slice_to slice_last
counted_lines edge count lines =
    if edge == "top"
    then slice_to (min count (length lines)) lines
    else (let screen = drop_blank_end lines in slice_last (min count (length screen)) screen)

-- The text of a panic, which stops the call, stands for it.
abbrev pub or_panic : Option (List String) → Outcome (List String)
or_panic none = failed "runtime error: slice bounds out of range"
or_panic (some out) = done out

-- `count, err := strconv.Atoi(parts[1])`, and the rest.
unfoldable pub region_count :
    Tools → String → String → Option ℤ → List String → Outcome (List String)
unfolding counted_lines
region_count t value edge none lines = invalid_region t value
region_count t value edge (some (negsuc n)) lines = invalid_region t value
region_count t value edge (some (pos count)) lines =
    if nat_eq count 0 then invalid_region t value else or_panic (counted_lines edge count lines)

unfoldable pub region_parts : Tools → String → List String → List String → Outcome (List String)
unfolding region_count
region_parts t value (edge ∷ count ∷ []) lines =
    if edge == "bottom" || edge == "top"
    then region_count t value edge (atoi count) lines
    else invalid_region t value
region_parts t value _ lines = invalid_region t value

-- `selectRegion`.
unfoldable pub select_region : Tools → String → List String → Outcome (List String)
unfolding region_parts
select_region t text lines =
    let value = trim_space text in
    if value == "" || value == "all"
    then done lines
    else region_parts t value (split b':' value) lines

-- `strings.ReplaceAll(text, "\r\n", "\n")` and then `strings.ReplaceAll(text, "\r", "\n")`.
unfoldable pub starts_line_feed : String → Bool
starts_line_feed String.[] = false
starts_line_feed (String.◌∷◌ c s) = nat_eq (code c) b'\n'

unfoldable pub without_crlf : String → String
unfolding starts_line_feed
without_crlf String.[] = String.[]
without_crlf (String.◌∷◌ c s) =
    let rest = without_crlf s in
    if nat_eq (code c) b'\r' && starts_line_feed s then rest else String.◌∷◌ c rest

unfoldable pub without_cr : String → String
without_cr String.[] = String.[]
without_cr (String.◌∷◌ c s) =
    let rest = without_cr s in
    if nat_eq (code c) b'\r' then String.◌∷◌ "\n" rest else String.◌∷◌ c rest

unfoldable pub unix_lines : String → String
unfolding without_crlf without_cr
unix_lines text = without_cr (without_crlf text)

-- `lines[:len(lines)-1]` where the last line is "".
unfoldable pub without_end : List String → List String
without_end [] = []
without_end (line ∷ []) = if line == "" then [] else line ∷ []
without_end (line ∷ l ∷ ls) = line ∷ without_end (l ∷ ls)

-- `if limit > 0 && len(lines) > limit`.
unfoldable pub bounded : ℤ → List String → List String
unfolding last_lines
bounded (negsuc n) lines = lines
bounded (pos limit) lines =
    if ltb 0 limit && ltb limit (length lines) then last_lines limit lines else lines

-- `BoundBottomLines`.
unfoldable pub bound_bottom_lines : String → ℤ → List String
unfolding unix_lines without_end bounded
bound_bottom_lines text limit =
    let lines = without_end (split b'\n' (unix_lines text)) in bounded limit lines

-- `NormalizeSnapshot`; `maxSnapshotLines` is 100.
unfoldable pub normalize_snapshot : Tools → String → String → Snapshot
unfolding bound_bottom_lines
normalize_snapshot t text title = record {
  lines = bound_bottom_lines (t.without_ansi text) (pos 100);
  title = t.without_ansi title;
}
