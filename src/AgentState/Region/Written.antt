-- ===== src/AgentState/Region/Written.antt =====
-- pkg/mux/muxctx.go: lines that are written out and read again.
use Prim.Native.String
use text.Mathlib.TextLemmas.{nil-append, cons-append}
use text.Mathlib.TextLemmas as TextLemmas
use aht.Prelude.{
  ◌≡◌, refl, sym, ap, ◌∙◌, ℕ, ◌≤◌, pos, true, ◌&&◌, String, List, [], ◌∷◌, ◌++◌, arith,
}
use aht.Prelude.Strings.{split, join}
use aht.Prelude.Lists.{length, All}
use aht.AgentState.Region.{
  bound_bottom_lines, bounded, without_end, unix_lines, without_cr, without_crlf,
}
use aht.AgentState.Region.Lines.{free_of, IsLine}

-- Texts with line feeds only are left alone.
without_crlf-free_of : (s : String) → free_of b'\r' s ≡ true → without_crlf s ≡ s
unfolding without_crlf free_of
without_crlf-free_of String.[] h = refl
without_crlf-free_of (String.◌∷◌ c s) h = ground (arith, h, without_crlf-free_of s)

without_cr-same : (s : String) → free_of b'\r' s ≡ true → without_cr s ≡ s
unfolding without_cr free_of
without_cr-same String.[] h = refl
without_cr-same (String.◌∷◌ c s) h = ground (arith, h, without_cr-same s)

free_of-append :
    (sep : ℕ) (s t : String) → free_of sep (String.◌++◌ s t) ≡ free_of sep s && free_of sep t
unfolding free_of
free_of-append sep String.[] t = ap (free_of sep) (nil-append t)
free_of-append sep (String.◌∷◌ c s) t =
    rw (cons-append c s t) (ground (arith, free_of-append sep s t))

split_line :
    (line rest : String)
    → free_of b'\n' line ≡ true
    → split b'\n' (String.◌++◌ line (String.◌++◌ "\n" rest)) ≡ line ∷ split b'\n' rest
unfolding split free_of
split_line String.[] rest h =
    rw (nil-append (String.◌++◌ "\n" rest))
      (rw (cons-append "\n" "" rest) (rw (nil-append rest) refl))
split_line (String.◌∷◌ c s) rest h =
    rw (cons-append c s (String.◌++◌ "\n" rest)) (ground (arith, h, split_line s rest))

-- The lines, each with its end.
written : List String → String
written lines = String.◌++◌ (join "\n" lines) "\n"

written-cons :
    (line l : String) (ls : List String)
    → written (line ∷ l ∷ ls) ≡ String.◌++◌ line (String.◌++◌ "\n" (written (l ∷ ls)))
unfolding written join
written-cons line l ls =
    TextLemmas.append_assoc line _ "\n"
    ∙ ap (String.◌++◌ line) (TextLemmas.append_assoc "\n" (join "\n" (l ∷ ls)) "\n")

split-written :
    (line : String) (lines : List String)
    → All IsLine (line ∷ lines)
    → split b'\n' (written (line ∷ lines)) ≡ (line ∷ lines) ++ ("" ∷ [])
unfolding All written join split
split-written line [] (h, hs) =
    ap (λ s. split b'\n' (String.◌++◌ line s)) (sym (TextLemmas.append-nil "\n"))
    ∙ split_line line "" (ground (arith, h))
split-written line (l ∷ ls) (h, hs) =
    ap (split b'\n') (written-cons line l ls)
    ∙ split_line line (written (l ∷ ls)) (ground (arith, h))
    ∙ ap (λ r. line ∷ r) (split-written l ls hs)

written-free_of :
    (line : String) (lines : List String)
    → All IsLine (line ∷ lines)
    → free_of b'\r' (written (line ∷ lines)) ≡ true
unfolding All free_of
written-free_of line [] (h, hs) =
    unfold written join in ground (arith, free_of-append b'\r' line "\n", h)
written-free_of line (l ∷ ls) (h, hs) = rw (written-cons line l ls) (
    ground (
      arith,
      h,
      free_of-append b'\r' line (String.◌++◌ "\n" (written (l ∷ ls))),
      free_of-append b'\r' "\n" (written (l ∷ ls)),
      written-free_of l ls hs,
    ))

without_end-same :
    (line : String) (lines : List String) → without_end ((line ∷ lines) ++ ("" ∷ [])) ≡ line ∷ lines
unfolding without_end
without_end-same line [] = refl
without_end-same line (l ∷ ls) = ap (λ r. line ∷ r) (without_end-same l ls)

-- Some lines without line ends, no more than the limit, that are joined by line feeds with one
-- behind the last, are read back by `BoundBottomLines` as they were, blank lines included.
pub bound_bottom_lines-written :
    (line : String) (lines : List String) (limit : ℕ)
    → All IsLine (line ∷ lines)
    → length (line ∷ lines) ≤ limit
    → bound_bottom_lines (String.◌++◌ (join "\n" (line ∷ lines)) "\n") (pos limit) ≡ line ∷ lines
unfolding bound_bottom_lines bounded unix_lines written
bound_bottom_lines-written line lines limit h fits =
    let text = written (line ∷ lines) in
    let no_cr = written-free_of line lines h in
    let unix : without_cr (without_crlf text) ≡ text =
      ap without_cr (without_crlf-free_of text no_cr) ∙ without_cr-same text no_cr in
    let read : without_end (split b'\n' (without_cr (without_crlf text))) ≡ line ∷ lines =
      ap (λ s. without_end (split b'\n' s)) unix
      ∙ ap without_end (split-written line lines h)
      ∙ without_end-same line lines in
    ap (bounded (pos limit)) read ∙ ground (arith, fits)
