-- ===== src/AgentState/Region/Selected.antt =====
-- internal/agentstate/manifest.go: the regions that `selectRegion` accepts, and the lines that it
-- selects.
use aht.Prelude.{
  ◌≡◌, refl, ap, ◌∙◌, ℕ, ℤ, ◌≤◌, pos, negsuc, Bool, true, false, ◌||◌, ◌==◌, Option, none, some,
  String, List, [], ◌∷◌, if◌then◌else◌, arith, nat_eq, eq_iff, subst, ◌⊎◌, inl, inr, Bool-cases,
  sym,
}
use mathlib.Core.Bool.{true≢false}
use aht.Prelude.Text.{trim_space}
use aht.Prelude.Strings.{split, atoi}
use aht.AgentState.Model.{Tools, Outcome, done, is_done}
use aht.AgentState.Region.{
  select_region, region_parts, region_count, counted_lines, or_panic, invalid_region,
}
use aht.AgentState.Region.Bounds.{IsTop, IsBottom, counted_lines-IsTop, counted_lines-IsBottom}

-- What a region that is accepted, without the blanks around it, selects of some lines.
pub data Selects (value : String) (lines out : List String) : Type 0 where
  whole : (value == "" || value == "all") ≡ true → out ≡ lines → Selects value lines out
  top :
      (digits : String) (count : ℕ)
      → split b':' value ≡ "top" ∷ digits ∷ []
      → atoi digits ≡ some (pos count)
      → 1 ≤ count
      → IsTop count lines out
      → Selects value lines out
  bottom :
      (digits : String) (count : ℕ)
      → split b':' value ≡ "bottom" ∷ digits ∷ []
      → atoi digits ≡ some (pos count)
      → 1 ≤ count
      → IsBottom count lines out
      → Selects value lines out

-- The outcome is a value that is selected.
abbrev Selected : String → List String → Outcome (List String) → Type 0
Selected value lines o = (out : List String) × (o ≡ done out) × Selects value lines out

module _ (value digits : String) (count : ℕ) (number : atoi digits ≡ some (pos count))
    (positive : 1 ≤ count) (lines : List String) where
  top-Selected :
      split b':' value ≡ "top" ∷ digits ∷ []
      → Selected value lines (or_panic (counted_lines "top" count lines))
  top-Selected parts =
      let (out, e, is_top) = counted_lines-IsTop count lines in
      (out, ap or_panic e, top digits count parts number positive is_top)

  bottom-Selected :
      split b':' value ≡ "bottom" ∷ digits ∷ []
      → Selected value lines (or_panic (counted_lines "bottom" count lines))
  bottom-Selected parts =
      let (out, e, is_bottom) = counted_lines-IsBottom count lines in
      (out, ap or_panic e, bottom digits count parts number positive is_bottom)

  edge-Selected :
      (edge : String)
      → split b':' value ≡ edge ∷ digits ∷ []
      → (edge == "bottom" || edge == "top") ≡ true
      → Selected value lines (or_panic (counted_lines edge count lines))
  edge-Selected edge parts h = elim (Bool-cases (edge == "top")) [
    | inl e ↦
        let is : edge ≡ "top" = ground (arith, e, eq_iff edge "top") in
        subst (λ x. Selected value lines (or_panic (counted_lines x count lines))) (sym is)
          (top-Selected (parts ∙ ap (λ x. x ∷ digits ∷ []) is))
    | inr e ↦
        let is : edge ≡ "bottom" = ground (arith, e, h, eq_iff edge "bottom") in
        subst (λ x. Selected value lines (or_panic (counted_lines x count lines))) (sym is)
          (bottom-Selected (parts ∙ ap (λ x. x ∷ digits ∷ []) is))
  ]

-- The region is invalid on all lines, or selects some of all lines.
abbrev Decided : Tools → String → (List String → Outcome (List String)) → Type 0
Decided t value f =
    ((lines : List String) → f lines ≡ invalid_region t value)
    ⊎ ((lines : List String) → Selected value lines (f lines))

if-Decided :
    (t : Tools) (value : String) (b : Bool) (f g : List String → Outcome (List String))
    → (b ≡ true → Decided t value f)
    → (b ≡ false → Decided t value g)
    → Decided t value (λ lines. if b then f lines else g lines)
if-Decided t value true f g h k = h refl
if-Decided t value false f g h k = k refl

region_count-Decided :
    (t : Tools) (value edge digits : String) (count : Option ℤ)
    → atoi digits ≡ count
    → split b':' value ≡ edge ∷ digits ∷ []
    → (edge == "bottom" || edge == "top") ≡ true
    → Decided t value (region_count t value edge count)
unfolding region_count
region_count-Decided t value edge digits none n parts h = inl (λ lines. refl)
region_count-Decided t value edge digits (some (negsuc k)) n parts h = inl (λ lines. refl)
region_count-Decided t value edge digits (some (pos count)) n parts h =
    if-Decided t value (nat_eq count 0) _ (λ lines. or_panic (counted_lines edge count lines))
      (λ e. inl (λ lines. refl))
      (λ e.
        inr (λ lines. edge-Selected value digits count n (ground (arith, e)) lines edge parts h))

region_parts-Decided :
    (t : Tools) (value : String) (parts : List String)
    → split b':' value ≡ parts
    → Decided t value (region_parts t value parts)
unfolding region_parts
region_parts-Decided t value [] e = inl (λ lines. refl)
region_parts-Decided t value (edge ∷ []) e = inl (λ lines. refl)
region_parts-Decided t value (edge ∷ digits ∷ []) e =
    if-Decided t value (edge == "bottom" || edge == "top") (region_count t value edge (atoi digits))
      _ (λ h. region_count-Decided t value edge digits (atoi digits) refl e h)
      (λ h. inl (λ lines. refl))
region_parts-Decided t value (edge ∷ digits ∷ more ∷ parts) e = inl (λ lines. refl)

select_region-Decided :
    (t : Tools) (text : String) → Decided t (trim_space text) (select_region t text)
unfolding select_region
select_region-Decided t text =
    let value = trim_space text in
    if-Decided t value (value == "" || value == "all") done
      (region_parts t value (split b':' value)) (λ h. inr (λ lines. (lines, refl, whole h refl)))
      (λ h. region_parts-Decided t value (split b':' value) refl)

region_count-accepted :
    (t : Tools) (value edge : String) (count : ℕ) (lines out : List String)
    → 1 ≤ count
    → counted_lines edge count lines ≡ some out
    → is_done (region_count t value edge (some (pos count)) lines) ≡ true
unfolding region_count
region_count-accepted t value edge count lines out h e =
    ap is_done (ground (arith, h) ∙ ap or_panic e)

parts-accepted :
    (t : Tools) (text : String) (lines : List String) (parts : List String)
    → split b':' (trim_space text) ≡ parts
    → is_done (region_parts t (trim_space text) parts lines) ≡ true
    → is_done (select_region t text lines) ≡ true
unfolding select_region
parts-accepted t text lines parts e h = go (trim_space text == "" || trim_space text == "all")
  where
    go :
        (b : Bool)
        → is_done (
            if b
            then done lines
            else region_parts t (trim_space text) (split b':' (trim_space text)) lines)
          ≡ true
    go true = refl
    go false = rw e h

Selects-accepted :
    (t : Tools) (text : String) (lines out : List String)
    → Selects (trim_space text) lines out
    → is_done (select_region t text lines) ≡ true
unfolding region_parts
Selects-accepted t text lines out (whole h e) = unfold select_region in rw h refl
Selects-accepted t text lines out (top digits count parts number positive is_top) =
    let (some_lines, e, _) = counted_lines-IsTop count lines in
    parts-accepted t text lines _ parts (
      rw number (region_count-accepted t (trim_space text) "top" count lines some_lines positive e))
Selects-accepted t text lines out (bottom digits count parts number positive is_bottom) =
    let (some_lines, e, _) = counted_lines-IsBottom count lines in
    parts-accepted t text lines _ parts (
      rw number
        (region_count-accepted t (trim_space text) "bottom" count lines some_lines positive e))

-- Whatever the text of a region, blanks around it aside, `selectRegion` either reports it as
-- invalid on every screen, and then it is none of the three forms, or succeeds on every screen,
-- never with a slice out of range. An empty text or `all` selects all lines, `top:` and a
-- positive number that many lines of the top, and `bottom:` and a positive number that many lines
-- of the bottom behind which there are blank lines only and the last of which is not blank; all
-- lines there are if they are fewer.
pub select_region-Selects :
    (t : Tools) (text : String)
    → (((lines : List String) → select_region t text lines ≡ invalid_region t (trim_space text))
        × ((lines out : List String) → ¬ Selects (trim_space text) lines out))
      ⊎ ((lines : List String)
          → (out : List String) × (select_region t text lines ≡ done out)
            × Selects (trim_space text) lines out)
select_region-Selects t text = elim (select_region-Decided t text) [
  | inl never ↦ inl (
    never,
    λ lines out selects.
        true≢false (sym (Selects-accepted t text lines out selects) ∙ ap is_done (never lines)),
  )
  | inr always ↦ inr always
]

pub select_region-accepts :
    (t : Tools) (text : String) (some_lines lines : List String)
    → is_done (select_region t text some_lines) ≡ true
    → is_done (select_region t text lines) ≡ true
select_region-accepts t text some_lines lines h = elim (select_region-Decided t text) [
  | inl never ↦ absurd (true≢false (sym h ∙ ap is_done (never some_lines)))
  | inr always ↦ let (out, e, _) = always lines in ap is_done e
]
