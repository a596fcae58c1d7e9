-- ===== src/History/Bytes/Occurs.antt =====
-- pkg/history/prefilter.go: the search from anchor to anchor finds the literal wherever it is.
use aht.Prelude.{
  ◌≡◌, refl, sym, ap, ◌∙◌, ℕ, zero, suc, ◌+◌, ◌-◌, ◌<◌, ◌≤◌, Bool, true, false, not, ◌&&◌, ◌||◌,
  Option, none, some, [], ◌∷◌, if◌then◌else◌, leb, nat_eq, arith, dec_lt,
}
use aht.Prelude.Lists.{length, take, drop, length-drop}
use aht.History.Bytes.{
  BytePattern, Bytes, byte_at, index_byte, shifted, is_lower, next_anchor, lowered, equal_from,
  equal, matches_from, matches, or_false,
}

-- The literal is found here: enough bytes are left, and they are equal to it.
abbrev pub starts_here : BytePattern → Bytes → Bool
starts_here p bs = leb (length p.text) (length bs) && equal p (take (length p.text) bs)

-- The search without an anchor: at every place, one after the other.
unfoldable pub occurs : BytePattern → Bytes → Bool
unfolding equal
occurs p [] = starts_here p []
occurs p (b ∷ bs) = starts_here p (b ∷ bs) || occurs p bs

-- The byte may stand at the anchor.
abbrev hits : BytePattern → ℕ → Bool
hits p b =
    let anchor = byte_at p.anchor p.text in
    nat_eq b anchor || (not p.case_sensitive && is_lower anchor && nat_eq b (anchor - b'a' + b'A'))

next_anchor-cons :
    (p : BytePattern) (b : ℕ) (bs : Bytes)
    → next_anchor p (b ∷ bs) ≡ (if hits p b then some 0 else shifted (next_anchor p bs))
unfolding next_anchor index_byte
next_anchor-cons p b bs = ground arith

next_anchor-nil : (p : BytePattern) → next_anchor p [] ≡ none
unfolding next_anchor index_byte
next_anchor-nil p = ground arith

-- A byte that is equal to that of the text at the anchor hits.
lowered-hits :
    (p : BytePattern) (b : ℕ)
    → nat_eq (lowered p b) (byte_at p.anchor p.text) ≡ true
    → hits p b ≡ true
lowered-hits p b h = ground (arith, h)

equal_from-byte_at :
    (p : BytePattern) (n : ℕ) (text bs : Bytes)
    → n < length text
    → length text ≤ length bs
    → equal_from p (take (length text) bs) text ≡ true
    → nat_eq (lowered p (byte_at n bs)) (byte_at n text) ≡ true
unfolding equal_from byte_at length take
equal_from-byte_at p n [] bs h k e = absurd (omega (arith, h))
equal_from-byte_at p n (t ∷ text) [] h k e = absurd (omega (arith, k))
equal_from-byte_at p zero (t ∷ text) (b ∷ bs) h k e = ground (arith, e)
equal_from-byte_at p (suc n) (t ∷ text) (b ∷ bs) h k e =
    equal_from-byte_at p n text bs (omega (arith, h)) (omega (arith, k)) (ground (arith, e))

drop-byte_at : (n : ℕ) (bs : Bytes) → n < length bs → drop n bs ≡ byte_at n bs ∷ drop (suc n) bs
unfolding drop byte_at length
drop-byte_at n [] h = absurd (omega (arith, h))
drop-byte_at zero (b ∷ bs) h = refl
drop-byte_at (suc n) (b ∷ bs) h = drop-byte_at n bs (omega (arith, h))

drop-short : (n : ℕ) (bs : Bytes) → length bs ≤ n → drop n bs ≡ []
unfolding drop length
drop-short zero [] h = refl
drop-short (suc n) [] h = refl
drop-short zero (b ∷ bs) h = absurd (omega (arith, h))
drop-short (suc n) (b ∷ bs) h = drop-short n bs (omega (arith, h))

short-occurs : (p : BytePattern) (bs : Bytes) → length bs < length p.text → occurs p bs ≡ false
unfolding occurs length
short-occurs p [] h = ground (arith, h)
short-occurs p (b ∷ bs) h = ground (arith, h, short-occurs p bs (omega (arith, h)))

occurs-step :
    (p : BytePattern) (bs : Bytes) → occurs p bs ≡ starts_here p bs || occurs p (drop 1 bs)
unfolding occurs drop
occurs-step p [] = ground arith
occurs-step p (b ∷ bs) = refl

module _ (p : BytePattern) (inside : p.anchor < length p.text) where
  -- One byte further on.
  next_anchor-step :
      (b : ℕ) (bs : Bytes)
      → p.anchor < length (b ∷ bs)
      → next_anchor p (drop p.anchor (b ∷ bs)) ≡ (
          if hits p (byte_at p.anchor (b ∷ bs))
          then some 0
          else shifted (next_anchor p (drop p.anchor bs)))
  unfolding drop
  next_anchor-step b bs h =
      ap (next_anchor p) (drop-byte_at p.anchor (b ∷ bs) h)
      ∙ next_anchor-cons p (byte_at p.anchor (b ∷ bs)) (drop p.anchor bs)

  -- Where the literal stands, the anchor is found at once.
  starts_here-hits : (bs : Bytes) → starts_here p bs ≡ true → hits p (byte_at p.anchor bs) ≡ true
  unfolding equal
  starts_here-hits bs h =
      lowered-hits p (byte_at p.anchor bs)
        (equal_from-byte_at p p.anchor p.text bs inside (ground (arith, h)) (ground (arith, h)))

  no_anchor-occurs : (bs : Bytes) → next_anchor p (drop p.anchor bs) ≡ none → occurs p bs ≡ false
  unfolding occurs length
  no_anchor-occurs [] h = short-occurs p [] (omega (arith, inside))
  no_anchor-occurs (b ∷ bs) h = elim (dec_lt p.anchor (length (b ∷ bs))) [
    | yes k ↦
        ground (arith, h, next_anchor-step b bs k, starts_here-hits (b ∷ bs), no_anchor-occurs bs)
    | no k ↦ short-occurs p (b ∷ bs) (omega (arith, inside, k))
  ]

  skipped-occurs :
      (k : ℕ) (bs : Bytes)
      → next_anchor p (drop p.anchor bs) ≡ some k
      → occurs p bs ≡ occurs p (drop k bs)
  unfolding occurs drop
  skipped-occurs zero bs h = refl
  skipped-occurs (suc k) [] h = refl
  skipped-occurs (suc k) (b ∷ bs) h = elim (dec_lt p.anchor (length (b ∷ bs))) [
    | yes l ↦
        ground (arith, h, next_anchor-step b bs l, starts_here-hits (b ∷ bs), skipped-occurs k bs)
    | no l ↦ ground (arith, h, drop-short p.anchor (b ∷ bs) (omega (arith, l)), next_anchor-nil p)
  ]

  matches_from-occurs :
      (fuel : ℕ) (bs : Bytes) → length bs < fuel → matches_from fuel p bs ≡ some (occurs p bs)
  unfolding matches_from
  matches_from-occurs zero bs h = absurd (omega (arith, h))
  matches_from-occurs (suc fuel) bs h =
      go (leb (length p.text) (length bs)) refl (next_anchor p (drop p.anchor bs)) refl
        (λ r l. matches_from-occurs fuel r l)
    where
      go :
          (b : Bool)
          → leb (length p.text) (length bs) ≡ b
          → (o : Option ℕ) → next_anchor p (drop p.anchor bs) ≡ o
          → ((r : Bytes) → length r < fuel → matches_from fuel p r ≡ some (occurs p r))
          → (if b
              then (elim o as (λ x. Option Bool) [
                | none ↦ some false
                | some lower ↦
                    if not (leb (length p.text) (length (drop lower bs)))
                    then some false
                    else if equal p (take (length p.text) (drop lower bs))
                    then some true
                    else matches_from fuel p (drop 1 (drop lower bs))
              ])
              else some false)
            ≡ some (occurs p bs)
      go false e o f ih = ap some (sym (short-occurs p bs (ground (arith, e))))
      go true e none f ih = ap some (sym (no_anchor-occurs bs f))
      go true e (some k) f ih =
          let rest = drop 1 (drop k bs) in
          let shorter : length rest < fuel =
            ground (arith, e, h, inside, length-drop 1 (drop k bs), length-drop k bs) in
          ground (
            arith,
            skipped-occurs k bs f,
            occurs-step p (drop k bs),
            short-occurs p (drop k bs),
            ih rest shorter,
          )

  -- Where the anchor is a place of its text, the loop of `bytePattern.matches`, which goes on
  -- from anchor to anchor, ends with an answer within a round for each byte and one more, and the
  -- answer is whether a comparison at every place finds the text.
  pub matches-occurs :
      (bs : Bytes)
      → (matches_from (suc (length bs)) p bs ≡ some (occurs p bs)) × (matches p bs ≡ occurs p bs)
  unfolding matches
  matches-occurs bs =
      let ends = matches_from-occurs (suc (length bs)) bs (omega arith) in (ends, ap or_false ends)
