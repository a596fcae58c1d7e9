-- ===== src/Prelude/Lists.antt =====
-- Slices as lists: lengths and parts over the native numbers, and predicates on every element.
use Prim.Native.Nat.{ℕ, zero, suc, ◌+◌, ◌-◌, ◌≤◌}
use mathlib.Core.Path.{◌≡◌, refl, ap}
use mathlib.Core.Bool.{Bool, true, false}
use mathlib.Core.List.{List, [], ◌∷◌, ◌++◌}
use native.Mathlib.Omega.{arith}
use aht.Prelude.Tests.{if◌then◌else◌}

module _ {ℓ} {A : Type ℓ} where
  unfoldable pub length : List A → ℕ
  length [] = 0
  length (a ∷ l) = suc (length l)

  -- `l[:n]`, where `n` is not above the length.
  unfoldable pub take : ℕ → List A → List A
  take zero l = []
  take (suc n) [] = []
  take (suc n) (a ∷ l) = a ∷ take n l

  -- `l[n:]`, where `n` is not above the length.
  unfoldable pub drop : ℕ → List A → List A
  drop zero l = l
  drop (suc n) [] = []
  drop (suc n) (a ∷ l) = drop n l

  -- `len(l) > 0`.
  abbrev pub nonempty : List A → Bool
  nonempty [] = false
  nonempty (a ∷ l) = true

  unfoldable pub filter : (A → Bool) → List A → List A
  filter test [] = []
  filter test (a ∷ l) = let rest = filter test l in if test a then a ∷ rest else rest

  unfoldable pub All {κ} : (A → Type κ) → List A → Type κ
  All P [] = Unit
  All P (a ∷ l) = P a × All P l

  pub All-map {κ μ} :
      {P : A → Type κ} {Q : A → Type μ} → ((a : A) → P a → Q a) → (l : List A) → All P l → All Q l
  unfolding All
  All-map f [] h = tt
  All-map f (a ∷ l) (h, hs) = (f a h, All-map f l hs)

  pub length-append : (l m : List A) → length (l ++ m) ≡ length l + length m
  unfolding length
  length-append [] m = omega arith
  length-append (a ∷ l) m = omega (arith, length-append l m)

  pub take-append_drop : (n : ℕ) (l : List A) → take n l ++ drop n l ≡ l
  unfolding take drop
  take-append_drop zero l = refl
  take-append_drop (suc n) [] = refl
  take-append_drop (suc n) (a ∷ l) = ap (λ m. a ∷ m) (take-append_drop n l)

  pub length-take : (n : ℕ) (l : List A) → n ≤ length l → length (take n l) ≡ n
  unfolding take length
  length-take zero l h = refl
  length-take (suc n) [] h = omega arith
  length-take (suc n) (a ∷ l) h = ap suc (length-take n l (omega arith))

  pub length-drop : (n : ℕ) (l : List A) → length (drop n l) ≡ length l - n
  unfolding drop length
  length-drop zero l = omega arith
  length-drop (suc n) [] = omega arith
  length-drop (suc n) (a ∷ l) = omega (arith, length-drop n l)
