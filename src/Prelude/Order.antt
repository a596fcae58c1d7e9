-- ===== src/Prelude/Order.antt =====
-- Go's order of strings, byte by byte, which is that of their code points.
use Prim.Native.Nat.{Ordering, lt, eq, gt}
use Prim.Native.String.{String, compare}
use mathlib.Core.List.{List, [], ◌∷◌}
use mathlib.Core.Bool.{Bool, true, false}

unfoldable pub str_lt : String → String → Bool
str_lt s t = elim (compare s t) [ Ordering.lt ↦ true | _ ↦ false ]

-- `cmp.Or` on the results of comparisons: the first that is not zero.
unfoldable pub first_difference : List Ordering → Ordering
first_difference [] = eq
first_difference (eq ∷ rest) = first_difference rest
first_difference (lt ∷ rest) = lt
first_difference (gt ∷ rest) = gt
