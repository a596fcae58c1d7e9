-- ===== src/Registry/Equality.antt =====
-- Go's `==` on structs and `reflect.DeepEqual`, as decisions on the types of `Model`.
use aht.Prelude.{String, ◌==◌, eq_iff, ℕ_discrete, Bool-cases, inl, inr}
use aht.Prelude.Int.{ℤ-discrete}
use aht.Registry.Model.{
  ProcessIdentity, Location, NativeObservation, ProcessObservation, MultiplexerObservation,
  CatalogObservation, ScreenObservation, Session, StateDetail, Incarnation,
}

unfoldable pub String-discrete : Discrete String
String-discrete s t = elim (Bool-cases (s == t)) [
  | inl e ↦ yes ((eq_iff s t).0 e)
  | inr e ↦ no (λ p. cc ((eq_iff s t).1 p))
]

unfoldable pub ProcessIdentity-discrete : Discrete ProcessIdentity
ProcessIdentity-discrete = hlevel (String-discrete, ℤ-discrete)

unfoldable pub Location-discrete : Discrete Location
Location-discrete = hlevel (String-discrete, ℤ-discrete)

unfoldable pub NativeObservation-discrete : Discrete NativeObservation
NativeObservation-discrete = hlevel (String-discrete, ℤ-discrete, ℕ_discrete)

unfoldable pub ProcessObservation-discrete : Discrete ProcessObservation
ProcessObservation-discrete = hlevel (String-discrete, ℤ-discrete, ℕ_discrete)

unfoldable pub MultiplexerObservation-discrete : Discrete MultiplexerObservation
MultiplexerObservation-discrete = hlevel (String-discrete, ℤ-discrete, ℕ_discrete)

unfoldable pub CatalogObservation-discrete : Discrete CatalogObservation
CatalogObservation-discrete = hlevel (String-discrete, ℤ-discrete, ℕ_discrete)

unfoldable pub ScreenObservation-discrete : Discrete ScreenObservation
ScreenObservation-discrete = hlevel (String-discrete, ℤ-discrete, ℕ_discrete)

unfoldable pub StateDetail-discrete : Discrete StateDetail
StateDetail-discrete = hlevel (String-discrete, ℤ-discrete, ℕ_discrete)

unfoldable pub Incarnation-discrete : Discrete Incarnation
Incarnation-discrete = hlevel (String-discrete, ℤ-discrete, ℕ_discrete)

unfoldable pub Session-discrete : Discrete Session
Session-discrete = hlevel (String-discrete, ℤ-discrete, ℕ_discrete)
