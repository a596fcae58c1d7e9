-- ===== src/Registry/Lifecycle/Normal.antt =====
-- What `normalizeIncarnationInput` of lifecycle.go makes of the fields that it computes.
use aht.Prelude.{◌≡◌, refl, Bool, true, none, not, ◌&&◌, some_and, is_some, arith}
use aht.Registry.Model.{Session, Observation, Time}
use aht.Registry.Values.{complete, same_process}
use aht.Registry.Evidence.{process_identity}
use aht.Registry.Lifecycle.{Input, normalize_incarnation_input, is_terminal}

pub record IsNormal (i : Input) : Type 0 where
  pub terminal_is : i.terminal ≡ is_terminal i.current.state
  pub different_is :
      i.different
      ≡ some_and i.process
          (λ p. complete p && complete i.current.process && not (same_process i.current.process p))
  pub verifies_no_process : is_some i.verification ≡ true → i.process ≡ none

pub normalize-IsNormal :
    (s : Session) (o : Observation) (at : Time) (retiring : Bool)
    → IsNormal (normalize_incarnation_input s o at retiring)
unfolding normalize_incarnation_input process_identity
normalize-IsNormal s o at retiring = record {
  terminal_is = refl;
  different_is = refl;
  verifies_no_process = λ h. ground arith;
}
