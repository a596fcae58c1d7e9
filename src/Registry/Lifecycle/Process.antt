-- ===== src/Registry/Lifecycle/Process.antt =====
-- What a transition of lifecycle.go does to the process of an incarnation and to the one before.
use aht.Prelude.{
  ◌≡◌, ◌⊎◌, refl, Bool, true, false, some, none_or, some_and, inl, inr, if◌then◌else◌, arith,
}
use aht.Registry.Model.{
  Session, Observation, Time, ProcessIdentity, IncarnationState, Evidence, Verification,
}
use aht.Registry.Values.{complete, is_gone}
use aht.Registry.Evidence.{process_identity}
use aht.Registry.Lifecycle.{
  Action, Input, normalize_incarnation_input, select_action, prepared, transition,
  transition_incarnation, is_blank,
}
use aht.Registry.Lifecycle.Effects.{
  apply_evidence-frame, apply_evidence-process, apply_evidence-adopts, apply_evidence-state,
}
use aht.Registry.Lifecycle.Normal.{IsNormal, normalize-IsNormal}
use aht.Registry.Lifecycle.Selection.{
  select-verification, select-replace, select-retire, select-verify, select-bind,
}

prepared-adopts :
    (i : Input) (a : Action) (p : ProcessIdentity)
    → IsNormal i
    → select_action i ≡ a
    → i.retire ≡ false
    → i.process ≡ some p
    → complete p ≡ true
    → (transition i a).accepted ≡ true
    → (transition i a).next.process ≡ p
unfolding transition prepared
prepared-adopts i Action.reject p v e r h c t = cc
prepared-adopts i Action.ignore p v e r h c t = cc
prepared-adopts i Action.verify p v e r h c t =
    ground (arith, v.verifies_no_process, select-verify i e)
prepared-adopts i Action.retire p v e r h c t = ground (arith, select-retire i e)
prepared-adopts i a p v e r h c t = apply_evidence-adopts i (prepared i a) p h c

-- An accepted transition, outside a retirement, takes over the complete process of its
-- observation.
pub transition-adopts :
    (s : Session) (o : Observation) (at : Time) (p : ProcessIdentity)
    → process_identity o ≡ some p
    → complete p ≡ true
    → (transition_incarnation s o at false).accepted ≡ true
    → (transition_incarnation s o at false).next.process ≡ p
unfolding transition_incarnation normalize_incarnation_input
transition-adopts s o at p h c t =
    let i = normalize_incarnation_input s o at false in
    prepared-adopts i (select_action i) p (normalize-IsNormal s o at false) refl refl h c t

prepared-complete :
    (i : Input) (a : Action)
    → IsNormal i
    → select_action i ≡ a
    → complete i.current.process ≡ true
    → complete (transition i a).next.process ≡ true
unfolding transition prepared
prepared-complete i Action.reject v e c = c
prepared-complete i Action.ignore v e c = c
prepared-complete i Action.verify v e c = c
prepared-complete i Action.retire v e c = c
prepared-complete i Action.replace v e c = ground (
  arith,
  v.different_is,
  select-replace i e,
  apply_evidence-process i (prepared i Action.replace),
)
prepared-complete i Action.bind v e c = cc (select-bind i e).1
prepared-complete i Action.resume v e c =
    ground (arith, apply_evidence-process i (prepared i Action.resume))
prepared-complete i Action.continue v e c =
    ground (arith, apply_evidence-process i (prepared i Action.continue))

-- A transition leaves a known process known.
pub transition-complete :
    (s : Session) (o : Observation) (at : Time) (retiring : Bool)
    → complete s.incarnation.process ≡ true
    → complete (transition_incarnation s o at retiring).next.process ≡ true
unfolding transition_incarnation normalize_incarnation_input
transition-complete s o at retiring c =
    let i = normalize_incarnation_input s o at retiring in
    prepared-complete i (select_action i) (normalize-IsNormal s o at retiring) refl c

prepared-previous :
    (i : Input) (a : Action)
    → IsNormal i
    → select_action i ≡ a
    → none_or i.current.previous complete ≡ true
    → none_or (transition i a).next.previous complete ≡ true
unfolding transition prepared
prepared-previous i Action.reject v e c = c
prepared-previous i Action.ignore v e c = c
prepared-previous i Action.verify v e c = c
prepared-previous i Action.retire v e c = c
prepared-previous i Action.replace v e c =
    ground (
      arith,
      v.different_is,
      select-replace i e,
      apply_evidence-frame i (prepared i Action.replace),
    )
prepared-previous i Action.bind v e c =
    ground (arith, apply_evidence-frame i (prepared i Action.bind))
prepared-previous i Action.resume v e c =
    ground (arith, apply_evidence-frame i (prepared i Action.resume))
prepared-previous i Action.continue v e c =
    ground (arith, apply_evidence-frame i (prepared i Action.continue))

-- Where the process before is complete or absent, it is so after a transition.
pub transition-previous :
    (s : Session) (o : Observation) (at : Time) (retiring : Bool)
    → none_or s.incarnation.previous complete ≡ true
    → none_or (transition_incarnation s o at retiring).next.previous complete ≡ true
unfolding transition_incarnation normalize_incarnation_input
transition-previous s o at retiring c =
    let i = normalize_incarnation_input s o at retiring in
    prepared-previous i (select_action i) (normalize-IsNormal s o at retiring) refl c

-- The states with a name.
abbrev pub is_named : IncarnationState → Bool
is_named (IncarnationState.other s) = false
is_named _ = true

abbrev pub NamedOrBlank : IncarnationState → Type 0
NamedOrBlank state = (is_named state ≡ true) ⊎ (is_blank state ≡ true)

prepared-named :
    (i : Input) (a : Action)
    → NamedOrBlank i.current.state
    → (transition i a).accepted ≡ true
    → is_named (transition i a).next.state ≡ true
unfolding transition prepared
prepared-named i Action.reject v t = cc
prepared-named i Action.ignore v t = cc
prepared-named i Action.verify v t = ground arith
prepared-named i Action.retire v t = refl
prepared-named i Action.replace v t =
    ground (arith, apply_evidence-state i (prepared i Action.replace))
prepared-named i Action.bind v t = ground (arith, apply_evidence-state i (prepared i Action.bind))
prepared-named i Action.resume v t =
    ground (arith, apply_evidence-state i (prepared i Action.resume))
prepared-named i Action.continue v t =
    ground (arith, apply_evidence-state i (prepared i Action.continue))

-- An accepted transition from a state with a name, or from the blank one, leaves a state with a
-- name.
pub transition-named :
    (s : Session) (o : Observation) (at : Time) (retiring : Bool)
    → NamedOrBlank s.incarnation.state
    → (transition_incarnation s o at retiring).accepted ≡ true
    → is_named (transition_incarnation s o at retiring).next.state ≡ true
unfolding transition_incarnation normalize_incarnation_input
transition-named s o at retiring v t =
    let i = normalize_incarnation_input s o at retiring in prepared-named i (select_action i) v t

prepared-verifies :
    (i : Input)
    → (select_action i ≡ Action.verify) ⊎ (select_action i ≡ Action.reject)
    → (transition i (select_action i)).accepted ≡ true
    → (transition i (select_action i)).next.state ≡ (
        if some_and i.verification (λ v. is_gone v.presence)
        then IncarnationState.exited
        else IncarnationState.starting)
unfolding transition prepared
prepared-verifies i (inl e) t = rw e
prepared-verifies i (inr e) t = cc

-- An accepted verification, outside a retirement, leaves the incarnation exited where it reports
-- the process gone, and starting otherwise.
pub transition-verifies :
    (s : Session) (o : Observation) (at : Time) (v : Verification)
    → o.evidence ≡ Evidence.verification v
    → (transition_incarnation s o at false).accepted ≡ true
    → (transition_incarnation s o at false).next.state
      ≡ (if is_gone v.presence then IncarnationState.exited else IncarnationState.starting)
unfolding transition_incarnation normalize_incarnation_input
transition-verifies s o at v e t =
    let i = normalize_incarnation_input s o at false in
    let chosen = select-verification i (ground arith) in
    ground (arith, prepared-verifies i chosen t)
