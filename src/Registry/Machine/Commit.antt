-- ===== src/Registry/Machine/Commit.antt =====
-- What `lifecycleMachine` of lifecycle.go writes into a session.
use aht.Prelude.{◌≡◌, true, false, Option, some, none, arith, if◌then◌else◌}
use aht.Registry.Model.{
  Time, Presence, IncarnationState, Session, Observation, Policy, Activity, ActivityDecision,
  Evidence, Verification,
}
use aht.Registry.Values.{complete, is_gone}
use aht.Registry.Liveness.{presence, set_activity, set_decision}
use aht.Registry.Lifecycle.{Transition}
use aht.Registry.Evidence.{as_verification}
use aht.Registry.Machine.{
  stamp_changes, commit_reset, commit_incarnation, commit_liveness, commit, apply,
}

module _ (t : Transition) (at : Time) (s : Session) where
  commit_reset-frame :
      ((commit_reset t at s).incarnation ≡ s.incarnation)
      × ((commit_reset t at s).process ≡ s.process)
      × ((commit_reset t at s).observations.native
          ≡ (if t.reset then none else s.observations.native))
  unfolding commit_reset
  commit_reset-frame = ground arith

  pub commit-frame :
      t.accepted ≡ true
      → ((commit t at s).incarnation ≡ t.next)
        × ((commit t at s).process
            ≡ (if complete t.next.process then some t.next.process else s.process))
        × ((commit t at s).observations.native ≡ (if t.reset then none else s.observations.native))
  unfolding commit stamp_changes commit_incarnation
  commit-frame h = ground (arith, commit_reset-frame)

  pub commit-id : (commit t at s).id ≡ s.id
  unfolding commit stamp_changes commit_liveness commit_incarnation commit_reset
  commit-id = ground arith

  pub commit-rejected : t.accepted ≡ false → commit t at s ≡ s
  unfolding commit
  commit-rejected h = ground arith

  -- A terminal transition leaves the session gone; another leaves the presence of its new state.
  pub commit-presence_terminal :
      t.accepted ≡ true → t.terminal ≡ true → presence (commit t at s) ≡ Presence.gone
  unfolding commit presence
  commit-presence_terminal a h = ground arith

  pub commit-presence_live :
      t.accepted ≡ true
      → t.terminal ≡ false
      → t.next.state ≡ IncarnationState.live
      → presence (commit t at s) ≡ Presence.live
  unfolding commit presence
  commit-presence_live a h e = ground arith

  pub commit-presence_starting :
      t.accepted ≡ true
      → t.terminal ≡ false
      → t.next.state ≡ IncarnationState.starting
      → presence (commit t at s) ≡ Presence.unknown
  unfolding commit presence
  commit-presence_starting a h e = ground arith

-- The presence of a session is what `setActivity` and `setDecision` leave alone.
pub set_activity-presence :
    (a : Option Activity) (s : Session) → presence (set_activity a s) ≡ presence s
unfolding set_activity presence
set_activity-presence a s = ground arith

pub set_decision-presence :
    (d : Option ActivityDecision) (s : Session) → presence (set_decision d s) ≡ presence s
unfolding set_decision presence
set_decision-presence d s = ground arith

-- `apply` changes no more than the liveness, and of the presence only for a verification.
module _ (o : Observation) (policy : Policy) (at : Time) (s : Session) where
  pub apply-frame :
      ((apply o policy at s).incarnation ≡ s.incarnation)
      × ((apply o policy at s).process ≡ s.process)
      × ((apply o policy at s).observations ≡ s.observations)
      × ((apply o policy at s).harness ≡ s.harness)
      × ((apply o policy at s).id ≡ s.id)
  unfolding apply
  apply-frame = ground arith

  pub apply-presence :
      as_verification o.evidence ≡ none → presence (apply o policy at s) ≡ presence s
  unfolding apply presence
  apply-presence h = ground arith

  pub apply-presence_verification :
      (v : Verification)
      → o.evidence ≡ Evidence.verification v
      → presence (apply o policy at s)
        ≡ (if is_gone v.presence then Presence.gone else Presence.unknown)
  unfolding apply presence
  apply-presence_verification v h = ground arith
