-- ===== src/Registry/Session/Frames.antt =====
-- What the statements of `applyObservation` in reducer.go leave alone.
use aht.Prelude.{◌≡◌, refl, true, false, some, none, arith, some_and}
use aht.Registry.Model.{Time, Evidence, Session, Observation, ProcessIdentity, Policy, Report}
use aht.Registry.Values.{complete}
use aht.Registry.Evidence.{process_identity, as_report}
use aht.Registry.Authority.{native_ended}
use aht.Registry.Lifecycle.{report_ends}
use aht.Registry.Detail.{resolve_detail}
use aht.Registry.Slots.{store_observation, native_slot}
use aht.Registry.Session.{apply_identity, apply_metadata}

module _ (o : Observation) (at : Time) (s : Session) where
  pub store_observation-frame :
      ((store_observation o at s).incarnation ≡ s.incarnation)
      × ((store_observation o at s).process ≡ s.process)
      × ((store_observation o at s).liveness ≡ s.liveness)
      × ((store_observation o at s).harness ≡ s.harness)
      × ((store_observation o at s).id ≡ s.id)
  unfolding store_observation
  store_observation-frame = ground arith

  pub store_observation-native_report :
      (r : Report)
      → o.evidence ≡ Evidence.report r
      → (store_observation o at s).observations.native ≡ some (native_slot s o r at)
  unfolding store_observation
  store_observation-native_report r e = ground arith

  pub store_observation-native :
      as_report o.evidence ≡ none
      → (store_observation o at s).observations.native ≡ s.observations.native
  unfolding store_observation
  store_observation-native e = ground arith

pub native_ended-native_slot :
    (s : Session) (o : Observation) (r : Report) (at : Time)
    → native_ended (native_slot s o r at) ≡ report_ends r
unfolding native_ended native_slot report_ends
native_ended-native_slot s o r at = refl

module _ (o : Observation) (s : Session) where
  pub apply_identity-frame :
      ((apply_identity o s).incarnation ≡ s.incarnation)
      × ((apply_identity o s).process ≡ s.process)
      × ((apply_identity o s).liveness ≡ s.liveness)
      × ((apply_identity o s).observations ≡ s.observations)
      × ((apply_identity o s).harness ≡ s.harness)
      × ((apply_identity o s).id ≡ s.id)
  unfolding apply_identity
  apply_identity-frame = (refl, refl, refl, refl, refl, refl)

  pub apply_metadata-frame :
      ((apply_metadata o s).incarnation ≡ s.incarnation)
      × ((apply_metadata o s).liveness ≡ s.liveness)
      × ((apply_metadata o s).observations ≡ s.observations)
      × ((apply_metadata o s).harness ≡ s.harness)
      × ((apply_metadata o s).id ≡ s.id)
  unfolding apply_metadata
  apply_metadata-frame = ground arith

  pub apply_metadata-process :
      (p : ProcessIdentity)
      → process_identity o ≡ some p
      → complete p ≡ true
      → (apply_metadata o s).process ≡ some p
  unfolding apply_metadata
  apply_metadata-process p e c = ground arith

  pub apply_metadata-no_process :
      some_and (process_identity o) complete ≡ false → (apply_metadata o s).process ≡ s.process
  unfolding apply_metadata
  apply_metadata-no_process h = ground arith

pub resolve_detail-frame :
    (policy : Policy) (now : Time) (s : Session)
    → ((resolve_detail policy now s).incarnation ≡ s.incarnation)
      × ((resolve_detail policy now s).process ≡ s.process)
      × ((resolve_detail policy now s).liveness ≡ s.liveness)
      × ((resolve_detail policy now s).observations ≡ s.observations)
      × ((resolve_detail policy now s).harness ≡ s.harness)
      × ((resolve_detail policy now s).id ≡ s.id)
unfolding resolve_detail
resolve_detail-frame policy now s = (refl, refl, refl, refl, refl, refl)
