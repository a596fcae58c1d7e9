-- ===== src/Registry/Stored/Ready.antt =====
-- The test of state_validation.go on an incarnation, part by part.
use aht.Prelude.{◌≡◌, ◌⊎◌, true, some, some_and, none_or, arith, eq_iff}
use aht.Registry.Model.{Presence, Session}
use aht.Registry.Values.{complete, presence_eq}
use aht.Registry.Liveness.{presence}
use aht.Registry.Lifecycle.{is_blank}
use aht.Registry.Authority.{native_ended}
use aht.Registry.Stored.{
  IsConsistent, expected_presence, incarnation_process_matches, stored_incarnation_corruption,
}

-- A stored session, or one that `newSession` made and no observation has reached.
pub record IsReady (s : Session) : Type 0 where
  pub process_matches : incarnation_process_matches s.incarnation s.process ≡ true
  pub previous_complete : none_or s.incarnation.previous complete ≡ true
  pub presence_matches :
      ((is_blank s.incarnation.state ≡ true) × (presence s ≡ Presence.unknown))
      ⊎ (expected_presence s.incarnation.state ≡ some (presence s))
  pub native_end : some_and s.observations.native native_ended ≡ true → presence s ≡ Presence.gone

presence_eq→eq : (p q : Presence) → presence_eq p q ≡ true → p ≡ q
unfolding presence_eq
presence_eq→eq Presence.live q h = ground arith
presence_eq→eq Presence.gone q h = ground arith
presence_eq→eq Presence.unknown q h = ground arith
presence_eq→eq (Presence.other s) (Presence.other t) h = ground (arith, eq_iff s t)
presence_eq→eq (Presence.other s) _ h = cc

pub IsConsistent-IsReady : (s : Session) → IsConsistent s → IsReady s
unfolding stored_incarnation_corruption
IsConsistent-IsReady s h = record {
  process_matches = ground arith;
  previous_complete = ground arith;
  presence_matches = ground (arith, λ (p : Presence). presence_eq→eq (presence s) p);
  native_end = λ e. ground arith;
}
