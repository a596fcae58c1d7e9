-- ===== src/Registry/Stored.antt =====
-- pkg/registry/state_validation.go: the test that every stored session passes. `none` is
-- the empty reason, of a session that passes.
pub mod Ready
pub mod Sessions
use aht.Prelude.{
  ◌≡◌, Bool, not, ◌&&◌, String, Option, none, some, some_and, none_or, is_some, pos, ℤ,
  if◌then◌else◌, List, [], ◌∷◌,
}
use aht.Registry.Model.{Presence, IncarnationState, Incarnation, Session, ProcessIdentity}
use aht.Registry.Values.{complete, same_process, presence_eq, is_gone}
use aht.Registry.Liveness.{presence}
use aht.Registry.Authority.{native_ended}

abbrev pub store_schema_version : ℤ
store_schema_version = pos 4

-- A chain of `if bad { return reason }`.
abbrev pub first_reason : List (Bool × String) → Option String
first_reason [] = none
first_reason ((bad, reason) ∷ rest) = if bad then some reason else first_reason rest

-- `if reason := …; reason != "" { return reason }`.
abbrev pub or_else : Option String → Option String → Option String
or_else none rest = rest
or_else (some reason) rest = some reason

-- `incarnationProcessMatches`.
unfoldable pub incarnation_process_matches : Incarnation → Option ProcessIdentity → Bool
incarnation_process_matches current process =
    if complete current.process
    then some_and process (λ p. complete p && same_process current.process p)
    else not (some_and process complete)

-- The `switch` on the state: the presence that it wants, none for a state with no name.
abbrev pub expected_presence : IncarnationState → Option Presence
expected_presence IncarnationState.starting = some Presence.unknown
expected_presence IncarnationState.live = some Presence.live
expected_presence IncarnationState.ended = some Presence.gone
expected_presence IncarnationState.exited = some Presence.gone
expected_presence (IncarnationState.other s) = none

-- `storedIncarnationCorruption`.
unfoldable pub stored_incarnation_corruption : Session → Option String
unfolding native_ended presence presence_eq incarnation_process_matches
stored_incarnation_corruption s = first_reason (
    (
      some_and s.observations.native native_ended && not (is_gone (presence s)),
      "native end is not terminal",
    )
    ∷ (not (is_some (expected_presence s.incarnation.state)), "invalid incarnation state")
    ∷ (
      not (some_and (expected_presence s.incarnation.state) (presence_eq (presence s))),
      "incarnation liveness mismatch",
    )
    ∷ (not (incarnation_process_matches s.incarnation s.process), "incarnation process mismatch")
    ∷ (not (none_or s.incarnation.previous complete), "invalid previous process identity")
    ∷ [])

-- A session whose incarnation passes the test.
abbrev pub IsConsistent : Session → Type 0
IsConsistent s = stored_incarnation_corruption s ≡ none
