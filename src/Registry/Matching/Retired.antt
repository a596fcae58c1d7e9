-- ===== src/Registry/Matching/Retired.antt =====
-- The session that `retireConflictingProcessSessions` of matching.go retires.
use aht.Prelude.{
  ◌≡◌, ◌⊎◌, inl, inr, refl, Bool, true, false, String, some, none_or, [], ◌∷◌, arith, Bool-cases,
  if◌then◌else◌, subst, sym, ◌∙◌,
}
use aht.Registry.Model.{Session, Observation, ProcessIdentity, Time, Authority}
use aht.Registry.Values.{complete, same_process_refl, max_time}
use aht.Registry.Evidence.{process_identity}
use aht.Registry.Liveness.{presence, set_decision}
use aht.Registry.Lifecycle.{transition_incarnation, normalize_incarnation_input}
use aht.Registry.Lifecycle.Retirement.{transition-Retires}
use aht.Registry.Machine.{commit, plain_decision, session_replaced_reason}
use aht.Registry.Machine.Commit.{commit-frame, commit-id, commit-rejected, commit-presence_terminal}
use aht.Registry.Slots.{ok}
use aht.Registry.Stored.{stored_incarnation_corruption, incarnation_process_matches, IsConsistent}
use aht.Registry.Stored.Ready.{IsConsistent-IsReady}
use aht.Registry.Matching.Replacement.{retire_session, rename_gone}
use aht.Registry.Matching.Sound.{IsEntry}

module _ (o : Observation) (p : ProcessIdentity) (named : process_identity o ≡ some p) where
  retired-previous :
      (s : Session) (at : Time)
      → (transition_incarnation s o at true).accepted ≡ true
      → none_or s.incarnation.previous complete ≡ true
      → none_or (commit (transition_incarnation s o at true) at s).incarnation.previous complete
        ≡ true
  unfolding normalize_incarnation_input
  retired-previous s at a h =
      let t = transition_incarnation s o at true in
      let (_, _, _, kept, _, _) = transition-Retires s o at p named a in
      rw ((commit-frame t at s a).0, kept) h

  retired-matches :
      (s : Session) (at : Time)
      → (transition_incarnation s o at true).accepted ≡ true
      → incarnation_process_matches s.incarnation s.process ≡ true
      → incarnation_process_matches
          (commit (transition_incarnation s o at true) at s).incarnation
          (commit (transition_incarnation s o at true) at s).process
        ≡ true
  unfolding normalize_incarnation_input incarnation_process_matches
  retired-matches s at a h =
      let t = transition_incarnation s o at true in
      ground (
        arith,
        commit-frame t at s a,
        transition-Retires s o at p named a,
        same_process_refl s.incarnation.process,
      )

  retired-IsConsistent :
      (s : Session) (at : Time)
      → (transition_incarnation s o at true).accepted ≡ true
      → IsConsistent s
      → IsConsistent (commit (transition_incarnation s o at true) at s)
  unfolding stored_incarnation_corruption
  retired-IsConsistent s at a h =
      let t = transition_incarnation s o at true in
      let v = IsConsistent-IsReady s h in
      ground (
        arith,
        commit-frame t at s a,
        commit-presence_terminal t at s a,
        transition-Retires s o at p named a,
        retired-matches s at a v.process_matches,
        retired-previous s at a v.previous_complete,
      )

  pub commit_retired-IsEntry :
      (id : String) (s : Session) (at : Time)
      → IsEntry id s
      → IsEntry id (commit (transition_incarnation s o at true) at s)
  commit_retired-IsEntry id s at (e, h) =
      let t = transition_incarnation s o at true in
      elim (Bool-cases t.accepted) [
        | inl a ↦ (commit-id t at s ∙ e, retired-IsConsistent s at a h)
        | inr r ↦ subst (IsEntry id) (sym (commit-rejected t at s r)) (e, h)
      ]

-- Two sessions that the test does not tell apart.
abbrev pub Alike : Session → Session → Type 0
Alike r s =
    (r.id ≡ s.id)
    × (r.incarnation ≡ s.incarnation)
    × (r.process ≡ s.process)
    × (r.observations ≡ s.observations)
    × (presence r ≡ presence s)

pub Alike-IsEntry : (id : String) (s r : Session) → IsEntry id s → Alike r s → IsEntry id r
unfolding stored_incarnation_corruption
Alike-IsEntry id s r (e, h) (i, n, q, v, l) = (i ∙ e, rw (n, q, v, l) h)

-- What the rest of the body does to the session that `commit` leaves.
renamed : Observation → ProcessIdentity → Time → Time → Bool → Session → Session
unfolding set_decision
renamed o p at received_at native gone =
    let named =
      if native
      then set_decision (some (plain_decision Authority.hook session_replaced_reason p at))
          (record gone { liveness = rename_gone gone.liveness })
      else gone in
    record named { updated_at = max_time (named.updated_at ∷ received_at ∷ []) }

rename_gone-presence :
    (s : Session) → presence (record s { liveness = rename_gone s.liveness }) ≡ presence s
unfolding presence
rename_gone-presence s = ground arith

renamed-Alike :
    (o : Observation) (p : ProcessIdentity) (at received_at : Time) (native : Bool) (s : Session)
    → Alike (renamed o p at received_at native s) s
unfolding renamed presence
renamed-Alike o p at received_at false s = (refl, refl, refl, refl, refl)
renamed-Alike o p at received_at true s = (refl, refl, refl, refl, ground arith)

retire_session-cases :
    (s r : Session) (o : Observation) (p : ProcessIdentity) (at received_at : Time) (native : Bool)
    → retire_session s o p at received_at native ≡ ok r
    → (s ≡ r)
      ⊎ (renamed o p at received_at native (commit (transition_incarnation s o at true) at s) ≡ r)
unfolding retire_session renamed
retire_session-cases s r o p at received_at native e = ground arith

module _ (o : Observation) (p : ProcessIdentity) (named : process_identity o ≡ some p) where
  pub retire_session-IsEntry :
      (id : String) (s r : Session) (at received_at : Time) (native : Bool)
      → IsEntry id s
      → retire_session s o p at received_at native ≡ ok r
      → IsEntry id r
  retire_session-IsEntry id s r at received_at native h e =
      let t = transition_incarnation s o at true in
      elim (retire_session-cases s r o p at received_at native e) [
        | inl same ↦ subst (IsEntry id) same h
        | inr changed ↦ subst (IsEntry id) changed (
            Alike-IsEntry id (commit t at s) (renamed o p at received_at native (commit t at s))
              (commit_retired-IsEntry o p named id s at h)
              (renamed-Alike o p at received_at native (commit t at s)))
      ]
