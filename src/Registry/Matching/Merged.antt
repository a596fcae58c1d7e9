-- ===== src/Registry/Matching/Merged.antt =====
-- `findAndReconcileMatchingSession` of matching.go and the sessions of a store that it leaves.
use aht.Prelude.{
  ◌⊎◌, ◌≡◌, refl, Bool, true, false, String, none, some, some_and, Option, arith, eq_iff, ◌==◌, not,
  ◌&&◌, if◌then◌else◌, subst, ◌∙◌, sym, [], ◌∷◌, ap, inl, inr, is_some,
}
use aht.Prelude.Dict.{lookup, insert, remove, lookup-insert}
use aht.Registry.Model.{Session, Observation, ProcessIdentity, Time}
use aht.Registry.Values.{complete, same_process, max_time, zero_session}
use aht.Registry.Evidence.{process_identity}
use aht.Registry.Liveness.{presence}
use aht.Registry.Lifecycle.{transition_incarnation}
use aht.Registry.Machine.{commit}
use aht.Registry.Stored.{stored_incarnation_corruption}
use aht.Registry.Matching.{
  Sessions, session_at, merge_provisional_session, merge_observations, merge_provisional_metadata,
  retire_prior, reconcile_identity_process_sessions, find_and_reconcile_matching_session,
  find_process_matching_session, find_identity_matching_session,
}
use aht.Registry.Matching.Sound.{IsEntry, IsSound, lookup-IsEntry, insert-IsSound, remove-IsSound}
use aht.Registry.Matching.Retired.{commit_retired-IsEntry}
use aht.Registry.Matching.Found.{find_process-process, find_process-found}

-- A merge into a session with a known process.
merge-Alike :
    (target provisional : Session)
    → some_and target.process complete ≡ true
    → (merge_provisional_session target provisional).observations.native
      ≡ target.observations.native
unfolding merge_provisional_session merge_observations merge_provisional_metadata
merge-Alike target provisional c = ground arith

merge-IsEntry :
    (k : String) (target provisional : Session)
    → some_and target.process complete ≡ true
    → IsEntry k target
    → IsEntry k (merge_provisional_session target provisional)
unfolding merge_provisional_session merge_provisional_metadata stored_incarnation_corruption
    presence
merge-IsEntry k target provisional c (e, h) = (e, rw (merge-Alike target provisional c) h)

pub session_at-some :
    (k : String) (s : Session) (sessions : Sessions)
    → lookup k sessions ≡ some s
    → session_at k sessions ≡ s
unfolding session_at
session_at-some k s sessions e = rw (e, session_at) refl

pub session_at-none :
    (k : String) (sessions : Sessions)
    → lookup k sessions ≡ none
    → session_at k sessions ≡ zero_session
unfolding session_at
session_at-none k sessions e = rw (e, session_at) refl

module _ (o : Observation) (p : ProcessIdentity) (named : process_identity o ≡ some p) where
  abbrev retired : Session → Time → Session
  retired s at =
      let gone = commit (transition_incarnation s o at true) at s in
      record gone { updated_at = max_time (gone.updated_at ∷ at ∷ []) }

  retired-IsEntry : (k : String) (s : Session) (at : Time) → IsEntry k s → IsEntry k (retired s at)
  unfolding stored_incarnation_corruption presence
  retired-IsEntry k s at h = commit_retired-IsEntry o p named k s at h

  abbrev has_other : Session → Bool
  has_other s =
      some_and s.process (λ q. not (some_and (process_identity o) (λ p. same_process q p)))

  retire_prior-IsSound :
      (sessions : Sessions) (at : Time) (k : String)
      → IsSound sessions
      → IsSound (retire_prior sessions o at k)
  unfolding retire_prior
  retire_prior-IsSound sessions at k h =
      go (lookup k sessions) refl (has_other (session_at k sessions)) refl
    where
      go :
          (found : Option Session)
          → lookup k sessions ≡ found
          → (b : Bool) → has_other (session_at k sessions) ≡ b
          → IsSound (if b then insert k (retired (session_at k sessions) at) sessions else sessions)
      go found l false e = h
      go none l true e = cc (ap has_other (session_at-none k sessions l))
      go (some s) l true e = insert-IsSound k (retired (session_at k sessions) at) sessions h (
          retired-IsEntry k (session_at k sessions) at (
            subst (IsEntry k) (sym (session_at-some k s sessions l))
              (lookup-IsEntry k s sessions h l)))

  retire_prior-lookup :
      (sessions : Sessions) (at : Time) (k j : String)
      → (k == j) ≡ false
      → lookup j (retire_prior sessions o at k) ≡ lookup j sessions
  unfolding retire_prior
  retire_prior-lookup sessions at k j d = go (has_other (session_at k sessions))
    where
      go :
          (b : Bool)
          → lookup j
              (if b then insert k (retired (session_at k sessions) at) sessions else sessions)
            ≡ lookup j sessions
      go false = refl
      go true = lookup-insert k j (retired (session_at k sessions) at) sessions ∙ rw d refl

  merged-IsSound :
      (sessions : Sessions) (at : Time) (k j : String) (target : Session)
      → (k == j) ≡ false
      → IsSound sessions
      → lookup j sessions ≡ some target
      → some_and target.process complete ≡ true
      → IsSound (reconcile_identity_process_sessions sessions o at k j).0
  unfolding reconcile_identity_process_sessions
  merged-IsSound sessions at k j target d h l c =
      go (not (k == "") && not (j == "") && not (k == j))
        (not (is_some (session_at k kept).process))
    where
      kept : Sessions
      kept = retire_prior sessions o at k

      kept-IsSound : IsSound kept
      kept-IsSound = retire_prior-IsSound sessions at k h

      there : lookup j kept ≡ some target
      there = retire_prior-lookup sessions at k j d ∙ l

      merged-entry :
          (provisional : Session)
          → IsEntry j (merge_provisional_session (session_at j kept) provisional)
      merged-entry provisional =
          rw (session_at-some j target kept there)
            (merge-IsEntry j target provisional c (lookup-IsEntry j target kept kept-IsSound there))

      go :
          (b merges : Bool)
          → let all : Sessions × Bool =
              (if b
                then (if merges
                    then (
                      remove k (
                          insert j
                            (merge_provisional_session (session_at j kept) (session_at k kept))
                            kept),
                      true,
                    )
                    else (kept, false))
                else (sessions, false)) in
            IsSound all.0
      go false merges = h
      go true false = kept-IsSound
      go true true =
          remove-IsSound k _
            (insert-IsSound j _ kept kept-IsSound (merged-entry (session_at k kept)))

reconcile-untouched :
    (sessions : Sessions) (o : Observation) (at : Time) (k j : String)
    → (not (k == "") && not (j == "") && not (k == j)) ≡ false
    → (reconcile_identity_process_sessions sessions o at k j).0 ≡ sessions
unfolding reconcile_identity_process_sessions
reconcile-untouched sessions o at k j e = rw (e, reconcile_identity_process_sessions) refl

complete-same_process :
    (s : Session) (p : ProcessIdentity)
    → complete p ≡ true
    → some_and s.process (λ q. same_process q p) ≡ true
    → some_and s.process complete ≡ true
unfolding same_process complete
complete-same_process s p c h =
    ground (arith, λ (q : ProcessIdentity). eq_iff q.start_identity p.start_identity)

reconcile-IsSound :
    (sessions : Sessions) (o : Observation) (at : Time) (k : String)
    → IsSound sessions
    → IsSound
        (reconcile_identity_process_sessions sessions o at k
          (find_process_matching_session sessions o)).0
reconcile-IsSound sessions o at k h = go (not (k == "") && not (j == "") && not (k == j)) refl
  where
    j : String
    j = find_process_matching_session sessions o

    go :
        (b : Bool)
        → (not (k == "") && not (j == "") && not (k == j)) ≡ b
        → IsSound (reconcile_identity_process_sessions sessions o at k j).0
    go false e = subst IsSound (sym (reconcile-untouched sessions o at k j e)) h
    go true e =
        let (p, named, c) = find_process-process sessions o (ground arith) in
        let (target, l, same, _) =
          find_process-found sessions o p h.distinct named c (ground arith) in
        merged-IsSound o p named sessions at k j target (ground arith) h l
          (complete-same_process target p c same)

find_and_reconcile-cases :
    (sessions : Sessions) (o : Observation) (at : Time)
    → let merged =
        reconcile_identity_process_sessions sessions o at
          (find_identity_matching_session sessions o)
          (find_process_matching_session sessions o) in
      ((find_and_reconcile_matching_session sessions o at).0 ≡ sessions)
      ⊎ ((find_and_reconcile_matching_session sessions o at).0 ≡ merged.0)
unfolding find_and_reconcile_matching_session
find_and_reconcile-cases sessions o at = ground arith

-- Where the sessions are sound, those that `findAndReconcileMatchingSession` leaves are sound,
-- also where it merges a session into the one that has the process of the observation.
pub find_and_reconcile-IsSound :
    (sessions : Sessions) (o : Observation) (at : Time)
    → IsSound sessions
    → IsSound (find_and_reconcile_matching_session sessions o at).0
find_and_reconcile-IsSound sessions o at h = elim (find_and_reconcile-cases sessions o at) [
  | inl e ↦ subst IsSound (sym e) h
  | inr e ↦
      subst IsSound (sym e)
        (reconcile-IsSound sessions o at (find_identity_matching_session sessions o) h)
]
