-- ===== src/Registry/Reducer/Kept.antt =====
-- The session that `reduceOne` of reducer.go reduces into and the sessions that it leaves.
use aht.Prelude.{
  ◌≡◌, inl, inr, refl, Bool, true, false, String, some, Option, not, ◌&&◌, ◌==◌, arith,
  if◌then◌else◌, subst, sym, Option-cases, ap,
}
use aht.Prelude.Dict.{lookup, insert}
use aht.Registry.Model.{Session, Observation, Time}
use aht.Registry.Values.{complete}
use aht.Registry.Lifecycle.{transition_incarnation}
use aht.Registry.Slots.{
  Result, ok, err, ◌>>=◌, unless_err-eq_ok, sequenced_observation_time, duplicate_sequenced_report,
  observation_dropped,
}
use aht.Registry.Validation.{Rules}
use aht.Registry.Matching.{Sessions, session_at}
use aht.Registry.Matching.Resume.{reconcile_resumed_process_session}
use aht.Registry.Matching.Sound.{IsSound, lookup-IsEntry, insert-IsSound}
use aht.Registry.Matching.Absorbed.{reconcile_resumed-IsSound}
use aht.Registry.Matching.Merged.{session_at-some, session_at-none}
use aht.Registry.Session.{baseline, apply_observation, reduce_session, new_session}
use aht.Registry.Session.Reduction.{Startable, new_session-Startable, reduce_session-IsConsistent}
use aht.Registry.Reducer.{Env, target_session, session_id_for_observation}

module _ (rules : Rules) (sessions : Sessions) (s : Session) (o : Observation) where
  resumed-kept :
      (b : Bool) (s₁ s' : Session) (kept : Sessions)
      → IsSound sessions
      → (if b then reconcile_resumed_process_session o s₁ sessions else (s₁, sessions)) ≡ (s', kept)
      → IsSound kept
  resumed-kept true s₁ s' kept h e =
      subst IsSound (ap (λ (r : Session × Sessions). r.1) e)
        (reconcile_resumed-IsSound o s₁ sessions h)
  resumed-kept false s₁ s' kept h e = subst IsSound (ap (λ (r : Session × Sessions). r.1) e) h

  reduced-kept :
      (at received_at : Time) (applied : Result Session) (s' : Session) (kept : Sessions)
      (d a b : Bool)
      → IsSound sessions
      → (if d
          then ok (s, sessions)
          else if not a
          then err observation_dropped
          else (applied >>= λ s₁.
              ok (if b then reconcile_resumed_process_session o s₁ sessions else (s₁, sessions))))
        ≡ ok (s', kept)
      → IsSound kept
  reduced-kept at received_at applied s' kept true a b h e = subst IsSound (ground arith) h
  reduced-kept at received_at applied s' kept false false b h e = cc
  reduced-kept at received_at applied s' kept false true b h e =
      let (s₁, _, last) = unless_err-eq_ok _ applied e in resumed-kept b s₁ s' kept h (ground arith)

  -- The sessions that `reduceSession` leaves are sound where those before were.
  pub reduce_session-kept :
      (observed received_at : Time) (s' : Session) (kept : Sessions)
      → IsSound sessions
      → reduce_session rules sessions s o observed received_at ≡ ok (s', kept)
      → IsSound kept
  unfolding reduce_session
  reduce_session-kept observed received_at s' kept h e =
      let t = transition_incarnation s o observed false in
      let (at, _, rest) =
        unless_err-eq_ok _ (sequenced_observation_time (baseline t s) o observed) e in
      reduced-kept at received_at (apply_observation rules o at received_at t s) s' kept
        (duplicate_sequenced_report (baseline t s) o) t.accepted
        (t.reset && complete s.incarnation.process) h rest

-- The session that `reduceOne` reduces into is one of the store or a new one.
session_at-Startable :
    (sessions : Sessions) (k : String)
    → IsSound sessions
    → ((session_at k sessions).id == "") ≡ false
    → Startable (session_at k sessions)
session_at-Startable sessions k h n = elim (Option-cases (lookup k sessions)) [
  | inl l ↦ cc (ap (λ (s : Session). s.id == "") (session_at-none k sessions l))
  | inr (s, l) ↦
      subst Startable (sym (session_at-some k s sessions l))
        (inl (lookup-IsEntry k s sessions h l).1)
]

target_session-Startable :
    (env : Env) (sessions : Sessions) (o : Observation) (found : String) (received_at : Time)
    → IsSound sessions
    → Startable (target_session env sessions o found received_at)
unfolding target_session
target_session-Startable env sessions o found received_at h =
    go (not (s.id == "") && not (s.harness == o.harness)) (s.id == "") refl
  where
    fresh_id : String
    fresh_id = session_id_for_observation env o

    id : String
    id = if found == "" then fresh_id else found

    s : Session
    s = session_at id sessions

    go :
        (other unnamed : Bool)
        → (s.id == "") ≡ unnamed
        → Startable (
            if other
            then new_session fresh_id o.harness received_at
            else if unnamed
            then new_session id o.harness received_at
            else s)
    go true unnamed e = new_session-Startable fresh_id o.harness received_at
    go false true e = new_session-Startable id o.harness received_at
    go false false e = session_at-Startable sessions id h e

module _ (env : Env) (o : Observation) (at received_at : Time) where
  unfoldable pub reduce_into : Sessions → String → Result (Sessions × Option Session)
  reduce_into kept found = do
    (s, rest) ←
        reduce_session env.rules kept (target_session env kept o found received_at) o at received_at
    ok (insert s.id s rest, some s)

  pub reduce_into-IsSound :
      (kept : Sessions) (found : String) (out : Sessions) (saved : Option Session)
      → IsSound kept
      → reduce_into kept found ≡ ok (out, saved)
      → IsSound out
  unfolding reduce_into
  reduce_into-IsSound kept found out saved h e =
      let target = target_session env kept o found received_at in
      let ((s, rest), reduced, last) =
        unless_err-eq_ok _ (reduce_session env.rules kept target o at received_at) e in
      let consistent =
        reduce_session-IsConsistent env.rules kept target o at received_at s rest
          (target_session-Startable env kept o found received_at h) reduced in
      let rest-IsSound =
        reduce_session-kept env.rules kept target o at received_at s rest h reduced in
      subst IsSound (ground arith) (insert-IsSound s.id s rest rest-IsSound (refl, consistent))
