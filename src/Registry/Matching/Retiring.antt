-- ===== src/Registry/Matching/Retiring.antt =====
-- `retireConflictingProcessSessions` of matching.go over the sessions of a store.
use aht.Prelude.{
  ◌≡◌, refl, Bool, true, false, String, none, some, Option, is_some, [], ◌∷◌, arith, if◌then◌else◌,
  subst, ◌∙◌,
}
use aht.Prelude.Dict.{lookup, Distinct}
use aht.Registry.Model.{Session, Observation, ProcessIdentity, Time}
use aht.Registry.Values.{complete}
use aht.Registry.Evidence.{process_identity}
use aht.Registry.Slots.{Result, ok, unless_err-eq_ok}
use aht.Registry.Validation.{Rules}
use aht.Registry.Matching.{Sessions}
use aht.Registry.Matching.Replacement.{
  conflicting_session_replacement, retire_session, retire_entries,
  retire_conflicting_process_sessions,
}
use aht.Registry.Matching.Sound.{IsEntry, EachEntry, IsSound}
use aht.Registry.Matching.Retired.{retire_session-IsEntry}

module _ (rules : Rules) (o : Observation) (p : ProcessIdentity) (at received_at : Time) where
  abbrev retire_all : Sessions → Result Sessions
  retire_all sessions = retire_entries rules o p at received_at sessions

  abbrev step : Session → Result Session
  step s =
      let (replace, native_replacement) = conflicting_session_replacement rules s o p in
      if replace then retire_session s o p at received_at native_replacement else ok s

  retire_entries-nil : (out : Sessions) → retire_all [] ≡ ok out → [] ≡ out
  unfolding retire_entries
  retire_entries-nil out e = ground arith

  retire_entries-cons :
      (id : String) (s : Session) (rest out : Sessions)
      → retire_all ((id, s) ∷ rest) ≡ ok out
      → (s' : Session) × (rest' : Sessions) × (step s ≡ ok s')
        × (retire_all rest ≡ ok rest')
        × ((id, s') ∷ rest' ≡ out)
  unfolding retire_entries
  retire_entries-cons id s rest out e =
      let (s', one, more) = unless_err-eq_ok _ (step s) e in
      let (rest', others, last) = unless_err-eq_ok _ (retire_all rest) more in
      (s', rest', one, others, ground arith)

  retire_entries-lookup :
      (k : String) (sessions out : Sessions)
      → retire_all sessions ≡ ok out
      → is_some (lookup k out) ≡ is_some (lookup k sessions)
  unfolding lookup
  retire_entries-lookup k [] out e =
      subst (λ all. is_some (lookup k all) ≡ false) (retire_entries-nil out e) refl
  retire_entries-lookup k ((id, s) ∷ rest) out e =
      let (s', rest', one, others, last) = retire_entries-cons id s rest out e in
      subst (λ all. is_some (lookup k all) ≡ is_some (lookup k ((id, s) ∷ rest))) last
        (ground (arith, retire_entries-lookup k rest rest' others))

  retire_entries-Distinct :
      (sessions out : Sessions) → retire_all sessions ≡ ok out → Distinct sessions → Distinct out
  unfolding Distinct
  retire_entries-Distinct [] out e d = subst Distinct (retire_entries-nil out e) tt
  retire_entries-Distinct ((id, s) ∷ rest) out e (fresh, d) =
      let (s', rest', one, others, last) = retire_entries-cons id s rest out e in
      subst Distinct last (
        retire_entries-lookup id rest rest' others ∙ fresh,
        retire_entries-Distinct rest rest' others d,
      )

  step-IsEntry :
      process_identity o ≡ some p
      → (id : String) (s s' : Session) → step s ≡ ok s'
      → IsEntry id s
      → IsEntry id s'
  step-IsEntry named id s s' e h =
      let (replace, native) = conflicting_session_replacement rules s o p in go replace native e
    where
      go :
          (replace native : Bool)
          → (if replace then retire_session s o p at received_at native else ok s) ≡ ok s'
          → IsEntry id s'
      go true native e = retire_session-IsEntry o p named id s s' at received_at native h e
      go false native e = ground arith

  retire_entries-entries :
      process_identity o ≡ some p
      → (sessions out : Sessions) → retire_all sessions ≡ ok out
      → EachEntry sessions
      → EachEntry out
  unfolding EachEntry
  retire_entries-entries named [] out e h = subst EachEntry (retire_entries-nil out e) tt
  retire_entries-entries named ((id, s) ∷ rest) out e (head, h) =
      let (s', rest', one, others, last) = retire_entries-cons id s rest out e in
      subst EachEntry last
        (step-IsEntry named id s s' one head, retire_entries-entries named rest rest' others h)

-- Where the sessions are sound and `retireConflictingProcessSessions` succeeds, the sessions that
-- it leaves are sound.
pub retire_conflicting-IsSound :
    (rules : Rules) (sessions out : Sessions) (o : Observation) (at received_at : Time)
    → IsSound sessions
    → retire_conflicting_process_sessions rules sessions o at received_at ≡ ok out
    → IsSound out
unfolding retire_conflicting_process_sessions
retire_conflicting-IsSound rules sessions out o at received_at h e =
    given (process_identity o) refl e
  where
    known :
        (p : ProcessIdentity) (b : Bool)
        → process_identity o ≡ some p
        → (if b then retire_entries rules o p at received_at sessions else ok sessions) ≡ ok out
        → IsSound out
    known p true named e = record {
      distinct = retire_entries-Distinct rules o p at received_at sessions out e h.distinct;
      entries = retire_entries-entries rules o p at received_at named sessions out e h.entries;
    }
    known p false named e = subst IsSound (ground arith) h

    given :
        (q : Option ProcessIdentity)
        → process_identity o ≡ q
        → (elim q [
          | none ↦ ok sessions
          | some p ↦
              if complete p then retire_entries rules o p at received_at sessions else ok sessions
        ])
          ≡ ok out
        → IsSound out
    given none named e = subst IsSound (ground arith) h
    given (some p) named e = known p (complete p) named e
