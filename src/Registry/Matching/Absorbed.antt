-- ===== src/Registry/Matching/Absorbed.antt =====
-- `reconcileResumedProcessSession` of matching.go and the sessions of a store that it leaves.
use aht.Prelude.{
  ◌≡◌, refl, Bool, true, false, String, none, some, Option, is_some, arith, [], ◌∷◌, if◌then◌else◌,
}
use aht.Prelude.Dict.{lookup, Distinct}
use aht.Registry.Model.{Session, Observation, ProcessIdentity}
use aht.Registry.Evidence.{process_identity}
use aht.Registry.Matching.{Sessions}
use aht.Registry.Matching.Resume.{absorb, absorb_entries, reconcile_resumed_process_session}
use aht.Registry.Matching.Sound.{EachEntry, IsSound}

module _ (o : Observation) (p : ProcessIdentity) where
  abbrev left : Session → Sessions → Sessions
  left s sessions = (absorb_entries o p s sessions).1

  absorb_entries-lookup :
      (k : String) (s : Session) (sessions : Sessions)
      → is_some (lookup k sessions) ≡ false
      → is_some (lookup k (left s sessions)) ≡ false
  unfolding absorb_entries lookup
  absorb_entries-lookup k s [] h = refl
  absorb_entries-lookup k s ((id, v) ∷ rest) h =
      let (s', deleted) = absorb o p id v s in
      ground (arith, absorb_entries-lookup k (absorb o p id v s).0 rest)

  absorb_entries-Distinct :
      (s : Session) (sessions : Sessions) → Distinct sessions → Distinct (left s sessions)
  unfolding absorb_entries Distinct
  absorb_entries-Distinct s [] d = tt
  absorb_entries-Distinct s ((id, v) ∷ rest) (fresh, d) =
      go _ (absorb o p id v s).1 (absorb_entries-lookup id (absorb o p id v s).0 rest fresh)
        (absorb_entries-Distinct (absorb o p id v s).0 rest d)
    where
      go :
          (kept : Sessions) (deleted : Bool)
          → is_some (lookup id kept) ≡ false
          → Distinct kept
          → Distinct (if deleted then kept else (id, v) ∷ kept)
      go kept true f d = d
      go kept false f d = (f, d)

  absorb_entries-entries :
      (s : Session) (sessions : Sessions) → EachEntry sessions → EachEntry (left s sessions)
  unfolding absorb_entries EachEntry
  absorb_entries-entries s [] h = tt
  absorb_entries-entries s ((id, v) ∷ rest) (e, h) =
      go _ (absorb o p id v s).1 (absorb_entries-entries (absorb o p id v s).0 rest h)
    where
      go :
          (kept : Sessions) (deleted : Bool)
          → EachEntry kept
          → EachEntry (if deleted then kept else (id, v) ∷ kept)
      go kept true d = d
      go kept false d = (e, d)

pub reconcile_resumed-IsSound :
    (o : Observation) (s : Session) (sessions : Sessions)
    → IsSound sessions
    → IsSound (reconcile_resumed_process_session o s sessions).1
unfolding reconcile_resumed_process_session
reconcile_resumed-IsSound o s sessions h = given (process_identity o)
  where
    given :
        (q : Option ProcessIdentity)
        → let all : Session × Sessions = elim q [
          | none ↦ (s, sessions)
          | some p ↦ absorb_entries o p s sessions
        ] in
          IsSound all.1
    given none = h
    given (some p) = record {
      distinct = absorb_entries-Distinct o p s sessions h.distinct;
      entries = absorb_entries-entries o p s sessions h.entries;
    }
