-- ===== src/Registry/Matching/Found.antt =====
-- What the searches of matching.go find in the sessions of a store.
use aht.Prelude.{
  ◌≡◌, ◌⊎◌, inl, inr, refl, Bool, true, false, String, none, some, some_and, is_some, [], ◌∷◌, ◌==◌,
  arith, eq_iff, not, ◌&&◌, ◌∙◌, ap, Option-cases, Bool-cases, sym, subst,
}
use aht.Prelude.Dict.{lookup, Distinct}
use aht.Registry.Model.{Session, Observation, Harness, ProcessIdentity}
use aht.Registry.Values.{zero_session, complete, same_process}
use aht.Registry.Evidence.{process_identity}
use aht.Registry.Matching.{
  Sessions, better, best_from, best_matching_session_id, find_process_matching_session,
  identity_conflicts,
}

module _ (harness : Harness) (match : Session → Bool) where
  -- An entry that the search may return.
  abbrev pub IsMatch : Sessions → String × Session → Type 0
  IsMatch sessions (id, s) =
      (lookup id sessions ≡ some s) × (match s ≡ true) × ((s.harness == harness) ≡ true)

  better-cases :
      (entry best : String × Session)
      → (better harness match entry best ≡ best)
        ⊎ ((better harness match entry best ≡ entry)
            × (match entry.1 ≡ true)
            × ((entry.1.harness == harness) ≡ true))
  better-cases (id, s) (best_id, best) = ground arith

  head-IsMatch :
      (id : String) (s : Session) (rest : Sessions)
      → match s ≡ true
      → (s.harness == harness) ≡ true
      → IsMatch ((id, s) ∷ rest) (id, s)
  unfolding lookup
  head-IsMatch id s rest m h = ground (arith, eq_iff id id)

  tail-IsMatch :
      (id : String) (s : Session) (rest : Sessions) (found : String × Session)
      → is_some (lookup id rest) ≡ false
      → IsMatch rest found
      → IsMatch ((id, s) ∷ rest) found
  unfolding lookup
  tail-IsMatch id s rest (k, v) fresh (l, m, h) = ground (arith, eq_iff id k)

  best_from-cases :
      (best : String × Session) (sessions : Sessions)
      → Distinct sessions
      → (best_from harness match best sessions ≡ best)
        ⊎ IsMatch sessions (best_from harness match best sessions)
  unfolding best_from Distinct
  best_from-cases best [] d = inl refl
  best_from-cases best ((id, s) ∷ rest) (fresh, d) =
      elim (best_from-cases (better harness match (id, s) best) rest d) [
        | inr m ↦ inr (tail-IsMatch id s rest _ fresh m)
        | inl e ↦ elim (better-cases (id, s) best) [
          | inl b ↦ inl (e ∙ b)
          | inr (b, m, h) ↦
              inr (subst (IsMatch ((id, s) ∷ rest)) (sym (e ∙ b)) (head-IsMatch id s rest m h))
        ]
      ]

  -- The id that the search returns, unless it is empty, is that of a session of the store of the
  -- harness that passes the test.
  pub best_matching_session_id-found :
      (sessions : Sessions)
      → Distinct sessions
      → (best_matching_session_id sessions harness match == "") ≡ false
      → (s : Session) × IsMatch sessions (best_matching_session_id sessions harness match, s)
  unfolding best_matching_session_id
  best_matching_session_id-found sessions d n =
      elim (best_from-cases ("", zero_session) sessions d) [
        | inl e ↦ cc (ap (λ (b : String × Session). b.0) e)
        | inr m ↦ ((best_from harness match ("", zero_session) sessions).1, m)
      ]

-- The test of `findProcessMatchingSession` on a session.
abbrev pub has_process : Observation → ProcessIdentity → Session → Bool
has_process o p s =
    some_and s.process (λ q. same_process q p) && not (identity_conflicts s o.subject)

find_process-some :
    (sessions : Sessions) (o : Observation) (p : ProcessIdentity)
    → process_identity o ≡ some p
    → complete p ≡ true
    → find_process_matching_session sessions o
      ≡ best_matching_session_id sessions o.harness (has_process o p)
unfolding find_process_matching_session
find_process-some sessions o p e c = rw (e, c, find_process_matching_session) refl

find_process-none :
    (sessions : Sessions) (o : Observation)
    → process_identity o ≡ none
    → find_process_matching_session sessions o ≡ ""
unfolding find_process_matching_session
find_process-none sessions o e = rw (e, find_process_matching_session) refl

find_process-incomplete :
    (sessions : Sessions) (o : Observation) (p : ProcessIdentity)
    → process_identity o ≡ some p
    → complete p ≡ false
    → find_process_matching_session sessions o ≡ ""
unfolding find_process_matching_session
find_process-incomplete sessions o p e c = rw (e, c, find_process_matching_session) refl

pub find_process-process :
    (sessions : Sessions) (o : Observation)
    → (find_process_matching_session sessions o == "") ≡ false
    → (p : ProcessIdentity) × (process_identity o ≡ some p) × (complete p ≡ true)
find_process-process sessions o n = elim (Option-cases (process_identity o)) [
  | inl e ↦
      ground (
        arith,
        eq_iff (find_process_matching_session sessions o) "",
        find_process-none sessions o e,
      )
  | inr (p, e) ↦ elim (Bool-cases (complete p)) [
    | inl c ↦ (p, e, c)
    | inr c ↦ ground (
      arith,
      eq_iff (find_process_matching_session sessions o) "",
      find_process-incomplete sessions o p e c,
    )
  ]
]

-- The session that `findProcessMatchingSession` finds has the process of the observation.
pub find_process-found :
    (sessions : Sessions) (o : Observation) (p : ProcessIdentity)
    → Distinct sessions
    → process_identity o ≡ some p
    → complete p ≡ true
    → (find_process_matching_session sessions o == "") ≡ false
    → (s : Session) × (lookup (find_process_matching_session sessions o) sessions ≡ some s)
      × (some_and s.process (λ q. same_process q p) ≡ true)
      × ((s.harness == o.harness) ≡ true)
find_process-found sessions o p d e c n =
    let same = find_process-some sessions o p e c in
    let (s, (l, m, h)) =
      best_matching_session_id-found o.harness (has_process o p) sessions d (ground arith) in
    (s, ground arith, ground arith, h)
