-- ===== src/Registry/Matching/Resumed.antt =====
-- What `reconcileResumedProcessSession` of matching.go does to the session that resumes.
use aht.Prelude.{◌≡◌, Bool-cases, Option-cases, inl, inr, refl, ◌∙◌, [], ◌∷◌, String}
use aht.Registry.Model.{Session, Observation, ProcessIdentity}
use aht.Registry.Evidence.{process_identity}
use aht.Registry.Stored.{stored_incarnation_corruption}
use aht.Registry.Matching.{Sessions}
use aht.Registry.Matching.Resume.{
  passes_over, absorbed, absorb, absorb_entries, reconcile_resumed_process_session,
}

module _ (o : Observation) (p : ProcessIdentity) where
  absorbed-corruption :
      (provisional s : Session)
      → stored_incarnation_corruption (absorbed o provisional s) ≡ stored_incarnation_corruption s
  unfolding absorbed stored_incarnation_corruption
  absorbed-corruption provisional s = refl

  absorb-corruption :
      (id : String) (provisional s : Session)
      → stored_incarnation_corruption (absorb o p id provisional s).0
        ≡ stored_incarnation_corruption s
  unfolding absorb
  absorb-corruption id provisional s = elim (Bool-cases (passes_over o p id provisional s)) [
    | inl e ↦ rw (e, absorb) refl
    | inr e ↦ rw (e, absorb) (absorbed-corruption provisional s)
  ]

  absorb_entries-corruption :
      (s : Session) (sessions : Sessions)
      → stored_incarnation_corruption (absorb_entries o p s sessions).0
        ≡ stored_incarnation_corruption s
  unfolding absorb_entries
  absorb_entries-corruption s [] = refl
  absorb_entries-corruption s ((id, provisional) ∷ rest) =
      absorb_entries-corruption (absorb o p id provisional s).0 rest
      ∙ absorb-corruption id provisional s

pub reconcile_resumed-corruption :
    (o : Observation) (s : Session) (sessions : Sessions)
    → stored_incarnation_corruption (reconcile_resumed_process_session o s sessions).0
      ≡ stored_incarnation_corruption s
unfolding reconcile_resumed_process_session
reconcile_resumed-corruption o s sessions = elim (Option-cases (process_identity o)) [
  | inl e ↦ rw (e, reconcile_resumed_process_session) refl
  | inr (p, e) ↦
      rw (e, reconcile_resumed_process_session) (absorb_entries-corruption o p s sessions)
]
