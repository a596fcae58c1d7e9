-- ===== src/Registry/Journal/Replay.antt =====
-- `replayJournal` of journal.go, which takes the journal entries of other processes into memory.
use aht.Prelude.{
  ◌≡◌, ◌≤◌, ℕ, refl, Bool, true, false, none, some, Option, List, [], ◌∷◌, ◌++◌, ◌+◌, ◌||◌, is_some,
  arith, if◌then◌else◌, subst, leb,
}
use aht.Registry.Model.{Observation}
use aht.Registry.Slots.{Error, Result, ok, err, ◌>>=◌, unless_err-eq_ok}
use aht.Registry.Matching.Sound.{IsSound}
use aht.Registry.Snapshot.{Snapshot, clone_for_mutation}
use aht.Registry.Reducer.{Env}
use aht.Registry.Journal.{
  Context, JournalEntry, JournalResult, DecodedEntry, apply_journal_entry, replay_observation,
  replay_observations, replay_command, replay_batch, replay_entry, replay_entries, replay_journal,
}
use aht.Registry.Journal.Fold.{apply_journal_entry-sequence}
use aht.Registry.Journal.Soundness.{SoundSnapshot, apply_journal_entry-IsSound}

module _ (env : Env) (done : Context) where
  replay_observation-IsSound :
      (candidate : Snapshot) (entry : JournalEntry) (o : Observation) (next : Snapshot)
      (dropped : List Error)
      → SoundSnapshot candidate
      → replay_observation env done candidate entry o ≡ ok (next, dropped)
      → SoundSnapshot next
  unfolding replay_observation
  replay_observation-IsSound candidate entry o next dropped h e =
      go (apply_journal_entry env done (clone_for_mutation candidate) single) refl e
    where
      single : JournalEntry
      single = record entry { observations = o ∷ [] }

      go :
          (r : Result (Snapshot × JournalResult))
          → apply_journal_entry env done (clone_for_mutation candidate) single ≡ r
          → elim r as (λ x. Result (Snapshot × List Error)) [
            | err Error.canceled ↦ err Error.canceled
            | err Error.observation_conflict ↦ ok (candidate, Error.observation_conflict ∷ [])
            | err Error.invalid_observation ↦ ok (candidate, Error.invalid_observation ∷ [])
            | err Error.observation_dropped ↦ err Error.observation_dropped
            | ok (next, result) ↦ ok (record next { dropped = [] }, next.dropped)
          ]
            ≡ ok (next, dropped)
          → SoundSnapshot next
      go (err Error.canceled) a e = cc
      go (err Error.observation_dropped) a e = cc
      go (err Error.observation_conflict) a e =
          let same : candidate.sessions ≡ next.sessions = ground arith in subst IsSound same h
      go (err Error.invalid_observation) a e =
          let same : candidate.sessions ≡ next.sessions = ground arith in subst IsSound same h
      go (ok (applied, result)) a e =
          let same : applied.sessions ≡ next.sessions = ground arith in
          subst IsSound same (
            apply_journal_entry-IsSound env done (clone_for_mutation candidate) single applied
              result h a)

  replay_observations-IsSound :
      (d : DecodedEntry) (observations : List Observation) (candidate : Snapshot) (index : ℕ)
      (out : Snapshot) (errors : List Error)
      → SoundSnapshot candidate
      → replay_observations env done candidate d index observations ≡ ok (out, errors)
      → SoundSnapshot out
  unfolding replay_observations
  replay_observations-IsSound d [] candidate index out errors h e =
      let same : candidate.sessions ≡ out.sessions = ground arith in subst IsSound same h
  replay_observations-IsSound d (o ∷ rest) candidate index out errors h e =
      go (d.rejected index) e λ next final more h' e'.
        replay_observations-IsSound d rest next (index + 1) final more h' e'
    where
      Later : Type 0
      Later =
          (next final : Snapshot) (more : List Error)
          → SoundSnapshot next
          → replay_observations env done next d (index + 1) rest ≡ ok (final, more)
          → SoundSnapshot final

      go :
          (rejected : Option Error)
          → elim rejected as (λ x. Result (Snapshot × List Error)) [
            | some e ↦ do
              (final, more) ← replay_observations env done candidate d (index + 1) rest
              ok (final, e ∷ more)
            | none ↦ do
              (next, dropped) ← replay_observation env done candidate d.entry o
              (final, more) ← replay_observations env done next d (index + 1) rest
              ok (final, dropped ++ more)
          ]
            ≡ ok (out, errors)
          → Later
          → SoundSnapshot out
      go (some x) e later =
          let ((final, more), step, last) =
            unless_err-eq_ok _ (replay_observations env done candidate d (index + 1) rest) e in
          let same : final.sessions ≡ out.sessions = ground arith in
          subst IsSound same (later candidate final more h step)
      go none e later =
          let ((next, dropped), one, others) =
            unless_err-eq_ok _ (replay_observation env done candidate d.entry o) e in
          let ((final, more), step, last) =
            unless_err-eq_ok _ (replay_observations env done next d (index + 1) rest) others in
          let same : final.sessions ≡ out.sessions = ground arith in
          subst IsSound same (
            later next final more
              (replay_observation-IsSound candidate d.entry o next dropped h one) step)

  -- A snapshot that is sound and stands at a sequence.
  abbrev IsAt : ℕ → Snapshot → Type 0
  IsAt n snap = SoundSnapshot snap × (snap.journal_sequence ≡ n)

  replay_command-IsAt :
      (candidate : Snapshot) (entry : JournalEntry) (next : Snapshot) (errors : List Error)
      → SoundSnapshot candidate
      → replay_command env done candidate entry ≡ ok (next, errors)
      → IsAt entry.sequence next
  unfolding replay_command
  replay_command-IsAt candidate entry next errors h e =
      let ((applied, result), step, last) =
        unless_err-eq_ok _ (apply_journal_entry env done candidate entry) e in
      let same : applied ≡ next = ground arith in
      subst (IsAt entry.sequence) same (
        apply_journal_entry-IsSound env done candidate entry applied result h step,
        apply_journal_entry-sequence env done candidate entry applied result step,
      )

  replay_batch-IsAt :
      (candidate : Snapshot) (d : DecodedEntry) (next : Snapshot) (errors : List Error)
      → SoundSnapshot candidate
      → replay_batch env done candidate d ≡ ok (next, errors)
      → IsAt d.entry.sequence next
  unfolding replay_batch
  replay_batch-IsAt candidate d next errors h e =
      let ((applied, dropped), step, last) =
        unless_err-eq_ok _ (replay_observations env done candidate d 0 d.entry.observations) e in
      let same : applied.sessions ≡ next.sessions = ground arith in
      (
        subst IsSound same
            (replay_observations-IsSound d d.entry.observations candidate 0 applied dropped h step),
        ground arith,
      )

  replay_entry-IsAt :
      (candidate : Snapshot) (d : DecodedEntry) (next : Snapshot) (errors : List Error)
      → SoundSnapshot candidate
      → replay_entry env done candidate d ≡ ok (next, errors)
      → IsAt d.entry.sequence next
  unfolding replay_entry
  replay_entry-IsAt candidate d next errors h e =
      go (d.entry.reset || is_some d.entry.delete_after) e
    where
      go :
          (command : Bool)
          → (if command
              then replay_command env done candidate d.entry
              else replay_batch env done candidate d)
            ≡ ok (next, errors)
          → IsAt d.entry.sequence next
      go true e = replay_command-IsAt candidate d.entry next errors h e
      go false e = replay_batch-IsAt candidate d next errors h e

  -- The rounds keep the sessions sound and never lower the sequence.
  replay_entries-IsSound :
      (entries : List DecodedEntry) (candidate out : Snapshot) (errors : List Error)
      → SoundSnapshot candidate
      → replay_entries env done candidate entries ≡ ok (out, errors)
      → SoundSnapshot out × (candidate.journal_sequence ≤ out.journal_sequence)
  unfolding replay_entries
  replay_entries-IsSound [] candidate out errors h e =
      let same : candidate ≡ out = ground arith in (subst SoundSnapshot same h, ground arith)
  replay_entries-IsSound (d ∷ rest) candidate out errors h e =
      go (leb d.entry.sequence candidate.journal_sequence) refl e
        λ next final more h' e'. replay_entries-IsSound rest next final more h' e'
    where
      Later : Type 0
      Later =
          (next final : Snapshot) (more : List Error)
          → SoundSnapshot next
          → replay_entries env done next rest ≡ ok (final, more)
          → SoundSnapshot final × (next.journal_sequence ≤ final.journal_sequence)

      after : Snapshot × List Error → Result (Snapshot × List Error)
      after (next, dropped) = replay_entries env done next rest >>= λ (r : Snapshot × List Error).
          ok (r.0, dropped ++ r.1)

      go :
          (skips : Bool)
          → leb d.entry.sequence candidate.journal_sequence ≡ skips
          → (if skips
              then replay_entries env done candidate rest
              else replay_entry env done candidate d >>= after)
            ≡ ok (out, errors)
          → Later
          → SoundSnapshot out × (candidate.journal_sequence ≤ out.journal_sequence)
      go true s e later = later candidate out errors h e
      go false s e later =
          let ((next, dropped), one, others) =
            unless_err-eq_ok _ (replay_entry env done candidate d) e in
          let ((final, more), step, last) =
            unless_err-eq_ok _ (replay_entries env done next rest) others in
          let (sound, at) = replay_entry-IsAt candidate d next dropped h one in
          let (sound', grows) = later next final more sound step in
          let same : final ≡ out = ground arith in (subst SoundSnapshot same sound', ground arith)

  -- Where `replayJournal` succeeds on a snapshot with sound sessions, whatever observations it
  -- rejects, it leaves sound sessions and a journal sequence that is no smaller.
  pub replay_journal-IsSound :
      (entries : List DecodedEntry) (candidate out : Snapshot) (errors : List Error)
      → SoundSnapshot candidate
      → replay_journal env done candidate entries ≡ ok (out, errors)
      → SoundSnapshot out × (candidate.journal_sequence ≤ out.journal_sequence)
  unfolding replay_journal
  replay_journal-IsSound entries candidate out errors h e =
      replay_entries-IsSound entries (clone_for_mutation candidate) out errors h e
