-- ===== src/Registry/Journal/Soundness.antt =====
-- The commands of journal.go, the recovery and the sessions of a snapshot.
use aht.Prelude.{
  ◌≡◌, ℤ, pos, negsuc, Bool, true, false, none, some, Option, arith, if◌then◌else◌, subst,
}
use aht.Prelude.Dict.{Distinct}
use aht.Registry.Slots.{ok, ◌>>=◌, unless_err-eq_ok}
use aht.Registry.Matching.Sound.{EachEntry, IsSound}
use aht.Registry.Snapshot.{Snapshot, prune_ended_processes, remove_gone_process_only_sessions}
use aht.Registry.Snapshot.Expiry.{delete_expired-IsSound, remove_gone-IsSound}
use aht.Registry.Reducer.{Env, apply_observation_batch}
use aht.Registry.Reducer.Soundness.{apply_observation_batch-IsSound}
use aht.Registry.Journal.{
  Context, JournalEntry, JournalResult, reset_entry, gc_entry, observe_entry, finish_entry,
  apply_journal_entry,
}

abbrev pub SoundSnapshot : Snapshot → Type 0
SoundSnapshot snap = IsSound snap.sessions

reset_entry-IsSound :
    (snap : Snapshot) (entry : JournalEntry) → SoundSnapshot (reset_entry snap entry).0
unfolding reset_entry Distinct EachEntry
reset_entry-IsSound snap entry = record { distinct = tt; entries = tt }

gc_entry-IsSound :
    (snap : Snapshot) (entry : JournalEntry) (d : ℤ)
    → SoundSnapshot snap
    → SoundSnapshot (gc_entry snap entry d).0
unfolding gc_entry prune_ended_processes
gc_entry-IsSound snap entry (pos n) h =
    delete_expired-IsSound snap.sessions entry.received_at (pos n) h
gc_entry-IsSound snap entry (negsuc n) h =
    delete_expired-IsSound snap.sessions entry.received_at (negsuc n) h

module _ (env : Env) (done : Context) where
  observe_entry-IsSound :
      (snap : Snapshot) (entry : JournalEntry) (next : Snapshot) (result : JournalResult)
      → SoundSnapshot snap
      → observe_entry env done snap entry ≡ ok (next, result)
      → SoundSnapshot next
  unfolding observe_entry
  observe_entry-IsSound snap entry next result h e =
      let (b, applied, last) =
        unless_err-eq_ok _
          (apply_observation_batch env done snap entry.observations entry.received_at) e in
      let kept : Snapshot = (remove_gone_process_only_sessions b.snapshot).0 in
      let same : kept.sessions ≡ next.sessions = ground arith in
      subst IsSound same (
        remove_gone-IsSound b.snapshot (
          apply_observation_batch-IsSound env done entry.received_at snap entry.observations b h
            applied))

  -- A command of the journal leaves sound sessions where those before were sound.
  pub apply_journal_entry-IsSound :
      (snap : Snapshot) (entry : JournalEntry) (next : Snapshot) (result : JournalResult)
      → SoundSnapshot snap
      → apply_journal_entry env done snap entry ≡ ok (next, result)
      → SoundSnapshot next
  unfolding apply_journal_entry
  apply_journal_entry-IsSound snap entry next result h e = go entry.reset entry.delete_after e
    where
      go :
          (resets : Bool) (gc : Option ℤ)
          → (if resets then ok (finish_entry snap entry (reset_entry snap entry)) else elim gc [
            | some d ↦ ok (finish_entry snap entry (gc_entry snap entry d))
            | none ↦ observe_entry env done snap entry >>= λ applied.
                ok (finish_entry snap entry applied)
          ])
            ≡ ok (next, result)
          → SoundSnapshot next
      go true gc e =
          let same : (reset_entry snap entry).0.sessions ≡ next.sessions = ground arith in
          subst IsSound same (reset_entry-IsSound snap entry)
      go false (some d) e =
          let same : (gc_entry snap entry d).0.sessions ≡ next.sessions = ground arith in
          subst IsSound same (gc_entry-IsSound snap entry d h)
      go false none e =
          let ((applied, r), step, last) =
            unless_err-eq_ok _ (observe_entry env done snap entry) e in
          let same : applied.sessions ≡ next.sessions = ground arith in
          subst IsSound same (observe_entry-IsSound snap entry applied r h step)
