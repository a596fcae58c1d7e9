-- ===== src/Registry/Journal.antt =====
-- pkg/registry/journal.go: the commands of the journal, their reduction into a snapshot and the
-- recovery of a snapshot from the journal. Files, locks and the encoding are not modelled: a
-- journal is the list of its decoded entries.

pub mod Fold
pub mod Replay
pub mod Soundness
use aht.Prelude.{
  ℕ, ℤ, pos, negsuc, ◌+◌, ◌%◌, ◌^◌, Bool, true, false, not, ◌&&◌, ◌||◌, Option, none, some, is_some,
  List, [], ◌∷◌, ◌++◌, leb, if◌then◌else◌,
}
use aht.Registry.Model.{Time, Observation, Session}
use aht.Registry.Values.{max_time}
use aht.Registry.Slots.{Error, Result, ok, err, ◌>>=◌}
use aht.Registry.Matching.{Sessions}
use aht.Registry.Changes.{Change, state_changes}
use aht.Registry.Snapshot.{
  Snapshot, clone_for_mutation, new_snapshot, remove_gone_process_only_sessions,
  prune_ended_processes, delete_expired_gone_sessions,
}
use aht.Registry.Reducer.{Env, apply_observation_batch}

-- `journalEntry`.
pub record JournalEntry : Type 0 where
  pub sequence : ℕ  -- uint64
  pub received_at : Time
  pub observations : List Observation
  pub delete_after : Option ℤ  -- *time.Duration
  pub reset : Bool

-- `GCResult` and `ResetResult`.
pub record GcResult : Type 0 where
  pub deleted : ℕ
  pub remaining : ℕ

pub record ResetResult : Type 0 where
  pub cleared : ℕ
  pub remaining : ℕ

-- `journalResult`.
pub record JournalResult : Type 0 where
  pub changes : List Change
  pub sessions : List Session
  pub gc : GcResult
  pub reset : ResetResult
  pub ended : ℕ

abbrev pub empty_result : JournalResult
empty_result = record {
  changes = [];
  sessions = [];
  gc = record { deleted = 0; remaining = 0 };
  reset = record { cleared = 0; remaining = 0 };
  ended = 0;
}

-- `len` of a map.
unfoldable pub size : Sessions → ℕ
size [] = 0
size (entry ∷ rest) = size rest + 1

-- Whether the context is cancelled when a number of observations is left.
abbrev pub Context : Type 0
Context = List Observation → Bool

-- The `switch` of `applyJournalEntry`.
reset_entry : Snapshot → JournalEntry → Snapshot × JournalResult
unfolding size
reset_entry snap entry = (
  record new_snapshot { updated_at = entry.received_at },
  record empty_result { reset = record { cleared = size snap.sessions; remaining = 0 } },
)

gc_entry : Snapshot → JournalEntry → ℤ → Snapshot × JournalResult
unfolding size delete_expired_gone_sessions prune_ended_processes
gc_entry snap entry delete_after =
    let (kept, deleted) =
      delete_expired_gone_sessions snap.sessions entry.received_at delete_after in
    let trimmed = record snap { sessions = kept } in
    let pruned : Snapshot = elim delete_after [
      | pos n ↦ prune_ended_processes entry.received_at n trimmed
      | negsuc n ↦ trimmed
    ] in
    (
      record pruned { updated_at = max_time (snap.updated_at ∷ entry.received_at ∷ []) },
      record empty_result { gc = record { deleted = deleted; remaining = size kept } },
    )

observe_entry : Env → Context → Snapshot → JournalEntry → Result (Snapshot × JournalResult)
unfolding apply_observation_batch remove_gone_process_only_sessions
observe_entry env done snap entry = do
  b ← apply_observation_batch env done snap entry.observations entry.received_at
  ok (
    (remove_gone_process_only_sessions b.snapshot).0,
    record empty_result { sessions = b.saved; ended = b.ended },
  )

-- Its last two statements.
abbrev finish_entry : Snapshot → JournalEntry → Snapshot × JournalResult → Snapshot × JournalResult
finish_entry before entry (snap, result) = (
  record snap { journal_sequence = entry.sequence },
  record result { changes = state_changes before.sessions snap.sessions },
)

-- `applyJournalEntry`.
unfoldable pub apply_journal_entry :
    Env → Context → Snapshot → JournalEntry → Result (Snapshot × JournalResult)
unfolding reset_entry gc_entry observe_entry state_changes
apply_journal_entry env done snap entry =
    if entry.reset
    then ok (finish_entry snap entry (reset_entry snap entry))
    else elim entry.delete_after [
      | some d ↦ ok (finish_entry snap entry (gc_entry snap entry d))
      | none ↦ do applied ← observe_entry env done snap entry; ok (finish_entry snap entry applied)
    ]

-- `decodedJournalEntry`: the observations that could not be decoded have an error.
pub record DecodedEntry : Type 0 where
  pub entry : JournalEntry
  pub rejected : ℕ → Option Error

-- `for index := range entry.Observations { if err := entry.rejected[index]; err != nil { … } }`.
first_rejected : (ℕ → Option Error) → ℕ → List Observation → Option Error
first_rejected rejected index [] = none
first_rejected rejected index (o ∷ rest) =
    let later = first_rejected rejected (index + 1) rest in
    elim (rejected index) [ none ↦ later | some e ↦ some e ]

-- One round of `foldJournal` behind its test of the sequence.
unfoldable pub fold_entry : Env → Context → Snapshot → DecodedEntry → Result Snapshot
unfolding apply_journal_entry first_rejected
fold_entry env done snap d = elim (first_rejected d.rejected 0 d.entry.observations) [
  | some e ↦ err e
  | none ↦ do (next, _) ← apply_journal_entry env done snap d.entry; ok next
]

-- `foldJournal`.
unfoldable pub fold_journal : Env → Context → Snapshot → List DecodedEntry → Result Snapshot
unfolding fold_entry
fold_journal env done snap [] = ok snap
fold_journal env done snap (d ∷ rest) =
    if leb d.entry.sequence snap.journal_sequence
    then fold_journal env done snap rest
    else do next ← fold_entry env done snap d; fold_journal env done next rest

-- `replayObservation`: the snapshot, and the errors of an observation that it drops.
unfoldable pub replay_observation :
    Env → Context → Snapshot → JournalEntry → Observation → Result (Snapshot × List Error)
unfolding apply_journal_entry
replay_observation env done candidate entry o =
    elim (apply_journal_entry env done (clone_for_mutation candidate)
      (record entry { observations = o ∷ [] })) [
        | err Error.canceled ↦ err Error.canceled
        | err Error.observation_conflict ↦ ok (candidate, Error.observation_conflict ∷ [])
        | err Error.invalid_observation ↦ ok (candidate, Error.invalid_observation ∷ [])
        | err Error.observation_dropped ↦ err Error.observation_dropped
        | ok (next, result) ↦ ok (record next { dropped = [] }, next.dropped)
      ]

-- `replayObservations`, from the index of the next observation.
replay_observations :
    Env → Context → Snapshot → DecodedEntry → ℕ → List Observation → Result (Snapshot × List Error)
unfolding replay_observation
replay_observations env done candidate d index [] = ok (candidate, [])
replay_observations env done candidate d index (o ∷ rest) = elim (d.rejected index) [
  | some e ↦ do
    (final, more) ← replay_observations env done candidate d (index + 1) rest
    ok (final, e ∷ more)
  | none ↦ do
    (next, dropped) ← replay_observation env done candidate d.entry o
    (final, more) ← replay_observations env done next d (index + 1) rest
    ok (final, dropped ++ more)
]

-- The two branches of a round of `replayJournal`.
replay_command : Env → Context → Snapshot → JournalEntry → Result (Snapshot × List Error)
unfolding apply_journal_entry
replay_command env done candidate entry = do
  (next, _) ← apply_journal_entry env done candidate entry
  ok (next, [])

replay_batch : Env → Context → Snapshot → DecodedEntry → Result (Snapshot × List Error)
unfolding replay_observations
replay_batch env done candidate d = do
  (next, dropped) ← replay_observations env done candidate d 0 d.entry.observations
  ok (
    record next {
      journal_sequence = d.entry.sequence;
      updated_at = max_time (next.updated_at ∷ d.entry.received_at ∷ []);
    },
    dropped,
  )

-- The round, behind its test of the sequence.
unfoldable pub replay_entry :
    Env → Context → Snapshot → DecodedEntry → Result (Snapshot × List Error)
unfolding replay_command replay_batch
replay_entry env done candidate d =
    if d.entry.reset || is_some d.entry.delete_after
    then replay_command env done candidate d.entry
    else replay_batch env done candidate d

-- The rounds of `replayJournal`, and the errors of the observations that they reject.
unfoldable pub replay_entries :
    Env → Context → Snapshot → List DecodedEntry → Result (Snapshot × List Error)
unfolding replay_entry
replay_entries env done candidate [] = ok (candidate, [])
replay_entries env done candidate (d ∷ rest) =
    if leb d.entry.sequence candidate.journal_sequence
    then replay_entries env done candidate rest
    else do
      (next, dropped) ← replay_entry env done candidate d
      (final, more) ← replay_entries env done next rest
      ok (final, dropped ++ more)

-- `replayJournal`.
unfoldable pub replay_journal :
    Env → Context → Snapshot → List DecodedEntry → Result (Snapshot × List Error)
unfolding replay_entries
replay_journal env done previous entries =
    replay_entries env done (clone_for_mutation previous) entries
