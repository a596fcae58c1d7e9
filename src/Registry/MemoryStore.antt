-- ===== src/Registry/MemoryStore.antt =====
-- pkg/registry/memory_store.go and journal_read.go: the snapshot that the owner of the registry
-- keeps in memory, its revisions, and when it is written. The channels that wake waiting readers
-- and the writer are not modelled, nor are the files.
pub mod Revisions
use aht.Prelude.{
  ℕ, ◌+◌, ◌%◌, ◌^◌, Bool, true, false, not, ◌&&◌, ◌||◌, is_some, List, [], ◌∷◌, ltb, leb,
  if◌then◌else◌,
}
use aht.Registry.Model.{Time, Observation}
use aht.Registry.Evidence.{kind, is_report}
use aht.Registry.Changes.{Change, state_changes}
use aht.Registry.Snapshot.{
  clone_for_mutation, Snapshot, has_expired_tombstones, expire_tombstones, lasted,
}
use aht.Registry.Journal.{JournalEntry, JournalResult}

-- The fields of `MemoryStore` that these operations read or write.
pub record MemoryStore : Type 0 where
  pub tombstone_ttl : ℕ
  pub snapshot : Snapshot
  pub revision : ℕ  -- uint64, as the next three
  pub storage_revision : ℕ
  pub visible_revision : ℕ
  pub persisted_revision : ℕ
  pub persisted_at : Time
  pub background_persist_interval : ℕ

-- `n++` on a uint64.
abbrev pub increment : ℕ → ℕ
increment n = (n + 1) % 2 ^ 64

-- `acceptSnapshotLocked`.
unfoldable pub accept_snapshot : MemoryStore → Snapshot → List Change → MemoryStore
accept_snapshot s candidate [] = record s {
  snapshot = candidate;
  storage_revision = increment s.storage_revision;
}
accept_snapshot s candidate (c ∷ changes) = record s {
  snapshot = candidate;
  storage_revision = increment s.storage_revision;
  visible_revision = increment s.storage_revision;
  revision = increment s.revision;
}

any_report : List Observation → Bool
any_report [] = false
any_report (o ∷ rest) = is_report (kind o) || any_report rest

abbrev is_empty {ℓ} : {A : Type ℓ} → List A → Bool
is_empty [] = true
is_empty (a ∷ rest) = false

-- `journalWorthy`.
unfoldable pub journal_worthy : JournalEntry → JournalResult → Bool
unfolding any_report
journal_worthy entry result =
    entry.reset
    || is_some entry.delete_after
    || not (is_empty result.changes)
    || any_report entry.observations

-- `persistDueLocked`.
unfoldable pub persist_due : MemoryStore → Bool → Time → Bool
persist_due s force now =
    if leb s.storage_revision s.persisted_revision
    then false
    else if force || ltb s.persisted_revision s.visible_revision
    then true
    else lasted now s.persisted_at s.background_persist_interval

-- The last two statements of `persist`, behind the write of the snapshot.
unfoldable pub mark_persisted : MemoryStore → Time → MemoryStore
mark_persisted s now = record s { persisted_revision = s.storage_revision; persisted_at = now }

-- `expireTombstonesLocked`.
unfoldable pub expire_tombstones_locked : MemoryStore → Time → MemoryStore
unfolding has_expired_tombstones expire_tombstones accept_snapshot state_changes
expire_tombstones_locked s now =
    if not (has_expired_tombstones s.snapshot now s.tombstone_ttl)
    then s
    else let candidate =
        (expire_tombstones now s.tombstone_ttl (clone_for_mutation s.snapshot)).0 in
      accept_snapshot s candidate (state_changes s.snapshot.sessions candidate.sessions)
