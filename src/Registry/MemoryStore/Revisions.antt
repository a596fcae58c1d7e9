-- ===== src/Registry/MemoryStore/Revisions.antt =====
-- The revisions of memory_store.go and what they say of the snapshot on disk.
use aht.Prelude.{◌≡◌, ◌≤◌, ◌<◌, ◌+◌, ◌^◌, subst, sym, Bool, true, false, List, [], ◌∷◌, refl, arith}
use aht.Registry.Model.{Time}
use aht.Registry.Changes.{Change, state_changes}
use aht.Registry.Snapshot.{clone_for_mutation, Snapshot, has_expired_tombstones, expire_tombstones}
use aht.Registry.Snapshot.Expiry.{expire_tombstones-all}
use aht.Registry.MemoryStore.{MemoryStore, accept_snapshot, persist_due, expire_tombstones_locked}

-- The revisions of a store stand in order, and the next one does not wrap around.
pub record IsOrdered (s : MemoryStore) : Type 0 where
  pub visible : s.visible_revision ≤ s.storage_revision
  pub persisted : s.persisted_revision ≤ s.storage_revision
  pub room : s.storage_revision + 1 < 2 ^ 64

-- Where the revisions stand in order and have room, a snapshot that is accepted with changes that
-- consumers see is due to be written, at any time and without force.
pub accept_snapshot-persist_due :
    (s : MemoryStore) (candidate : Snapshot) (c : Change) (changes : List Change) (now : Time)
    → IsOrdered s
    → persist_due (accept_snapshot s candidate (c ∷ changes)) false now ≡ true
unfolding accept_snapshot persist_due
accept_snapshot-persist_due s candidate c changes now v =
    ground (arith, v.visible, v.persisted, v.room)

accept_snapshot-order :
    (s : MemoryStore) (candidate : Snapshot) (changes : List Change)
    → IsOrdered s
    → ((accept_snapshot s candidate changes).visible_revision
        ≤ (accept_snapshot s candidate changes).storage_revision)
      × ((accept_snapshot s candidate changes).persisted_revision
          < (accept_snapshot s candidate changes).storage_revision)
unfolding accept_snapshot
accept_snapshot-order s candidate [] v = ground (arith, v.visible, v.persisted, v.room)
accept_snapshot-order s candidate (c ∷ changes) v = ground (arith, v.visible, v.persisted, v.room)

accept_snapshot-snapshot :
    (s : MemoryStore) (candidate : Snapshot) (changes : List Change)
    → ((accept_snapshot s candidate changes).snapshot ≡ candidate)
      × ((accept_snapshot s candidate changes).tombstone_ttl ≡ s.tombstone_ttl)
unfolding accept_snapshot
accept_snapshot-snapshot s candidate [] = (refl, refl)
accept_snapshot-snapshot s candidate (c ∷ changes) = (refl, refl)

expire_locked-none :
    (s : MemoryStore) (now : Time)
    → has_expired_tombstones s.snapshot now s.tombstone_ttl ≡ false
    → expire_tombstones_locked s now ≡ s
unfolding expire_tombstones_locked
expire_locked-none s now h = rw (h, expire_tombstones_locked) refl

expire_locked-some :
    (s : MemoryStore) (now : Time)
    → has_expired_tombstones s.snapshot now s.tombstone_ttl ≡ true
    → let candidate = (expire_tombstones now s.tombstone_ttl (clone_for_mutation s.snapshot)).0 in
      expire_tombstones_locked s now
      ≡ accept_snapshot s candidate (state_changes s.snapshot.sessions candidate.sessions)
unfolding expire_tombstones_locked
expire_locked-some s now h = rw (h, expire_tombstones_locked) refl

-- Where the revisions stand in order and have room, and a change that consumers see is not
-- written, the snapshot stays due to be written whatever is accepted next.
pub accept_snapshot-pending :
    (s : MemoryStore) (candidate : Snapshot) (changes : List Change) (now : Time)
    → IsOrdered s
    → s.persisted_revision < s.visible_revision
    → persist_due (accept_snapshot s candidate changes) false now ≡ true
unfolding accept_snapshot persist_due
accept_snapshot-pending s candidate [] now v h = ground (arith, v.visible, v.persisted, v.room)
accept_snapshot-pending s candidate (c ∷ changes) now v h =
    accept_snapshot-persist_due s candidate c changes now v

-- `expireTombstonesLocked` leaves no tombstone that has expired.
expire_locked-all :
    (s : MemoryStore) (now : Time)
    → let s' = expire_tombstones_locked s now in
      has_expired_tombstones s'.snapshot now s'.tombstone_ttl ≡ false
expire_locked-all s now = go (has_expired_tombstones s.snapshot now s.tombstone_ttl) refl
  where
    candidate : Snapshot
    candidate = (expire_tombstones now s.tombstone_ttl (clone_for_mutation s.snapshot)).0

    changes : List Change
    changes = state_changes s.snapshot.sessions candidate.sessions

    expired : MemoryStore → Type 0
    expired t = has_expired_tombstones t.snapshot now t.tombstone_ttl ≡ false

    go :
        (b : Bool)
        → has_expired_tombstones s.snapshot now s.tombstone_ttl ≡ b
        → expired (expire_tombstones_locked s now)
    go false e = subst expired (sym (expire_locked-none s now e)) e
    go true e =
        let (snapshot, ttl) = accept_snapshot-snapshot s candidate changes in
        subst expired (sym (expire_locked-some s now e)) (
          rw (snapshot, ttl)
            (expire_tombstones-all now s.tombstone_ttl (clone_for_mutation s.snapshot)))

-- A second run of `expireTombstonesLocked` at the same time changes nothing, no revision either.
pub expire_locked-again :
    (s : MemoryStore) (now : Time)
    → expire_tombstones_locked (expire_tombstones_locked s now) now ≡ expire_tombstones_locked s now
expire_locked-again s now =
    expire_locked-none (expire_tombstones_locked s now) now (expire_locked-all s now)
