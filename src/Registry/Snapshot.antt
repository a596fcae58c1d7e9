-- ===== src/Registry/Snapshot.antt =====
-- pkg/registry/store.go and reducer.go: the snapshot, the processes that ended and the
-- tombstones of gone sessions. A duration is in nanoseconds; `now.Sub(at)` is compared with it
-- on the sum, so that no time is subtracted.
pub mod Expiry
use aht.Prelude.{
  ℕ, ℤ, pos, negsuc, ◌+◌, Bool, false, not, ◌&&◌, ◌||◌, String, ◌==◌, none, some, some_and, is_some,
  List, [], ◌∷◌, leb, if◌then◌else◌,
}
use aht.Prelude.Dict.{Dict, lookup, insert}
use aht.Prelude.Text.{itoa}
use aht.Registry.Model.{Time, Observation, Session, ProcessIdentity}
use aht.Registry.Values.{zero_time, is_zero, is_gone, is_provisional, complete}
use aht.Registry.Liveness.{presence}
use aht.Registry.Evidence.{kind, is_report, process_identity}
use aht.Registry.Slots.{Error}
use aht.Registry.Stored.{store_schema_version}
use aht.Registry.Matching.{Sessions, find_matching_session}
use Prim.Native.String

-- `snapshot`. A nil map of ended processes is the empty one.
pub record Snapshot : Type 0 where
  pub dropped : List Error
  pub journal_sequence : ℕ
  pub schema_version : ℤ
  pub updated_at : Time
  pub sessions : Sessions
  pub ended_processes : Dict Time

-- `newSnapshot`.
abbrev pub new_snapshot : Snapshot
new_snapshot = record {
  dropped = [];
  journal_sequence = 0;
  schema_version = store_schema_version;
  updated_at = zero_time;
  sessions = [];
  ended_processes = [];
}

-- `cloneRegistrySnapshotForMutation`, which takes over no dropped errors.
abbrev pub clone_for_mutation : Snapshot → Snapshot
clone_for_mutation source = record source { dropped = [] }

-- `endedProcessKey`.
unfoldable pub ended_process_key : ProcessIdentity → String
ended_process_key p = String.◌++◌ (itoa p.pid) (String.◌++◌ ":" p.start_identity)

-- `goneSince`.
unfoldable pub gone_since : Session → Time
gone_since s = if is_zero s.presence_changed_at then s.updated_at else s.presence_changed_at

-- `processOnlySession`.
unfoldable pub process_only_session : Session → Bool
process_only_session s =
    is_provisional s.identity_state
    && not (is_some s.observations.native)
    && s.session_id == ""
    && s.session_path == ""

-- `now.Sub(at) >= ttl`, for a duration that is not negative.
abbrev pub lasted : Time → Time → ℕ → Bool
lasted now at ttl = leb (at + ttl) now

-- The test of `removeGoneProcessOnlySessions`.
abbrev pub gone_process_only : Session → Bool
gone_process_only s = is_gone (presence s) && process_only_session s

abbrev record_ended : Session → Dict Time → Dict Time
record_ended s ended = elim s.process [
  | none ↦ ended
  | some p ↦ if complete p then insert (ended_process_key p) (gone_since s) ended else ended
]

-- The loop of `removeGoneProcessOnlySessions`: the sessions kept, the ended processes and the
-- number removed.
remove_gone : Sessions → Dict Time → Sessions × Dict Time × ℕ
unfolding gone_since process_only_session presence complete insert
remove_gone [] ended = ([], ended, 0)
remove_gone ((id, s) ∷ rest) ended =
    let (kept, ended', removed) =
      remove_gone rest (if gone_process_only s then record_ended s ended else ended) in
    if gone_process_only s then (kept, ended', removed + 1) else ((id, s) ∷ kept, ended', removed)

-- `removeGoneProcessOnlySessions`.
unfoldable pub remove_gone_process_only_sessions : Snapshot → Snapshot × ℕ
unfolding remove_gone
remove_gone_process_only_sessions snap =
    let (kept, ended, removed) = remove_gone snap.sessions snap.ended_processes in
    (record snap { sessions = kept; ended_processes = ended }, removed)

-- `endedProcessReport`.
unfoldable pub ended_process_report : Snapshot → Observation → Bool
unfolding process_identity complete lookup
ended_process_report snap o =
    is_report (kind o)
    && some_and (process_identity o) λ p.
      complete p
      && is_some (lookup (ended_process_key p) snap.ended_processes)
      && find_matching_session snap.sessions o == ""

prune : Time → ℕ → Dict Time → Dict Time
prune now ttl [] = []
prune now ttl ((key, at) ∷ rest) =
    let kept = prune now ttl rest in if lasted now at ttl then kept else (key, at) ∷ kept

-- `pruneEndedProcesses`.
unfoldable pub prune_ended_processes : Time → ℕ → Snapshot → Snapshot
unfolding prune
prune_ended_processes now ttl snap = record snap {
  ended_processes = prune now ttl snap.ended_processes;
}

any_session : (Session → Bool) → Sessions → Bool
any_session test [] = false
any_session test ((id, s) ∷ rest) = test s || any_session test rest

any_time : (Time → Bool) → Dict Time → Bool
any_time test [] = false
any_time test ((key, at) ∷ rest) = test at || any_time test rest

-- `hasExpiredTombstones`.
unfoldable pub has_expired_tombstones : Snapshot → Time → ℕ → Bool
unfolding any_session any_time presence process_only_session gone_since
has_expired_tombstones snap now ttl =
    any_session
      (λ s. is_gone (presence s) && (process_only_session s || lasted now (gone_since s) ttl))
      snap.sessions
    || any_time (λ at. lasted now at ttl) snap.ended_processes

-- The loop of `expireTombstones` over the sessions that are left.
expire : Time → ℕ → Sessions → Sessions × ℕ
unfolding presence gone_since
expire now ttl [] = ([], 0)
expire now ttl ((id, s) ∷ rest) =
    let (kept, removed) = expire now ttl rest in
    if is_gone (presence s) && lasted now (gone_since s) ttl
    then (kept, removed + 1)
    else ((id, s) ∷ kept, removed)

-- `expireTombstones`, with the number of sessions removed.
unfoldable pub expire_tombstones : Time → ℕ → Snapshot → Snapshot × ℕ
unfolding remove_gone_process_only_sessions expire prune_ended_processes
expire_tombstones now ttl snap =
    let (trimmed, first) = remove_gone_process_only_sessions snap in
    let (kept, more) = expire now ttl trimmed.sessions in
    (prune_ended_processes now ttl (record trimmed { sessions = kept }), first + more)

-- The loop of `deleteExpiredGoneSessions`, with `PresenceChangedAt` as the time of the change.
delete_expired : Sessions → Time → ℕ → Sessions × ℕ
unfolding presence
delete_expired [] now delete_after = ([], 0)
delete_expired ((id, s) ∷ rest) now delete_after =
    let (kept, deleted) = delete_expired rest now delete_after in
    if not (is_gone (presence s))
      || is_zero s.presence_changed_at
      || not (lasted now s.presence_changed_at delete_after)
    then ((id, s) ∷ kept, deleted)
    else (kept, deleted + 1)

-- `deleteExpiredGoneSessions`: a negative duration deletes nothing.
unfoldable pub delete_expired_gone_sessions : Sessions → Time → ℤ → Sessions × ℕ
unfolding delete_expired
delete_expired_gone_sessions sessions now (negsuc n) = (sessions, 0)
delete_expired_gone_sessions sessions now (pos n) = delete_expired sessions now n
