-- ===== src/Registry/Snapshot/Expiry.antt =====
-- The tombstones that reducer.go removes from a snapshot, and the sessions that it keeps.
use aht.Prelude.{
  ℤ, pos, negsuc, not, ◌≡◌, ℕ, refl, Bool, true, false, String, ◌&&◌, ◌||◌, arith, if◌then◌else◌,
  [], ◌∷◌, is_some, Option, none, some, eq_iff, ◌+◌, ◌∙◌, ap, sym, subst,
}
use aht.Prelude.Lists.{length}
use aht.Prelude.Dict.{Dict, lookup, Distinct}
use aht.Registry.Model.{Session, Time}
use aht.Registry.Values.{is_gone, is_zero}
use aht.Registry.Liveness.{presence}
use aht.Registry.Matching.{Sessions}
use aht.Registry.Matching.Sound.{EachEntry, IsSound}
use aht.Registry.Snapshot.{
  delete_expired, delete_expired_gone_sessions, Snapshot, gone_since, process_only_session,
  remove_gone, remove_gone_process_only_sessions, expire, expire_tombstones, prune,
  prune_ended_processes, any_session, any_time, has_expired_tombstones, gone_process_only, lasted,
  record_ended,
}

-- The sessions that pass a test, in their order.
unfoldable pub without : (Session → Bool) → Sessions → Sessions
without test [] = []
without test ((id, s) ∷ rest) =
    let kept = without test rest in if test s then kept else (id, s) ∷ kept

without-lookup :
    (test : Session → Bool) (k : String) (sessions : Sessions)
    → is_some (lookup k sessions) ≡ false
    → is_some (lookup k (without test sessions)) ≡ false
unfolding without lookup
without-lookup test k [] h = refl
without-lookup test k ((id, s) ∷ rest) h = ground (arith, without-lookup test k rest)

without-Distinct :
    (test : Session → Bool) (sessions : Sessions)
    → Distinct sessions
    → Distinct (without test sessions)
unfolding without Distinct
without-Distinct test [] d = tt
without-Distinct test ((id, s) ∷ rest) (fresh, d) =
    go _ (test s) (without-lookup test id rest fresh) (without-Distinct test rest d)
  where
    go :
        (kept : Sessions) (dropped : Bool)
        → is_some (lookup id kept) ≡ false
        → Distinct kept
        → Distinct (if dropped then kept else (id, s) ∷ kept)
    go kept true f d = d
    go kept false f d = (f, d)

without-entries :
    (test : Session → Bool) (sessions : Sessions)
    → EachEntry sessions
    → EachEntry (without test sessions)
unfolding without EachEntry
without-entries test [] h = tt
without-entries test ((id, s) ∷ rest) (e, h) = go _ (test s) (without-entries test rest h)
  where
    go :
        (kept : Sessions) (dropped : Bool)
        → EachEntry kept
        → EachEntry (if dropped then kept else (id, s) ∷ kept)
    go kept true h = h
    go kept false h = (e, h)

without-IsSound :
    (test : Session → Bool) (sessions : Sessions)
    → IsSound sessions
    → IsSound (without test sessions)
without-IsSound test sessions h = record {
  distinct = without-Distinct test sessions h.distinct;
  entries = without-entries test sessions h.entries;
}

remove_gone-kept :
    (sessions : Sessions) (ended : Dict Time)
    → (remove_gone sessions ended).0 ≡ without gone_process_only sessions
unfolding remove_gone without
remove_gone-kept [] ended = refl
remove_gone-kept ((id, s) ∷ rest) ended =
    ground
      (arith, remove_gone-kept rest (if gone_process_only s then record_ended s ended else ended))

-- The test of `expireTombstones` on a session.
abbrev expired : Time → ℕ → Session → Bool
expired now ttl s = is_gone (presence s) && lasted now (gone_since s) ttl

expire-kept :
    (now : Time) (ttl : ℕ) (sessions : Sessions)
    → (expire now ttl sessions).0 ≡ without (expired now ttl) sessions
unfolding expire without
expire-kept now ttl [] = refl
expire-kept now ttl ((id, s) ∷ rest) = ground (arith, expire-kept now ttl rest)

expire_tombstones-kept :
    (now : Time) (ttl : ℕ) (snap : Snapshot)
    → (expire_tombstones now ttl snap).0.sessions
      ≡ without (expired now ttl) (without gone_process_only snap.sessions)
unfolding expire_tombstones remove_gone_process_only_sessions prune_ended_processes
expire_tombstones-kept now ttl snap =
    expire-kept now ttl (remove_gone snap.sessions snap.ended_processes).0
    ∙ ap (without (expired now ttl)) (remove_gone-kept snap.sessions snap.ended_processes)

-- The test of `hasExpiredTombstones` on a session.
abbrev pub is_tombstone : Time → ℕ → Session → Bool
is_tombstone now ttl s =
    is_gone (presence s) && (process_only_session s || lasted now (gone_since s) ttl)

-- What becomes of the session of an id.
abbrev pub unless_it : (Session → Bool) → Option Session → Option Session
unless_it test none = none
unless_it test (some s) = if test s then none else some s

without-unless :
    (test : Session → Bool) (k : String) (sessions : Sessions)
    → Distinct sessions
    → lookup k (without test sessions) ≡ unless_it test (lookup k sessions)
unfolding without lookup Distinct
without-unless test k [] d = refl
without-unless test k ((id, s) ∷ rest) (fresh, d) =
    ground (arith, eq_iff id k, without-unless test k rest d, fresh)

remove_gone-size :
    (sessions : Sessions) (ended : Dict Time)
    → length (remove_gone sessions ended).0 + (remove_gone sessions ended).2 ≡ length sessions
unfolding remove_gone length
remove_gone-size [] ended = refl
remove_gone-size ((id, s) ∷ rest) ended =
    ground
      (arith, remove_gone-size rest (if gone_process_only s then record_ended s ended else ended))

expire-size :
    (now : Time) (ttl : ℕ) (sessions : Sessions)
    → length (expire now ttl sessions).0 + (expire now ttl sessions).1 ≡ length sessions
unfolding expire length
expire-size now ttl [] = refl
expire-size now ttl ((id, s) ∷ rest) = ground (arith, expire-size now ttl rest)

unless_it-both :
    (now : Time) (ttl : ℕ) (o : Option Session)
    → unless_it (expired now ttl) (unless_it gone_process_only o)
      ≡ unless_it (is_tombstone now ttl) o
unless_it-both now ttl none = refl
unless_it-both now ttl (some s) = ground arith

expire_tombstones-lookup :
    (now : Time) (ttl : ℕ) (snap : Snapshot) (k : String)
    → Distinct snap.sessions
    → lookup k (expire_tombstones now ttl snap).0.sessions
      ≡ unless_it (is_tombstone now ttl) (lookup k snap.sessions)
expire_tombstones-lookup now ttl snap k d =
    let trimmed : Sessions = without gone_process_only snap.sessions in
    ap (lookup k) (expire_tombstones-kept now ttl snap)
    ∙ without-unless (expired now ttl) k trimmed
        (without-Distinct gone_process_only snap.sessions d)
    ∙ ap (unless_it (expired now ttl)) (without-unless gone_process_only k snap.sessions d)
    ∙ unless_it-both now ttl (lookup k snap.sessions)

expire_tombstones-size :
    (now : Time) (ttl : ℕ) (snap : Snapshot)
    → length (expire_tombstones now ttl snap).0.sessions + (expire_tombstones now ttl snap).1
      ≡ length snap.sessions
unfolding expire_tombstones remove_gone_process_only_sessions prune_ended_processes
expire_tombstones-size now ttl snap =
    let first = remove_gone snap.sessions snap.ended_processes in
    ground (arith, remove_gone-size snap.sessions snap.ended_processes, expire-size now ttl first.0)

-- Where no id is twice in the snapshot, `expireTombstones` removes the session of an id exactly
-- if it is gone and is a process-only session or has been gone for the lifetime, and leaves every
-- other as it is; the number that it returns is by how many the sessions are fewer.
pub expire_tombstones-removed :
    (now : Time) (ttl : ℕ) (snap : Snapshot) (k : String)
    → Distinct snap.sessions
    → (lookup k (expire_tombstones now ttl snap).0.sessions
        ≡ unless_it (is_tombstone now ttl) (lookup k snap.sessions))
      × (length (expire_tombstones now ttl snap).0.sessions + (expire_tombstones now ttl snap).1
          ≡ length snap.sessions)
expire_tombstones-removed now ttl snap k d =
    (expire_tombstones-lookup now ttl snap k d, expire_tombstones-size now ttl snap)

remove_gone-none :
    (now : Time) (ttl : ℕ) (sessions : Sessions) (ended : Dict Time)
    → any_session (is_tombstone now ttl) sessions ≡ false
    → remove_gone sessions ended ≡ (sessions, ended, 0)
unfolding any_session remove_gone
remove_gone-none now ttl [] ended h = refl
remove_gone-none now ttl ((id, s) ∷ rest) ended h =
    ground (arith, remove_gone-none now ttl rest ended)

expire-none :
    (now : Time) (ttl : ℕ) (sessions : Sessions)
    → any_session (is_tombstone now ttl) sessions ≡ false
    → expire now ttl sessions ≡ (sessions, 0)
unfolding any_session expire
expire-none now ttl [] h = refl
expire-none now ttl ((id, s) ∷ rest) h = ground (arith, expire-none now ttl rest)

prune-none :
    (now : Time) (ttl : ℕ) (ended : Dict Time)
    → any_time (λ at. lasted now at ttl) ended ≡ false
    → prune now ttl ended ≡ ended
unfolding any_time prune
prune-none now ttl [] h = refl
prune-none now ttl ((key, at) ∷ rest) h = ground (arith, prune-none now ttl rest)

prune-all :
    (now : Time) (ttl : ℕ) (ended : Dict Time)
    → any_time (λ at. lasted now at ttl) (prune now ttl ended) ≡ false
unfolding any_time prune
prune-all now ttl [] = refl
prune-all now ttl ((key, at) ∷ rest) = go _ (lasted now at ttl) refl (prune-all now ttl rest)
  where
    go :
        (kept : Dict Time) (b : Bool)
        → lasted now at ttl ≡ b
        → any_time (λ at. lasted now at ttl) kept ≡ false
        → any_time (λ at. lasted now at ttl) (if b then kept else (key, at) ∷ kept) ≡ false
    go kept true e h = h
    go kept false e h = rw (e, h) refl

any_session-kept :
    (now : Time) (ttl : ℕ) (sessions : Sessions)
    → any_session
        (is_tombstone now ttl)
        (without (expired now ttl) (without gone_process_only sessions))
      ≡ false
unfolding any_session without
any_session-kept now ttl [] = refl
any_session-kept now ttl ((id, s) ∷ rest) =
    go (gone_process_only s) (expired now ttl s) refl refl (any_session-kept now ttl rest)
  where
    kept : Sessions
    kept = without gone_process_only rest

    go :
        (g e : Bool)
        → gone_process_only s ≡ g
        → expired now ttl s ≡ e
        → any_session (is_tombstone now ttl) (without (expired now ttl) kept) ≡ false
        → any_session
            (is_tombstone now ttl)
            (without (expired now ttl) (if g then kept else (id, s) ∷ kept))
          ≡ false
    go true e a b h = h
    go false true a b h = rw b h
    go false false a b h = rw b (ground arith)

ended_pruned :
    (now : Time) (ttl : ℕ) (snap : Snapshot)
    → any_time (λ at. lasted now at ttl) (expire_tombstones now ttl snap).0.ended_processes ≡ false
unfolding expire_tombstones remove_gone_process_only_sessions prune_ended_processes
ended_pruned now ttl snap = prune-all now ttl (remove_gone snap.sessions snap.ended_processes).1

-- Where `hasExpiredTombstones` finds no tombstone, `expireTombstones` leaves the snapshot as it
-- is and removes nothing.
pub expire_tombstones-none :
    (now : Time) (ttl : ℕ) (snap : Snapshot)
    → has_expired_tombstones snap now ttl ≡ false
    → expire_tombstones now ttl snap ≡ (snap, 0)
unfolding has_expired_tombstones expire_tombstones remove_gone_process_only_sessions
    prune_ended_processes
expire_tombstones-none now ttl snap h = ground (
  arith,
  remove_gone-none now ttl snap.sessions snap.ended_processes,
  expire-none now ttl snap.sessions,
  prune-none now ttl snap.ended_processes,
)

-- `hasExpiredTombstones` finds no tombstone in what `expireTombstones` leaves, at the same time
-- and with the same lifetime.
pub expire_tombstones-all :
    (now : Time) (ttl : ℕ) (snap : Snapshot)
    → has_expired_tombstones (expire_tombstones now ttl snap).0 now ttl ≡ false
unfolding has_expired_tombstones
expire_tombstones-all now ttl snap = ground (
  arith,
  ap (any_session (is_tombstone now ttl)) (expire_tombstones-kept now ttl snap),
  any_session-kept now ttl snap.sessions,
  ended_pruned now ttl snap,
)

-- The test of `deleteExpiredGoneSessions` on a session.
abbrev deletable : Time → ℕ → Session → Bool
deletable now delete_after s = not (
    not (is_gone (presence s))
    || is_zero s.presence_changed_at
    || not (lasted now s.presence_changed_at delete_after))

delete_expired-kept :
    (now : Time) (delete_after : ℕ) (sessions : Sessions)
    → (delete_expired sessions now delete_after).0 ≡ without (deletable now delete_after) sessions
unfolding delete_expired without
delete_expired-kept now delete_after [] = refl
delete_expired-kept now delete_after ((id, s) ∷ rest) =
    ground (arith, delete_expired-kept now delete_after rest)

-- The sessions that `deleteExpiredGoneSessions` keeps are sound where those before were.
pub delete_expired-IsSound :
    (sessions : Sessions) (now : Time) (delete_after : ℤ)
    → IsSound sessions
    → IsSound (delete_expired_gone_sessions sessions now delete_after).0
unfolding delete_expired_gone_sessions
delete_expired-IsSound sessions now (negsuc n) h = h
delete_expired-IsSound sessions now (pos n) h =
    subst IsSound (sym (delete_expired-kept now n sessions))
      (without-IsSound (deletable now n) sessions h)

-- The sessions that `removeGoneProcessOnlySessions` keeps are sound where those before were.
pub remove_gone-IsSound :
    (snap : Snapshot)
    → IsSound snap.sessions
    → IsSound (remove_gone_process_only_sessions snap).0.sessions
unfolding remove_gone_process_only_sessions
remove_gone-IsSound snap h =
    subst IsSound (sym (remove_gone-kept snap.sessions snap.ended_processes))
      (without-IsSound gone_process_only snap.sessions h)
