-- ===== src/Registry/Watch/Reported.antt =====
-- pkg/registry/watch.go: the results that a watcher is given are news, in order, and leave it with
-- the snapshot that the watch has.
use aht.Prelude.{
  ◌≡◌, refl, sym, ap, subst, ◌∙◌, Bool, true, false, not, ◌&&◌, String, Option, none, some, List,
  [], ◌∷◌, ◌++◌, if◌then◌else◌, is_some, some_and, decide,
}
use mathlib.Core.Bool.{true≢false, false≢true}
use aht.Registry.Model.{Session, Time}
use aht.Registry.Equality.{Session-discrete}
use aht.Registry.Watch.{
  WatchResult, FileStoreWatch, Loaded, load_failed, loaded, Attempt, Effect, watch_sessions_equal,
  yield_error, take_snapshot, scan, handle_watcher_error, WatchRunState, Ready, finished, event,
  debounced, reconciled, watcher_error, Round, done, stopped, goes_on, step, Run, started, stepped,
  fresh_watch, quiet, wrapped, after_effect, after_load, after_directory,
}

-- The sessions that the watcher was given last without an error, after a result more.
abbrev pub seen_after : Option (List Session) → WatchResult → Option (List Session)
seen_after seen r = if is_some r.err then seen else some r.sessions

unfoldable pub seen_last : Option (List Session) → List WatchResult → Option (List Session)
seen_last seen [] = seen
seen_last seen (r ∷ rest) = seen_last (seen_after seen r) rest

abbrev pub or_nothing : Option (List Session) → List Session
or_nothing none = []
or_nothing (some sessions) = sessions

-- A snapshot is initial exactly when it is the first, and differs from the one before. An error
-- is never initial and comes with the snapshot before.
unfoldable pub IsNews : Option (List Session) → WatchResult → Type 0
unfolding watch_sessions_equal
IsNews seen r =
    if is_some r.err
    then (r.initial ≡ false) × (r.sessions ≡ or_nothing seen)
    else ((r.initial ≡ not (is_some seen))
        × (some_and seen (λ sessions. watch_sessions_equal sessions r.sessions) ≡ false))

unfoldable pub AllNews : Option (List Session) → List WatchResult → Type 0
unfolding IsNews
AllNews seen [] = Unit
AllNews seen (r ∷ rest) = IsNews seen r × AllNews (seen_after seen r) rest

-- The snapshot of the watch, if it has one.
abbrev pub snapshot_of : FileStoreWatch → Option (List Session)
snapshot_of w = if w.have_baseline then some w.baseline else none

abbrev IsReady : FileStoreWatch → Type 0
IsReady w = w.have_baseline ≡ false → w.baseline ≡ []

AllNews-append :
    (seen : Option (List Session)) (l m : List WatchResult)
    → AllNews seen l
    → AllNews (seen_last seen l) m
    → AllNews seen (l ++ m)
unfolding AllNews seen_last
AllNews-append seen [] m h k = k
AllNews-append seen (r ∷ l) m (n, h) k = (n, AllNews-append (seen_after seen r) l m h k)

seen_last-append :
    (seen : Option (List Session)) (l m : List WatchResult)
    → seen_last seen (l ++ m) ≡ seen_last (seen_last seen l) m
unfolding seen_last
seen_last-append seen [] m = refl
seen_last-append seen (r ∷ l) m = seen_last-append (seen_after seen r) l m

watch_sessions_equal-eq_true : (l m : List Session) → watch_sessions_equal l m ≡ true → l ≡ m
unfolding watch_sessions_equal decide
watch_sessions_equal-eq_true [] [] h = refl
watch_sessions_equal-eq_true [] (t ∷ m) h = absurd (false≢true h)
watch_sessions_equal-eq_true (s ∷ l) [] h = absurd (false≢true h)
watch_sessions_equal-eq_true (s ∷ l) (t ∷ m) h =
    go (Session-discrete s t) (watch_sessions_equal l m) h (watch_sessions_equal-eq_true l m)
  where
    go :
        (d : Dec (s ≡ t)) → (b : Bool) → (decide d && b) ≡ true → (b ≡ true → l ≡ m) → s ∷ l ≡ t ∷ m
    go (yes e) true h ih = cc (e, ih refl)
    go (yes e) false h ih = absurd (false≢true h)
    go (no n) b h ih = absurd (false≢true h)

-- A method tells the watcher the truth: from what it has seen to the snapshot that is left.
abbrev Tells : FileStoreWatch → Effect → Type 0
Tells w e =
    AllNews (snapshot_of w) e.yielded
    × (seen_last (snapshot_of w) e.yielded ≡ snapshot_of e.watch)
    × IsReady e.watch

yield_error-Tells :
    (w : FileStoreWatch) (cause : String) (refusal : Option String)
    → IsReady w
    → Tells w (yield_error w cause refusal)
unfolding yield_error AllNews IsNews seen_last
yield_error-Tells w cause refusal h =
    (((refl, baseline_seen w.have_baseline w.baseline h), tt), refl, h)
  where
    baseline_seen :
        (b : Bool) (l : List Session)
        → (b ≡ false → l ≡ [])
        → l ≡ or_nothing (if b then some l else none)
    baseline_seen true l k = refl
    baseline_seen false l k = k refl

take_snapshot-Tells :
    (w : FileStoreWatch) (sessions : List Session) (at : Time) (refusal : Option String)
    → Tells w (take_snapshot w sessions at refusal)
unfolding take_snapshot AllNews IsNews seen_last
take_snapshot-Tells w sessions at refusal =
    go w.have_baseline (watch_sessions_equal w.baseline sessions) refl
      (watch_sessions_equal-eq_true w.baseline sessions)
  where
    taken : FileStoreWatch
    taken = record { baseline = sessions; baseline_updated_at = at; have_baseline = true }

    news : Bool → WatchResult
    news have = record { sessions = sessions; updated_at = at; initial = not have; err = none }

    go :
        (have equals : Bool)
        → watch_sessions_equal w.baseline sessions ≡ equals
        → (equals ≡ true → w.baseline ≡ sessions)
        → let seen : Option (List Session) = if have then some w.baseline else none in
          let e : Effect = if have && equals then quiet taken else record {
            watch = taken;
            yielded = news have ∷ [];
            returned = wrapped "yielding watch snapshot: " refusal;
          } in
          AllNews seen e.yielded
          × (seen_last seen e.yielded ≡ snapshot_of e.watch)
          × IsReady e.watch
    go true true f same = (tt, ap some (same refl), λ k. absurd (true≢false k))
    go true false f same = (((refl, f), tt), refl, λ k. absurd (true≢false k))
    go false equals f same = (((refl, refl), tt), refl, λ k. absurd (true≢false k))

if-Tells :
    (w : FileStoreWatch) (b : Bool) (d e : Effect)
    → Tells w d
    → Tells w e
    → Tells w (if b then d else e)
if-Tells w true d e h k = h
if-Tells w false d e h k = k

quiet-Tells : (w : FileStoreWatch) → IsReady w → Tells w (quiet w)
unfolding AllNews seen_last
quiet-Tells w h = (tt, refl, h)

scan-Tells : (w : FileStoreWatch) (a : Attempt) → IsReady w → Tells w (scan w a)
unfolding scan
scan-Tells w a h =
    if-Tells w a.done_before (quiet w) _ (quiet-Tells w h) (directory a.directory_error)
  where
    load : (l : Loaded) → Tells w (after_load w a l)
    load (loaded sessions at) = take_snapshot-Tells w sessions at a.refusal
    load (load_failed cause) =
        if-Tells w a.done_after (quiet w) _ (quiet-Tells w h)
          (yield_error-Tells w cause a.refusal h)

    directory : (o : Option String) → Tells w (after_directory w a o)
    directory none = load a.snapshot
    directory (some cause) = yield_error-Tells w cause a.refusal h

-- One method after the other.
both-Tells :
    (w : FileStoreWatch) (d e : Effect)
    → Tells w d
    → Tells d.watch e
    → Tells w (record e { yielded = d.yielded ++ e.yielded })
both-Tells w d e (news, seen, ready) (more, then_seen, then_ready) = (
  AllNews-append (snapshot_of w) d.yielded e.yielded news
      (subst (λ s. AllNews s e.yielded) (sym seen) more),
  seen_last-append (snapshot_of w) d.yielded e.yielded
      ∙ ap (λ s. seen_last s e.yielded) seen
      ∙ then_seen,
  then_ready,
)

handle_watcher_error-Tells :
    (w : FileStoreWatch) (cause refusal : Option String) (a : Attempt)
    → IsReady w
    → Tells w (handle_watcher_error w cause refusal a)
unfolding handle_watcher_error
handle_watcher_error-Tells w none refusal a h = quiet-Tells w h
handle_watcher_error-Tells w (some cause) none a h =
    let told = yield_error w cause none in
    both-Tells w told (scan told.watch a) (yield_error-Tells w cause none h)
      (scan-Tells told.watch a (yield_error-Tells w cause none h).2)
handle_watcher_error-Tells w (some cause) (some refusal) a h =
    yield_error-Tells w cause (some refusal) h

-- What a round that goes on has told.
abbrev RoundTells : FileStoreWatch → Round → Type 0
RoundTells w done = Unit
RoundTells w (stopped told cause) = Unit
RoundTells w (goes_on s told) =
    AllNews (snapshot_of w) told
    × (seen_last (snapshot_of w) told ≡ snapshot_of s.watch)
    × IsReady s.watch

after_effect-Tells :
    (w : FileStoreWatch) (debounce : Bool) (e : Effect)
    → Tells w e
    → RoundTells w (after_effect debounce e)
after_effect-Tells w debounce e h = go e.returned
  where
    go :
        (o : Option String)
        → RoundTells w (elim o as (λ x. Round) [
          | none ↦ goes_on (record { watch = e.watch; debounce = debounce }) e.yielded
          | some cause ↦ stopped e.yielded cause
        ])
    go none = h
    go (some cause) = tt

step-Tells : (s : WatchRunState) (r : Ready) → IsReady s.watch → RoundTells s.watch (step s r)
unfolding step
step-Tells s finished h = tt
step-Tells s (event (some cause) counts refusal a) h =
    after_effect-Tells s.watch s.debounce _
      (handle_watcher_error-Tells s.watch (some cause) refusal a h)
step-Tells s (event none counts refusal a) h = quiet-Tells s.watch h
step-Tells s (debounced a) h = after_effect-Tells s.watch false _ (scan-Tells s.watch a h)
step-Tells s (reconciled a) h = after_effect-Tells s.watch s.debounce _ (scan-Tells s.watch a h)
step-Tells s (watcher_error cause refusal a) h =
    after_effect-Tells s.watch s.debounce _ (handle_watcher_error-Tells s.watch cause refusal a h)

-- What holds after all that the watcher was told.
abbrev Reports : WatchRunState → List WatchResult → Type 0
Reports s told = AllNews none told × (seen_last none told ≡ snapshot_of s.watch) × IsReady s.watch

step-Reports :
    (s t : WatchRunState) (told more : List WatchResult) (r : Ready)
    → Reports s told
    → step s r ≡ goes_on t more
    → Reports t (told ++ more)
step-Reports s t told more r (news, seen, ready) e =
    let (then_news, then_seen, then_ready) = subst (RoundTells s.watch) e (step-Tells s r ready) in
    (
      AllNews-append none told more news (subst (λ o. AllNews o more) (sym seen) then_news),
      seen_last-append none told more ∙ ap (λ o. seen_last o more) seen ∙ then_seen,
      then_ready,
    )

Run-Reports : (s : WatchRunState) (told : List WatchResult) → Run s told → Reports s told
Run-Reports s told (started a _ _ returned start yielded) =
    subst (λ l. Reports s l) (sym yielded)
      (subst (λ x. Reports x (scan fresh_watch a).yielded) (sym start)
        (scan-Tells fresh_watch a (λ h. refl)))
Run-Reports t all (stepped s _ told more _ r run ready e appended) =
    subst (Reports t) (sym appended) (step-Reports s t told more r (Run-Reports s told run) e)

-- In every run of a watch of the store, whatever the file watcher, the timers and the loads do: a
-- snapshot that the callback is given is marked initial exactly when it is the first, and differs
-- from the snapshot before; an error is never marked initial and comes with the snapshot before,
-- or with none; and the snapshot given last is the one that the watch has.
pub Run-AllNews :
    (s : WatchRunState) (told : List WatchResult)
    → Run s told
    → AllNews none told × (seen_last none told ≡ snapshot_of s.watch)
Run-AllNews s told run = let (news, seen, ready) = Run-Reports s told run in (news, seen)
