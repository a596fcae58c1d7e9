-- ===== src/Registry/Watch.antt =====
-- pkg/registry/watch.go: what a watcher of the store's file is told. The calls of the system (the
-- load of the store, the file watcher, the timers, the callback) are answers that a step is given.
pub mod Reported
use Prim.Native.String
use aht.Prelude.{
  Bool, true, false, not, ◌&&◌, ◌||◌, ◌≡◌, String, Option, none, some, List, [], ◌∷◌, ◌++◌, decide,
  if◌then◌else◌,
}
use aht.Registry.Model.{Time, Session}
use aht.Registry.Values.{zero_time}
use aht.Registry.Equality.{Session-discrete}

-- `WatchResult`; an error is its text.
pub record WatchResult : Type 0 where
  pub sessions : List Session
  pub updated_at : Time
  pub initial : Bool
  pub err : Option String

-- The fields of `fileStoreWatch` that change.
pub record FileStoreWatch : Type 0 where
  pub baseline : List Session
  pub baseline_updated_at : Time
  pub have_baseline : Bool

-- What `watchSnapshot` returns.
pub data Loaded : Type 0 where
  load_failed : String → Loaded
  loaded : List Session → Time → Loaded

-- What the calls of one `scan` return: whether the context is done before and after the load,
-- the error of `ensureDirectoryWatch`, and the error of the callback.
pub record Attempt : Type 0 where
  pub done_before : Bool
  pub directory_error : Option String
  pub snapshot : Loaded
  pub done_after : Bool
  pub refusal : Option String

-- What a method leaves, gives the callback and returns.
pub record Effect : Type 0 where
  pub watch : FileStoreWatch
  pub yielded : List WatchResult
  pub returned : Option String

abbrev pub quiet : FileStoreWatch → Effect
quiet w = record { watch = w; yielded = []; returned = none }

-- `fmt.Errorf("<prefix>: %w", err)` where the callback returns an error.
abbrev pub wrapped : String → Option String → Option String
wrapped prefix none = none
wrapped prefix (some cause) = some (String.◌++◌ prefix cause)

-- `watchSessionsEqual`.
unfoldable pub watch_sessions_equal : List Session → List Session → Bool
unfolding Session-discrete decide
watch_sessions_equal [] [] = true
watch_sessions_equal (s ∷ left) (t ∷ right) =
    decide (Session-discrete s t) && watch_sessions_equal left right
watch_sessions_equal _ _ = false

-- `yieldError`.
unfoldable pub yield_error : FileStoreWatch → String → Option String → Effect
yield_error w cause refusal = record {
  watch = w;
  yielded =
      record {
        sessions = w.baseline;
        updated_at = w.baseline_updated_at;
        initial = false;
        err = some cause;
      }
      ∷ [];
  returned = wrapped "yielding watch error: " refusal;
}

-- The end of `scan`, behind a load.
unfoldable pub take_snapshot : FileStoreWatch → List Session → Time → Option String → Effect
unfolding watch_sessions_equal
take_snapshot w sessions updated_at refusal =
    let next : FileStoreWatch = record {
      baseline = sessions;
      baseline_updated_at = updated_at;
      have_baseline = true;
    } in
    if w.have_baseline && watch_sessions_equal w.baseline sessions then quiet next else (record {
      watch = next;
      yielded =
          record {
            sessions = sessions;
            updated_at = updated_at;
            initial = not w.have_baseline;
            err = none;
          }
          ∷ [];
      returned = wrapped "yielding watch snapshot: " refusal;
    })

abbrev after_load : FileStoreWatch → Attempt → Loaded → Effect
after_load w a (loaded sessions updated_at) = take_snapshot w sessions updated_at a.refusal
after_load w a (load_failed cause) = if a.done_after then quiet w else yield_error w cause a.refusal

abbrev after_directory : FileStoreWatch → Attempt → Option String → Effect
after_directory w a (some cause) = yield_error w cause a.refusal
after_directory w a none = after_load w a a.snapshot

-- `scan`.
unfoldable pub scan : FileStoreWatch → Attempt → Effect
unfolding take_snapshot yield_error
scan w a = if a.done_before then quiet w else after_directory w a a.directory_error

-- `handleWatcherError`; the callback is asked for the error first, and again in the scan.
unfoldable pub handle_watcher_error :
    FileStoreWatch → Option String → Option String → Attempt → Effect
unfolding scan yield_error
handle_watcher_error w none refusal a = quiet w
handle_watcher_error w (some cause) none a =
    let told = yield_error w cause none in
    let scanned = scan told.watch a in record scanned { yielded = told.yielded ++ scanned.yielded }
handle_watcher_error w (some cause) (some refusal) a = yield_error w cause (some refusal)

-- `watchRunState`: the watch, and whether the debounce timer runs.
pub record WatchRunState : Type 0 where
  pub watch : FileStoreWatch
  pub debounce : Bool

-- What a round of `step` finds ready.
pub data Ready : Type 0 where
  -- The context is done, or a channel of the watcher is closed.
  finished : Ready
  -- An event: the error of `Remove` where it is needed and fails, and whether the event counts.
  event : (remove_error : Option String) → (counts : Bool) → Option String → Attempt → Ready
  debounced : Attempt → Ready
  reconciled : Attempt → Ready
  watcher_error : Option String → Option String → Attempt → Ready

-- What a round leaves: the state, what the callback was given, and whether the run goes on.
pub data Round : Type 0 where
  done : Round
  stopped : List WatchResult → String → Round
  goes_on : WatchRunState → List WatchResult → Round

abbrev after_effect : Bool → Effect → Round
after_effect debounce e = elim e.returned [
  | none ↦ goes_on (record { watch = e.watch; debounce = debounce }) e.yielded
  | some cause ↦ stopped e.yielded cause
]

-- `step`, for what is ready.
unfoldable pub step : WatchRunState → Ready → Round
unfolding scan handle_watcher_error
step s finished = done
step s (event (some cause) counts refusal a) =
    after_effect s.debounce (handle_watcher_error s.watch (some cause) refusal a)
step s (event none counts refusal a) = goes_on (record s { debounce = s.debounce || counts }) []
step s (debounced a) = after_effect false (scan s.watch a)
step s (reconciled a) = after_effect s.debounce (scan s.watch a)
step s (watcher_error cause refusal a) =
    after_effect s.debounce (handle_watcher_error s.watch cause refusal a)

-- A timer that does not run is never ready.
unfoldable pub CanBeReady : WatchRunState → Ready → Type 0
CanBeReady s (debounced a) = s.debounce ≡ true
CanBeReady s finished = Unit
CanBeReady s (event remove_error counts refusal a) = Unit
CanBeReady s (reconciled a) = Unit
CanBeReady s (watcher_error cause refusal a) = Unit

-- The watch that `Watch` begins with.
abbrev pub fresh_watch : FileStoreWatch
fresh_watch = record { baseline = []; baseline_updated_at = zero_time; have_baseline = false }

-- The runs of `Watch` and `run`, with all that the callback was given.
pub data Run : WatchRunState → List WatchResult → Type 0 where
  started :
      (a : Attempt) (s : WatchRunState) (told : List WatchResult)
      → (scan fresh_watch a).returned ≡ none
      → s ≡ record { watch = (scan fresh_watch a).watch; debounce = false }
      → told ≡ (scan fresh_watch a).yielded
      → Run s told
  stepped :
      (s t : WatchRunState) (told more all : List WatchResult) (r : Ready)
      → Run s told
      → CanBeReady s r
      → step s r ≡ goes_on t more
      → all ≡ told ++ more
      → Run t all
