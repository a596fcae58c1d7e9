-- ===== src/Examples/Watches.antt =====
-- A run of a watcher.
use aht.Prelude.{◌≡◌, refl, true, false, none, some, List, [], ◌∷◌, ◌++◌}
use aht.Registry.Model.{Session}
use aht.Registry.Values.{zero_session}
use aht.Registry.Watch.{
  WatchResult, load_failed, loaded, Attempt, scan, step, reconciled, CanBeReady, Run, started,
  stepped, WatchRunState,
}
use aht.Registry.Watch.Reported.{AllNews, seen_last, snapshot_of, Run-AllNews}

abbrev loads : List Session → Attempt
loads sessions = record {
  done_before = false;
  directory_error = none;
  snapshot = loaded sessions 7;
  done_after = false;
  refusal = none;
}

abbrev fails : Attempt
fails = record (loads []) { snapshot = load_failed "no such file" }

abbrev told_first : List WatchResult
told_first =
    record { sessions = zero_session ∷ []; updated_at = 7; initial = true; err = none } ∷ []

abbrev told_error : List WatchResult
told_error =
    record {
      sessions = zero_session ∷ [];
      updated_at = 7;
      initial = false;
      err = some "no such file";
    }
    ∷ []

abbrev watching : WatchRunState
watching = record {
  watch = record { baseline = zero_session ∷ []; baseline_updated_at = 7; have_baseline = true };
  debounce = false;
}

first-Run : Run watching told_first
unfolding scan
first-Run = started (loads (zero_session ∷ [])) watching told_first refl refl refl

then_fails : Run watching (told_first ++ told_error)
unfolding CanBeReady step
then_fails =
    stepped watching watching told_first told_error (told_first ++ told_error) (reconciled fails)
      first-Run tt refl refl

Run-AllNews_example :
    AllNews none (told_first ++ told_error)
    × (seen_last none (told_first ++ told_error) ≡ snapshot_of watching.watch)
Run-AllNews_example = Run-AllNews watching (told_first ++ told_error) then_fails
