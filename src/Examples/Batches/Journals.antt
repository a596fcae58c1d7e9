-- ===== src/Examples/Batches/Journals.antt =====
-- Journals on concrete inputs: their recovery, their replay and the changes that they make.
use aht.Prelude.{◌≡◌, ◌≤◌, refl, true, false, none, [], ◌∷◌}
use aht.Prelude.Dict.{lookup}
use aht.Registry.Slots.{ok}
use aht.Registry.Matching.Sound.{IsSound}
use aht.Registry.Snapshot.{Snapshot, new_snapshot, delete_expired_gone_sessions}
use aht.Registry.Changes.{state_changes}
use aht.Registry.Changes.Found.{change_at, wanted, state_changes-wanted}
use aht.Registry.Journal.{
  DecodedEntry, size, apply_journal_entry, fold_entry, fold_journal, replay_observation,
  replay_entry, replay_entries, replay_journal,
}
use aht.Registry.Journal.Fold.{fold_journal-checkpoint}
use aht.Registry.Journal.Replay.{replay_journal-IsSound}
use aht.Examples.{seen, moved}
use aht.Examples.Batches.{batches, env, never, after_sighting, stored, stored-IsSound}

journals : Unit {0}
unfolding batches size apply_journal_entry fold_entry fold_journal replay_observation replay_entry
    replay_entries replay_journal delete_expired_gone_sessions
journals = tt

abbrev sighting_entry : DecodedEntry
sighting_entry = record {
  entry = record {
    sequence = 1;
    received_at = 100;
    observations = seen ∷ [];
    delete_after = none;
    reset = false;
  };
  rejected = λ index. none;
}

abbrev move_entry : DecodedEntry
move_entry = record sighting_entry {
  entry = record (sighting_entry.entry) {
    sequence = 2;
    received_at = 200;
    observations = moved ∷ [];
  };
}

abbrev reset_after : DecodedEntry
reset_after = record sighting_entry {
  entry = record (sighting_entry.entry) { sequence = 3; received_at = 300; reset = true };
}

abbrev checkpoint : Snapshot
checkpoint = record (after_sighting.snapshot) { journal_sequence = 1 }

checkpoint_run : fold_journal env never new_snapshot (sighting_entry ∷ []) ≡ ok checkpoint
unfolding journals
checkpoint_run = refl

fold_journal-checkpoint_example :
    fold_journal env never checkpoint (sighting_entry ∷ move_entry ∷ [])
    ≡ fold_journal env never new_snapshot (sighting_entry ∷ move_entry ∷ [])
fold_journal-checkpoint_example =
    fold_journal-checkpoint env never new_snapshot checkpoint (sighting_entry ∷ [])
      (move_entry ∷ []) checkpoint_run

abbrev after_reset : Snapshot
after_reset = record new_snapshot { journal_sequence = 3; updated_at = 300 }

replay_run :
    replay_journal env never checkpoint (sighting_entry ∷ reset_after ∷ []) ≡ ok (after_reset, [])
unfolding journals
replay_run = refl

replay_journal-IsSound_example : IsSound after_reset.sessions × (1 ≤ 3)
replay_journal-IsSound_example =
    replay_journal-IsSound env never (sighting_entry ∷ reset_after ∷ []) checkpoint after_reset []
      stored-IsSound replay_run

state_changes-wanted_example :
    change_at "claude-0" (state_changes stored [])
    ≡ wanted (lookup "claude-0" stored) (lookup "claude-0" [])
unfolding batches
state_changes-wanted_example = state_changes-wanted "claude-0" stored [] (refl, tt)
