-- ===== src/Examples/Batches/Stores.antt =====
-- The memory store and the order of reports on concrete inputs.
use aht.Prelude.{some, ◌<◌, ◌≤◌, ltb}
use aht.Registry.Model.{
  NativeObservation, Session, Report, Observation, Evidence, Presence, Activity,
}
use aht.Registry.Slots.{same_report_process}
use aht.Registry.Slots.Sequence.{Succeeds, sequenced_observation_time-order}
use aht.Examples.{seen, agent, sighted, end_report}
use aht.Prelude.{◌≡◌, refl, true, false, none, [], ◌∷◌, arith}
use aht.Registry.Changes.{Change}
use aht.Registry.MemoryStore.{MemoryStore, accept_snapshot, persist_due, expire_tombstones_locked}
use aht.Registry.MemoryStore.Revisions.{
  IsOrdered, accept_snapshot-persist_due, accept_snapshot-pending, expire_locked-again,
}
use aht.Examples.Batches.{batches, after_sighting, with_tombstone}

abbrev opened : MemoryStore
opened = record {
  tombstone_ttl = 50;
  snapshot = with_tombstone;
  revision = 1;
  storage_revision = 1;
  visible_revision = 1;
  persisted_revision = 1;
  persisted_at = 100;
  background_persist_interval = 60;
}

opened-IsOrdered : IsOrdered opened
opened-IsOrdered = record { visible = omega arith; persisted = omega arith; room = omega arith }

abbrev gone_change : Change
gone_change = record { id = "claude-0"; removed = true }

accept_snapshot-persist_due_example :
    persist_due (accept_snapshot opened after_sighting.snapshot (gone_change ∷ [])) false 110 ≡ true
accept_snapshot-persist_due_example =
    accept_snapshot-persist_due opened after_sighting.snapshot gone_change [] 110 opened-IsOrdered

abbrev behind : MemoryStore
behind = record opened { persisted_revision = 0 }

accept_snapshot-pending_example :
    persist_due (accept_snapshot behind after_sighting.snapshot []) false 110 ≡ true
accept_snapshot-pending_example =
    accept_snapshot-pending behind after_sighting.snapshot [] 110
      (record { visible = omega arith; persisted = omega arith; room = omega arith }) (omega arith)

expire_locked-again_example :
    expire_tombstones_locked (expire_tombstones_locked opened 120) 120
    ≡ expire_tombstones_locked opened 120
expire_locked-again_example = expire_locked-again opened 120

-- The third report of a hook, behind its second.
abbrev second_report : NativeObservation
second_report = record {
  detail = none;
  reporter = record end_report.reporter { sequence = some 2 };
  event = "Stop";
  lifecycle = none;
  presence = some Presence.live;
  activity = some Activity.idle;
  session_id = "";
  session_path = "";
  observed_at = 150;
  attributes = [];
  raw_payload = [];
  process = agent;
}

abbrev reported : Session
reported = record sighted {
  observations = record (sighted.observations) { native = some second_report };
}

abbrev third_report : Report
third_report = record end_report {
  reporter = record end_report.reporter { sequence = some 3 };
  process = some agent;
}

abbrev third : Observation
third = record seen { at = 140; evidence = Evidence.report third_report }

third-Succeeds : Succeeds reported third third_report second_report 3 140
unfolding batches same_report_process
third-Succeeds = record {
  is_report = refl;
  slot = refl;
  sequence = refl;
  process = refl;
  reporter = refl;
  named = refl;
}

sequenced_observation_time-order_example : (150 < 151) × (140 ≤ 151) × (ltb 2 3 ≡ true)
unfolding batches same_report_process
sequenced_observation_time-order_example =
    sequenced_observation_time-order reported third third_report second_report 3 140 151
      third-Succeeds refl refl
