-- ===== src/Registry/Slots/Sequence.antt =====
-- The order of the sequenced reports of evidence_store.go.
use aht.Prelude.{◌≡◌, ◌≤◌, ◌<◌, ℕ, true, false, some, none_or, ltb, arith, ◌==◌}
use aht.Prelude.Text.{trim_space}
use aht.Registry.Model.{Session, Observation, Report, NativeObservation, Evidence, Time}
use aht.Registry.Slots.{
  ok, same_report_process, duplicate_sequenced_report, sequence_follows, sequenced_time,
  sequenced_observation_time,
}

module _ (s : Session) (o : Observation) (r : Report) (n : NativeObservation) (q : ℕ)
    (at : Time) where
  -- A sequenced report of the reporter and the process whose report is in the slot.
  pub record Succeeds : Type 0 where
    pub is_report : o.evidence ≡ Evidence.report r
    pub slot : s.observations.native ≡ some n
    pub sequence : r.reporter.sequence ≡ some q
    pub process : same_report_process n r ≡ true
    pub reporter : (trim_space n.reporter.integration == trim_space r.reporter.integration) ≡ true
    pub named : (trim_space r.reporter.integration == "") ≡ false

  -- A sequenced report of the reporter and the process in the native slot, where it is no
  -- repetition and is taken, is taken at a time behind that of the slot and no earlier than its
  -- own, and its sequence is greater than the one in the slot, if there is one.
  pub sequenced_observation_time-order :
      (at' : Time)
      → Succeeds
      → duplicate_sequenced_report s o ≡ false
      → sequenced_observation_time s o at ≡ ok at'
      → (n.observed_at < at') × (at ≤ at') × (none_or n.reporter.sequence (λ p. ltb p q) ≡ true)
  unfolding sequenced_observation_time sequenced_time sequence_follows
  sequenced_observation_time-order at' v d e =
      ground (arith, v.is_report, v.slot, v.sequence, v.process, v.reporter, v.named)
