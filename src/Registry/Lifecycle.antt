-- ===== src/Registry/Lifecycle.antt =====
-- pkg/registry/lifecycle.go: the incarnation state machine of a session.
pub mod Effects
pub mod Selection
pub mod Normal
pub mod Process
pub mod Safety
pub mod Retirement
use aht.Prelude.{
  Bool, true, false, not, ◌&&◌, ◌||◌, String, ◌==◌, Option, none, some, List, [], ◌∷◌, some_and,
  is_some, if◌then◌else◌,
}
use aht.Registry.Model.{
  Time, Presence, NativeLifecycle, ProcessIdentity, ActivityDecision, IncarnationState, Incarnation,
  Report, Verification, Session, Observation,
}
use aht.Registry.Values.{
  zero_time, is_zero, before, after, max_time, is_live, is_gone, is_end, is_start, is_resume,
  zero_process, complete, same_process,
}
use aht.Registry.Liveness.{decision}
use aht.Registry.Evidence.{
  Kind, kind, as_report, as_verification, is_sighting, is_reading, is_placement, process_identity,
  present,
}

pub data Action : Type 0 where
  continue reject ignore verify retire replace bind resume : Action

pub record Transition : Type 0 where
  pub next : Incarnation
  pub reset : Bool
  pub terminal : Bool
  pub accepted : Bool
  pub ignored : Bool

pub record Input : Type 0 where
  pub current : Incarnation
  pub process : Option ProcessIdentity
  pub report : Option Report
  pub verification : Option Verification
  pub decision : Option ActivityDecision
  pub kind : Kind
  pub at : Time
  pub retire : Bool
  pub absent : Bool
  pub end : Bool
  pub start : Bool
  pub terminal : Bool
  pub different : Bool

-- `reportEnds` and `reportStarts`.
unfoldable pub report_ends : Report → Bool
report_ends r = some_and r.claim is_gone || some_and r.lifecycle is_end

unfoldable pub report_starts : Option Report → Bool
report_starts r = some_and r (λ report. some_and report.lifecycle (λ l. is_start l || is_resume l))

abbrev pub is_terminal : IncarnationState → Bool
is_terminal IncarnationState.ended = true
is_terminal IncarnationState.exited = true
is_terminal _ = false

-- `State == ""`.
abbrev pub is_blank : IncarnationState → Bool
is_blank (IncarnationState.other s) = s == ""
is_blank _ = false

unfoldable pub normalize_incarnation_input : Session → Observation → Time → Bool → Input
unfolding report_ends report_starts
normalize_incarnation_input s o at retiring = record {
  current = s.incarnation;
  process = process_identity o;
  report = as_report o.evidence;
  verification = as_verification o.evidence;
  decision = decision s;
  kind = kind o;
  at = at;
  retire = retiring;
  absent = is_sighting (kind o) && not (some_and (present o) (λ p. p));
  end = some_and (as_report o.evidence) report_ends;
  start = report_starts (as_report o.evidence);
  terminal = is_terminal s.incarnation.state;
  different = some_and (process_identity o) (λ p.
      complete p && complete s.incarnation.process && not (same_process s.incarnation.process p));
}

-- The guards of the rules.
abbrev pub verifies : Input → Bool
verifies i = is_some i.verification

verification_rejected : Input → Bool
verification_rejected i =
    verifies i
    && (i.terminal
        || complete i.current.process
        || before i.at i.current.evidence_at
        || some_and i.decision (λ d. before i.at d.observed_at))

retirement_ignored : Input → Bool
retirement_ignored i = i.retire && i.end

retirement_rejected : Input → Bool
retirement_rejected i = i.retire && before i.at i.current.evidence_at

retires : Input → Bool
retires i = i.retire

unfoldable pub previous_process : Input → Bool
previous_process i = some_and i.current.previous (λ q. some_and i.process (λ p. same_process q p))

replacement_rejected : Input → Bool
unfolding previous_process
replacement_rejected i =
    i.different
    && (previous_process i
        || i.end
        || is_reading i.kind
        || is_placement i.kind
        || i.absent
        || before i.at i.current.evidence_at)

replaces : Input → Bool
replaces i = i.different

terminal_stale : Input → Bool
terminal_stale i = (i.end || i.absent) && before i.at i.current.evidence_at

binds_terminal_process : Input → Bool
binds_terminal_process i =
    i.terminal
    && not (complete i.current.process)
    && some_and i.process complete
    && is_some i.report
    && not i.end
    && not (before i.at i.current.evidence_at)

resumes_terminal : Input → Bool
resumes_terminal i =
    i.terminal
    && i.start
    && after i.at (max_time (i.current.evidence_at ∷ i.current.transition_at ∷ []))

terminal_rejected : Input → Bool
terminal_rejected i = i.terminal && not i.end && (is_some i.report || not i.absent)

-- `incarnationRule`: a guard and the action that it selects.
abbrev Rule : Type 0
Rule = (Input → Bool) × Action

abbrev rules : List Rule
rules =
    (verification_rejected, Action.reject)
    ∷ (verifies, Action.verify)
    ∷ (retirement_ignored, Action.ignore)
    ∷ (retirement_rejected, Action.reject)
    ∷ (retires, Action.retire)
    ∷ (replacement_rejected, Action.reject)
    ∷ (replaces, Action.replace)
    ∷ (terminal_stale, Action.reject)
    ∷ (binds_terminal_process, Action.bind)
    ∷ (resumes_terminal, Action.resume)
    ∷ (terminal_rejected, Action.reject)
    ∷ []

-- The loop of `transitionIncarnation`: the first rule whose guard holds.
first_match : Input → List Rule → Action
first_match i [] = Action.continue
first_match i ((guard, action) ∷ rest) = if guard i then action else first_match i rest

unfoldable pub select_action : Input → Action
unfolding first_match verification_rejected retirement_ignored retirement_rejected retires
    replacement_rejected replaces terminal_stale binds_terminal_process resumes_terminal
    terminal_rejected
select_action i = first_match i rules

claim_applies : Input → Incarnation → Bool
claim_applies i next =
    some_and i.report (λ r. is_some r.claim) && not (before i.at next.transition_at)

own_process_evidence : Input → Incarnation → Bool
own_process_evidence i next =
    (is_some i.report && not (complete next.process))
    || (some_and i.process (λ p. same_process p next.process) && not i.absent)

replacement_report : Input → Transition → Bool
replacement_report i t = t.reset && i.different && is_some i.report

claimed_state : Input → IncarnationState
claimed_state i =
    if some_and i.report (λ r. some_and r.claim is_live)
    then IncarnationState.live
    else IncarnationState.starting

-- The first two statements of `applyEvidence`.
unfoldable pub adopt_process : Input → Incarnation → Incarnation
adopt_process i n = elim i.process [
  | none ↦ n
  | some p ↦ if complete p then record n { process = p } else n
]

unfoldable pub adopt_time : Input → Incarnation → Incarnation
adopt_time i n = if is_zero n.transition_at then record n { transition_at = i.at } else n

-- Its `switch`.
unfoldable pub apply_state : Input → Transition → Transition
unfolding claim_applies claimed_state replacement_report
apply_state i t =
    if i.end
    then record t {
      next = record n {
        state = IncarnationState.ended;
        transition_at = max_time (i.current.transition_at ∷ i.at ∷ []);
      };
      terminal = true;
    }
    else if i.absent
    then record t {
      next = record n {
        state = IncarnationState.exited;
        transition_at = max_time (i.current.transition_at ∷ i.at ∷ []);
      };
      terminal = true;
    }
    else if is_sighting i.kind
    then record t {
      next = record n {
        state = IncarnationState.live;
        transition_at = max_time (n.transition_at ∷ i.at ∷ []);
      };
    }
    else if claim_applies i n
    then record t { next = record n { state = claimed_state i; transition_at = i.at } }
    else if replacement_report i t
    then record t { next = record n { state = IncarnationState.live } }
    else t
  where
    n : Incarnation
    n = t.next

-- Its last statement: exit scans are not evidence that the old process was still running.
unfoldable pub record_evidence : Input → Transition → Transition
unfolding own_process_evidence
record_evidence i t =
    if own_process_evidence i t.next
    then record t {
      next = record (t.next) { evidence_at = max_time (t.next.evidence_at ∷ i.at ∷ []) };
    }
    else t

unfoldable pub apply_evidence : Input → Transition → Transition
unfolding adopt_process adopt_time apply_state record_evidence
apply_evidence i t =
    record_evidence i (apply_state i (record t { next = adopt_time i (adopt_process i t.next) }))

unchanged : Input → Transition
unchanged i = record {
  next = i.current;
  reset = false;
  terminal = false;
  accepted = true;
  ignored = false;
}

fresh : IncarnationState → ProcessIdentity → Option ProcessIdentity → Incarnation
fresh state process previous = record {
  state = state;
  process = process;
  evidence_at = zero_time;
  transition_at = zero_time;
  previous = previous;
}

-- `*input.process`, where the rule's guard says that it is not nil.
pointed : Option ProcessIdentity → ProcessIdentity
pointed none = zero_process
pointed (some p) = p

abbrev verified_gone : Input → Bool
verified_gone i = some_and i.verification (λ v. is_gone v.presence)

-- The `switch` of `incarnationInput.transition`.
unfoldable pub prepared : Input → Action → Transition
unfolding unchanged fresh pointed
prepared i Action.reject = record (unchanged i) { accepted = false }
prepared i Action.ignore = record (unchanged i) { accepted = false; ignored = true }
prepared i Action.verify = record (unchanged i) {
  next = record (i.current) {
    state = if verified_gone i then IncarnationState.exited else IncarnationState.starting;
    transition_at = i.at;
  };
  terminal = verified_gone i;
}
prepared i Action.retire = record (unchanged i) {
  next = record (i.current) {
    state = IncarnationState.exited;
    transition_at = max_time (i.current.transition_at ∷ i.at ∷ []);
  };
  terminal = true;
}
prepared i Action.replace = record (unchanged i) {
  reset = true;
  next = fresh IncarnationState.starting (pointed i.process) (some i.current.process);
}
prepared i Action.bind = record (unchanged i) {
  reset = true;
  next = fresh IncarnationState.live (pointed i.process) none;
}
prepared i Action.resume = record (unchanged i) {
  reset = true;
  next = fresh IncarnationState.starting i.current.process i.current.previous;
}
prepared i Action.continue = record (unchanged i) {
  next =
      if is_blank i.current.state
      then record (i.current) { state = IncarnationState.starting }
      else i.current;
}

-- `incarnationInput.transition`: four cases of the switch return before `applyEvidence`.
unfoldable pub transition : Input → Action → Transition
transition i Action.reject = prepared i Action.reject
transition i Action.ignore = prepared i Action.ignore
transition i Action.verify = prepared i Action.verify
transition i Action.retire = prepared i Action.retire
transition i a = apply_evidence i (prepared i a)

unfoldable pub transition_incarnation : Session → Observation → Time → Bool → Transition
transition_incarnation s o at retiring =
    let i = normalize_incarnation_input s o at retiring in transition i (select_action i)
