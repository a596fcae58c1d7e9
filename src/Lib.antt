-- ===== src/Lib.antt =====
-- AHT: the registry of agent sessions, the detection of their state, the search in their history.
--
-- aht keeps track of the coding agents (harnesses) that run in the terminals of a machine. Hooks,
-- an observer of processes and of terminal multiplexers, and listings of stored sessions send
-- observations; the registry (pkg/registry) reduces each one into a session of its store. An
-- observation passes `Observation.Validate`, the sessions that it contradicts are retired, the
-- session that it is about is found or made, and `reduceSession` runs the state machine of the
-- incarnation of that session, stores the evidence in its slot and evaluates the activity anew.
-- Watchers of the store and summaries read what it holds. The observer asks the detection
-- (internal/agentstate) for the activity of an agent that reports none: the rules of a manifest are
-- tried on the lines of its screen, and the decision is sent as an observation. The search in the
-- transcripts (pkg/history) first drops the files that cannot match.
--
-- The files and the code:
--   Prelude             numbers, strings, tests, dictionaries; trim_space and clean are
--                       strings.TrimSpace and filepath.Clean of the Go library
--   Registry/Model      pkg/registry/model.go and the types of its neighbours
--   Registry/Values     the predicates and zero values of model.go
--   Registry/Liveness   liveness.go: presence, activity and decision of a session
--   Registry/Evidence   evidence.go: what an evidence says of process, location and identity
--   Registry/Authority  authority.go: which source decides the activity
--   Registry/Lifecycle  lifecycle.go: `transition_incarnation` is `transitionIncarnation`, its rule
--                       table is `rules`, `apply_evidence` is `applyEvidence`. Lifecycle/Effects,
--                       Selection and Normal hold lemmas; Safety and Process what a transition
--                       may do
--   Registry/Detail     detail.go: the detail of an activity
--   Registry/Slots      evidence_store.go: the slots of a session and the sequence of reports;
--                       Slots/Sequence is about the order of reports
--   Registry/Machine    the commits of a transition and of a decision; Machine/Commit is about
--                       them
--   Registry/Validation evidence_validation.go and rules.go
--   Registry/Stored     state_validation.go: the test on the incarnation; the others are in
--                       Stored/Sessions, and Stored/Ready is about the first
--   Registry/Matching   matching.go; the retirements are in Matching/Replacement, the reconciliation
--                       on a resume in Matching/Resume, and Matching/Resumed is about it
--   Registry/Session    reducer.go: `reduce_session` is `reduceSession`. Session/Frames,
--                       Consistency and Reduction are about what it leaves
--   Registry/Snapshot   store.go and reducer.go: the snapshot, ended processes and tombstones
--   Registry/Reducer    reducer.go and query.go: `reduce_one` is `reduceOne`,
--                       `apply_observation_batch` is `applyObservationBatch`
--   Registry/Matching/Sound, Retired, Retiring, Merged, Absorbed and Found, and
--   Registry/Reducer/Kept and Soundness
--                       the sessions of a store, through the steps of a batch
--   Registry/Snapshot/Expiry
--                       what becomes of the tombstones
--   Registry/Changes    changes.go; Changes/Found is about it
--   Registry/Journal    journal.go: `apply_journal_entry` is `applyJournalEntry`, `fold_journal` is
--                       `foldJournal`, `replay_journal` is `replayJournal`. Journal/Fold,
--                       Soundness and Replay are about them
--   Registry/MemoryStore
--                       memory_store.go and journal_read.go: the revisions of the store in
--                       memory; MemoryStore/Revisions is about them
--   Registry/Normalize  model.go: the words that name an activity
--   Registry/Summary    summary.go; the order and the whole are in Summary/Sorted, and
--                       Summary/Counts and Summary/Members are about the counters
--   Registry/Watch      watch.go: `scan`, `handle_watcher_error` and `step` are the methods of
--                       `fileStoreWatch` and `watchRunState`, `Run` the runs of its loop;
--                       Watch/Reported is about what the callback is given
--   AgentState/Model    internal/agentstate/detector.go and manifest.go: the types
--   AgentState/Region   `selectRegion` of manifest.go, and `BoundBottomLines` of
--                       pkg/mux/muxctx.go. Region/Bounds, Selected, Lines and Written are about
--                       them
--   AgentState/Matching detector.go: `matches` is `Rule.matches`
--   AgentState/Inspecting
--                       detector.go: `inspect` is `Rule.inspect`; Inspecting/Reports and
--                       Inspecting/Agreement compare the two
--   AgentState/Sorting  manifest.go: `sorted_rules` is `sortedRules`; Sorting/Stable is about it
--   AgentState/Detector detector.go: `evaluate` is `Evaluate`, `inspect_manifest` is `Inspect`;
--                       Detector/Agreement and Detector/Winner are about them
--   AgentState/Manifest manifest.go: `validate`, `compile_rules` and `parse_manifest`;
--                       Manifest/Valid and Manifest/Parsed are about them
--   AgentState/Loader   manifest.go: `load` is `Loader.Load`, `load_uncached` is `loadUncached`;
--                       Loader/Cached and Loader/Loads are about them
--   History/Spans       pkg/history/match.go: the merge of ranges; Spans/Merged is about it
--   History/Bytes       pkg/history/prefilter.go: `matches` of a pattern; Bytes/Occurs is about it
--   History/Ascii       prefilter.go: `asciiPrefix`; Ascii/Prefix is about it
--   History/Unicode     what prefilter.go uses of UTF-8 and UTF-16, and `fold` of fold.go
--   History/Prefilter   prefilter.go: the literal of a term, its rarest byte and the escapes
--   History/Stream      prefilter.go: `markChunk` and the scan of a file; Stream/Found is about it
--   History/Compile     prefilter.go: `newBytePrefilter`; Compile/Searchable is about it
--   History/Required    match.go: `requiredLiteral`, on the operators of regexp/syntax;
--                       Required/Contained is about it
--   Examples            runs on concrete inputs
--
-- How the values correspond. A time is the number of nanoseconds since Go's zero time, which is 0;
-- a comparison of a difference of times with a duration is one of sums. Go's int is ℤ without its
-- bound of 64 bits, since the code only compares, increments and prints it. A pointer is an Option,
-- an interface value a data type with a constructor per implementation and one for nil (a typed nil
-- pointer in an interface is not modelled). A string type of constants is a data type with a
-- constructor per constant and `other` for the rest. A map is an association list with one entry
-- per key, whose order is that of the `range` loops: a theorem about all lists is one about all
-- orders. Sessions are immutable values, so the clones of clone.go are not there, but for the one
-- of a snapshot that takes over no dropped errors, `clone_for_mutation`. The reason that
-- state_validation.go returns is an Option, none for the empty string. An error is a value of
-- `Error`, a fallible function of the registry returns a `Result`; the wrapping of its errors is
-- not modelled. The detection reports its errors as texts, so there an `Outcome` holds the text. A
-- journal is the list of its decoded entries; the revisions of the memory store wrap around at 2 ^
-- 64. A compiled regular expression is its test of a text. The prefilter works on bytes, lists of
-- numbers below 256; elsewhere a text is the list of its characters. What a reader gives is the
-- list of the pieces that its calls return; the context is asked before each.
--
-- Fuel. The loops of the registry and of the detection are over lists. In the prefilter a loop that
-- skips ahead has a round for each byte that is left: `matches` and `escaped_candidate` one more,
-- `ascii_prefix`, `folded_candidate` and `json_text` exactly as many, since every round goes on by
-- a byte at least. Without fuel `matches_from` has no answer, which is not the answer false. A
-- slice that Go would stop at with a panic has no value in `slice_to` and `slice_last`, and
-- `or_panic` makes it an error of its own; the other slices stand behind the tests of the code.
--
-- Parameters: the harness catalog (`Rules`: the known harnesses and the policy of each), the short
-- hexadecimal SHA-256 that ids are made of (`Env.short_hash`), and whether the context of a batch
-- is cancelled. Unicode's tables and regular expressions: `Tools` holds strings.ToLower, the %q of
-- fmt, regexp.Compile and the removal of terminal escapes, `Folding` strings.ToLower and the caser
-- of golang.org/x/text. The TOML decoder, the harness catalog and the state of the files are
-- arguments of the loader. The answers of the file watcher, of the timers, of the load and of the
-- callback are arguments of the rounds of a watch.
--
-- Not modelled: files, locks, sockets, processes and JSON of the store; the commands of the memory
-- store; the filters of sessions, whose paths are resolved by the file system; the harness
-- adapters, the observer, the SQL of the history index, the command line and the installers.
pub mod Prelude
pub mod Registry
mod Examples
pub mod AgentState
pub mod History
