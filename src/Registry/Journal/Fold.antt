-- ===== src/Registry/Journal/Fold.antt =====
-- `foldJournal` of journal.go, which recovers a snapshot from the journal.
use aht.Prelude.{
  ◌≡◌, ◌≤◌, ◌<◌, ◌⊎◌, ℕ, refl, Bool, true, false, none, some, Option, List, [], ◌∷◌, ◌++◌, leb,
  arith, if◌then◌else◌, ◌∙◌, sym, inl, inr, ap,
}
use aht.Registry.Slots.{Error, Result, ok, err, ◌>>=◌, unless_err-eq_ok}
use aht.Registry.Snapshot.{Snapshot}
use aht.Registry.Reducer.{Env}
use aht.Registry.Journal.{
  Context, JournalEntry, JournalResult, DecodedEntry, apply_journal_entry, fold_entry, fold_journal,
  first_rejected,
}

module _ (env : Env) (done : Context) where
  -- An entry that is applied leaves its sequence in the snapshot.
  pub apply_journal_entry-sequence :
      (snap : Snapshot) (entry : JournalEntry) (next : Snapshot) (result : JournalResult)
      → apply_journal_entry env done snap entry ≡ ok (next, result)
      → next.journal_sequence ≡ entry.sequence
  unfolding apply_journal_entry
  apply_journal_entry-sequence snap entry next result e = ground arith

  fold_entry-applied :
      (snap : Snapshot) (d : DecodedEntry) (next : Snapshot)
      → fold_entry env done snap d ≡ ok next
      → (result : JournalResult) × (apply_journal_entry env done snap d.entry ≡ ok (next, result))
  unfolding fold_entry
  fold_entry-applied snap d next e = go (first_rejected d.rejected 0 d.entry.observations) e
    where
      go :
          (rejected : Option Error)
          → (elim rejected [
            | some e ↦ err e
            | none ↦ do (next, _) ← apply_journal_entry env done snap d.entry; ok next
          ])
            ≡ ok next
          → (result : JournalResult) × (apply_journal_entry env done snap d.entry
              ≡ ok (next, result))
      go (some x) e = cc
      go none e =
          let ((final, result), applied, last) =
            unless_err-eq_ok _ (apply_journal_entry env done snap d.entry) e in
          let same : final ≡ next = ground arith in
          (result, applied ∙ ap (λ (s : Snapshot). ok (s, result)) same)

  fold_entry-sequence :
      (snap : Snapshot) (d : DecodedEntry) (next : Snapshot)
      → fold_entry env done snap d ≡ ok next
      → next.journal_sequence ≡ d.entry.sequence
  fold_entry-sequence snap d next e =
      let (result, applied) = fold_entry-applied snap d next e in
      apply_journal_entry-sequence snap d.entry next result applied

  fold_journal-step :
      (snap : Snapshot) (d : DecodedEntry) (rest : List DecodedEntry) (out : Snapshot)
      → fold_journal env done snap (d ∷ rest) ≡ ok out
      → ((d.entry.sequence ≤ snap.journal_sequence) × (fold_journal env done snap rest ≡ ok out))
        ⊎ ((snap.journal_sequence < d.entry.sequence)
            × ((next : Snapshot) × (fold_entry env done snap d ≡ ok next)
                × (fold_journal env done next rest ≡ ok out)))
  unfolding fold_journal
  fold_journal-step snap d rest out e = go (leb d.entry.sequence snap.journal_sequence) refl e
    where
      go :
          (b : Bool)
          → leb d.entry.sequence snap.journal_sequence ≡ b
          → (if b
              then fold_journal env done snap rest
              else fold_entry env done snap d >>= λ next. fold_journal env done next rest)
            ≡ ok out
          → ((d.entry.sequence ≤ snap.journal_sequence)
              × (fold_journal env done snap rest ≡ ok out))
            ⊎ ((snap.journal_sequence < d.entry.sequence)
                × ((next : Snapshot) × (fold_entry env done snap d ≡ ok next)
                    × (fold_journal env done next rest ≡ ok out)))
      go true b e = inl (ground arith, e)
      go false b e = inr (ground arith, unless_err-eq_ok _ (fold_entry env done snap d) e)

  -- The recovery takes no sequence back.
  pub fold_journal-sequence :
      (snap : Snapshot) (entries : List DecodedEntry) (out : Snapshot)
      → fold_journal env done snap entries ≡ ok out
      → snap.journal_sequence ≤ out.journal_sequence
  unfolding fold_journal
  fold_journal-sequence snap [] out e = ground arith
  fold_journal-sequence snap (d ∷ rest) out e = elim (fold_journal-step snap d rest out e) [
    | inl (_, more) ↦ fold_journal-sequence snap rest out more
    | inr (later, (next, folded, more)) ↦
        ground
          (arith, fold_journal-sequence next rest out more, fold_entry-sequence snap d next folded)
  ]

  -- Every entry is at most the sequence of the snapshot.
  unfoldable pub Covers : ℕ → List DecodedEntry → Type 0
  Covers n [] = Unit {0}
  Covers n (d ∷ rest) = (d.entry.sequence ≤ n) × Covers n rest

  pub fold_journal-Covers :
      (snap : Snapshot) (entries : List DecodedEntry) (out : Snapshot)
      → fold_journal env done snap entries ≡ ok out
      → Covers out.journal_sequence entries
  unfolding Covers
  fold_journal-Covers snap [] out e = tt
  fold_journal-Covers snap (d ∷ rest) out e = elim (fold_journal-step snap d rest out e) [
    | inl (early, more) ↦ (
      ground (arith, fold_journal-sequence snap rest out more),
      fold_journal-Covers snap rest out more,
    )
    | inr (later, (next, folded, more)) ↦ (
      ground
          (arith, fold_journal-sequence next rest out more, fold_entry-sequence snap d next folded),
      fold_journal-Covers next rest out more,
    )
  ]

  fold_journal-covered :
      (snap : Snapshot) (entries rest : List DecodedEntry)
      → Covers snap.journal_sequence entries
      → fold_journal env done snap (entries ++ rest) ≡ fold_journal env done snap rest
  unfolding Covers fold_journal
  fold_journal-covered snap [] rest c = refl
  fold_journal-covered snap (d ∷ entries) rest (early, c) =
      ground (arith, fold_journal-covered snap entries rest c)

  -- The recovery of a journal in two parts is that of the whole.
  pub fold_journal-append :
      (snap : Snapshot) (entries rest : List DecodedEntry)
      → fold_journal env done snap (entries ++ rest)
        ≡ (fold_journal env done snap entries >>= λ next. fold_journal env done next rest)
  unfolding fold_journal
  fold_journal-append snap [] rest = refl
  fold_journal-append snap (d ∷ entries) rest =
      go (leb d.entry.sequence snap.journal_sequence) (fold_entry env done snap d)
        (λ next. fold_journal-append next entries rest)
    where
      go :
          (b : Bool) (folded : Result Snapshot)
          → ((next : Snapshot)
              → fold_journal env done next (entries ++ rest)
                ≡ (fold_journal env done next entries >>= λ last. fold_journal env done last rest))
          → (if b
              then fold_journal env done snap (entries ++ rest)
              else folded >>= λ next. fold_journal env done next (entries ++ rest))
            ≡ ((if b
                  then fold_journal env done snap entries
                  else folded >>= λ next. fold_journal env done next entries)
                >>= λ last. fold_journal env done last rest)
      go true folded same = same snap
      go false (err e) same = refl
      go false (ok next) same = same next

  -- Where `foldJournal` recovers a checkpoint from a snapshot and some entries, the recovery from
  -- the checkpoint and the same entries, with any others behind them, gives what the recovery
  -- from the snapshot gives, errors included: a crash before the journal is truncated loses and
  -- repeats nothing.
  pub fold_journal-checkpoint :
      (snap checkpoint : Snapshot) (entries rest : List DecodedEntry)
      → fold_journal env done snap entries ≡ ok checkpoint
      → fold_journal env done checkpoint (entries ++ rest)
        ≡ fold_journal env done snap (entries ++ rest)
  fold_journal-checkpoint snap checkpoint entries rest e =
      let later : Result Snapshot → Result Snapshot =
        λ r. r >>= λ last. fold_journal env done last rest in
      fold_journal-covered checkpoint entries rest (fold_journal-Covers snap entries checkpoint e)
      ∙ sym (fold_journal-append snap entries rest ∙ ap later e)
