-- ===== src/AgentState/Detector/Winner.antt =====
-- internal/agentstate/detector.go: the rule that decides.
use aht.Prelude.{
  ◌≡◌, refl, sym, ap, subst, Option, none, some, ◌∙◌, ◌⊎◌, inl, inr, Bool, true, false, not, List,
  [], ◌∷◌, if◌then◌else◌,
}
use aht.Prelude.Int.{int_leb_refl}
use aht.Prelude.Lists.{All, All-map}
use aht.Registry.Model.{Activity}
use aht.AgentState.Model.{Tools, Rule, Manifest, Snapshot, Decision, done}
use aht.AgentState.Matching.{matches}
use aht.AgentState.Sorting.{sorted_rules}
use aht.AgentState.Sorting.Stable.{
  All-Mem, NotAbove, Descending, sorted_rules-Descending, sorted_rules-Mem, sorted_rules-All_back,
  Mem,
}
use mathlib.Core.Bool.{true≢false}
use aht.Registry.Normalize.{normalize_activity}
use aht.AgentState.Manifest.{validate, unsupported}
use aht.AgentState.Manifest.Valid.{IsUsable, validate-valid}
use aht.AgentState.Detector.{
  stated_activity, with_evidence, decided, evaluate_rules, evaluate, initial_decision,
}

-- What a decision takes from its rule.
abbrev pub TakesFrom : Tools → Rule → Decision → Type 0
TakesFrom t rule d =
    (d.rule_id ≡ rule.id)
    × (d.detail ≡ rule.detail)
    × (d.reason ≡ "manifest_rule")
    × (d.activity ≡ stated_activity (normalize_activity t.to_lower rule.state))

-- A rule of the list matches, no rule that matches is above it, and the decision is its own.
pub record IsWinner (t : Tools) (s : Snapshot) (rules : List Rule) (d : Decision) (rule : Rule)
    : Type 0 where
  pub listed : Mem rule rules
  pub matched : matches t rule s ≡ true
  pub highest : All (λ r. matches t r s ≡ true → NotAbove rule r) rules
  pub taken : TakesFrom t rule d

-- The fields of the decision that the evidence does not touch.
abbrev SameButEvidence : Decision → Decision → Type 0
SameButEvidence d e =
    (d.activity ≡ e.activity)
    × (d.detail ≡ e.detail)
    × (d.reason ≡ e.reason)
    × (d.rule_id ≡ e.rule_id)

abbrev Outcomes : Tools → Snapshot → List Rule → Decision → Decision → Type 0
Outcomes t s rules start d =
    (All (λ r. matches t r s ≡ false) rules × SameButEvidence d start)
    ⊎ ((rule : Rule) × IsWinner t s rules d rule)

evaluate_rules-Outcomes :
    (t : Tools) (s : Snapshot) (rules : List Rule) (start : Decision)
    → Descending rules
    → Outcomes t s rules start (evaluate_rules t s rules start)
unfolding evaluate_rules Descending All with_evidence Mem
evaluate_rules-Outcomes t s [] start h = inl (tt, (refl, refl, refl, refl))
evaluate_rules-Outcomes t s (rule ∷ rules) start (below, h) =
    go (matches t rule s) refl
      (evaluate_rules-Outcomes t s rules (with_evidence rule false start) h)
  where
    go :
        (b : Bool)
        → matches t rule s ≡ b
        → Outcomes t s rules
            (with_evidence rule false start)
            (evaluate_rules t s rules (with_evidence rule false start))
        → Outcomes t s (rule ∷ rules) start (
            if not b
            then evaluate_rules t s rules (with_evidence rule b start)
            else decided t rule (with_evidence rule b start))
    go true e ih = inr (
      rule,
      record {
        listed = inl refl;
        matched = e;
        highest = (λ k. int_leb_refl rule.priority, All-map (λ r below k. below) rules below);
        taken = unfold decided in (refl, refl, refl, refl);
      },
    )
    go false e (inl (silent, same)) = inl ((e, silent), same)
    go false e (inr (winner, w)) = inr (
      winner,
      record {
        listed = inr w.listed;
        matched = w.matched;
        highest = (λ k. absurd (true≢false (sym k ∙ e)), w.highest);
        taken = w.taken;
      },
    )

supported :
    (activity : Option Activity)
    → unsupported activity ≡ false
    → activity ≡ some (stated_activity activity)
supported none h = unfold unsupported in absurd (true≢false h)
supported (some a) h = refl

-- On a manifest that `validate` lets pass, `Evaluate` says unknown where no rule matches, for the
-- reason `no_rule_matched` and with no rule. Otherwise a rule of the manifest that matches
-- decides: no rule that matches has a higher priority, and id, detail and activity of the
-- decision are those of the rule, the activity being one that a rule may state.
pub evaluate-IsWinner :
    (t : Tools) (m : Manifest) (s : Snapshot)
    → validate t m ≡ done tt
    → (All (λ r. matches t r s ≡ false) m.rules
        × ((evaluate t m s).activity ≡ Activity.unknown)
        × ((evaluate t m s).reason ≡ "no_rule_matched")
        × ((evaluate t m s).rule_id ≡ ""))
      ⊎ ((rule : Rule) × IsWinner t s m.rules (evaluate t m s) rule
          × (normalize_activity t.to_lower rule.state ≡ some (evaluate t m s).activity)
          × (unsupported (some (evaluate t m s).activity) ≡ false))
unfolding evaluate initial_decision
evaluate-IsWinner t m s h = go (
    evaluate_rules-Outcomes t s (sorted_rules m.rules) (initial_decision m)
      (sorted_rules-Descending m.rules))
  where
    d : Decision
    d = evaluate_rules t s (sorted_rules m.rules) (initial_decision m)

    go :
        Outcomes t s (sorted_rules m.rules) (initial_decision m) d
        → (All (λ r. matches t r s ≡ false) m.rules
            × (d.activity ≡ Activity.unknown)
            × (d.reason ≡ "no_rule_matched")
            × (d.rule_id ≡ ""))
          ⊎ ((rule : Rule) × IsWinner t s m.rules d rule
              × (normalize_activity t.to_lower rule.state ≡ some d.activity)
              × (unsupported (some d.activity) ≡ false))
    go (inl (silent, (activity, detail, reason, id))) =
        inl (sorted_rules-All_back _ m.rules silent, activity, reason, id)
    go (inr (rule, w)) =
        let listed = sorted_rules-Mem rule m.rules w.listed in
        let (version, rules, distinct, usable) = validate-valid t m h in
        let u = All-Mem (IsUsable t) rule m.rules usable listed in
        let state = normalize_activity t.to_lower rule.state in
        let (id, detail, reason, activity) = w.taken in
        let named : state ≡ some d.activity = supported state u.state ∙ ap some (sym activity) in
        inr (
          rule,
          record {
            listed = listed;
            matched = w.matched;
            highest = sorted_rules-All_back _ m.rules w.highest;
            taken = w.taken;
          },
          named,
          subst (λ a. unsupported a ≡ false) named u.state,
        )
