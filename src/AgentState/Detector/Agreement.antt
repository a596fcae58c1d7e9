-- ===== src/AgentState/Detector/Agreement.antt =====
-- internal/agentstate/detector.go: `Inspect` comes to the decision of `Evaluate`.
use aht.Prelude.{
  ◌≡◌, refl, ap, ◌∙◌, Bool, true, false, not, ◌==◌, List, [], ◌∷◌, if◌then◌else◌, arith,
}
use aht.Prelude.Lists.{All, All-map}
use aht.AgentState.Model.{Tools, Rule, Manifest, Snapshot, done}
use aht.AgentState.Matching.{matches}
use aht.AgentState.Inspecting.{inspect}
use aht.AgentState.Inspecting.Agreement.{inspect-matches}
use aht.AgentState.Sorting.{sorted_rules}
use aht.AgentState.Sorting.Stable.{sorted_rules-All}
use aht.AgentState.Detector.{
  Course, with_evidence, decided, evaluate_rules, evaluate, course_decision, inspect_rule,
  inspect_rules, inspect_manifest, initial_decision, first_course,
}
use aht.AgentState.Manifest.{validate}
use aht.AgentState.Manifest.Valid.{Named, validate-valid}

-- Once there is a winner, the rest of the rules leaves the decision alone.
inspect_rules-settled :
    (t : Tools) (snapshot : Snapshot) (rules : List Rule) (c : Course)
    → (c.decision.rule_id == "") ≡ false
    → (inspect_rules t snapshot rules c).decision ≡ c.decision
unfolding inspect_rules inspect_rule course_decision
inspect_rules-settled t snapshot [] c h = refl
inspect_rules-settled t snapshot (rule ∷ rules) c h =
    let next = inspect_rule t rule (inspect t rule snapshot) c in
    let same : next.decision ≡ c.decision = ground (arith, h) in
    inspect_rules-settled t snapshot rules next (ground (arith, same, h)) ∙ same

inspect_rules-evaluate :
    (t : Tools) (snapshot : Snapshot) (rules : List Rule) (c : Course)
    → (c.decision.rule_id == "") ≡ true
    → All Named rules
    → (inspect_rules t snapshot rules c).decision ≡ evaluate_rules t snapshot rules c.decision
unfolding inspect_rules inspect_rule course_decision evaluate_rules All with_evidence decided
inspect_rules-evaluate t snapshot [] c h named = refl
inspect_rules-evaluate t snapshot (rule ∷ rules) c h (name, named) =
    go (matches t rule snapshot) ((inspect-matches t rule snapshot).0)
      (λ d k. inspect_rules-evaluate t snapshot rules d k named)
  where
    go :
        (b : Bool)
        → (inspect t rule snapshot).matched ≡ b
        → ((d : Course)
            → (d.decision.rule_id == "") ≡ true
            → (inspect_rules t snapshot rules d).decision
              ≡ evaluate_rules t snapshot rules d.decision)
        → (inspect_rules t snapshot rules
            (inspect_rule t rule (inspect t rule snapshot) c)).decision
          ≡ (if not b
              then evaluate_rules t snapshot rules (with_evidence rule b c.decision)
              else decided t rule (with_evidence rule b c.decision))
    go true e ih =
        let next = inspect_rule t rule (inspect t rule snapshot) c in
        let same : next.decision ≡ decided t rule (with_evidence rule true c.decision) =
          ground (arith, h, e) in
        inspect_rules-settled t snapshot rules next (ground (arith, same, name)) ∙ same
    go false e ih =
        let next = inspect_rule t rule (inspect t rule snapshot) c in
        let same : next.decision ≡ with_evidence rule false c.decision = ground (arith, h, e) in
        ih next (ground (arith, same, h)) ∙ ap (evaluate_rules t snapshot rules) same

-- On a manifest that `validate` lets pass, the decision that `Inspect` reports, with its
-- evidence, is the decision of `Evaluate` on the same screen.
pub inspect_manifest-evaluate :
    (t : Tools) (m : Manifest) (snapshot : Snapshot)
    → validate t m ≡ done tt
    → (inspect_manifest t m snapshot).decision ≡ evaluate t m snapshot
unfolding inspect_manifest evaluate initial_decision
inspect_manifest-evaluate t m snapshot h =
    let (version, rules, distinct, usable) = validate-valid t m h in
    inspect_rules-evaluate t snapshot (sorted_rules m.rules) (first_course m) refl
      (sorted_rules-All Named m.rules (All-map (λ r u. u.named) m.rules usable))
