-- ===== src/AgentState/Manifest/Valid.antt =====
-- internal/agentstate/manifest.go: what the checks of a manifest promise of its rules.
use aht.Prelude.{
  ◌≡◌, refl, ℕ, ◌+◌, pos, int_eq, Bool, true, false, not, ◌||◌, ◌==◌, String, List, [], ◌∷◌, arith,
  eq_iff, Bool-cases, inl, inr, subst,
}
use mathlib.Core.Bool.{true≢false}
use aht.Prelude.Text.{trim_space}
use aht.Prelude.Int.{int_eq_iff}
use aht.Prelude.Lists.{All, nonempty}
use aht.Registry.Normalize.{is_one_of, normalize_activity}
use aht.AgentState.Model.{Tools, Rule, Manifest, Outcome, done, failed, is_done}
use aht.AgentState.Region.{select_region}
use aht.AgentState.Region.Selected.{select_region-accepts}
use aht.AgentState.Manifest.{
  validate, validate_rules, validate_rule, Checked, refuse_if, ◌>>◌, unsupported, detail_misplaced,
  has_positive_matcher, validate_matchers, region_checked,
}

-- Checks that follow each other pass together.
rule_passed :
    (blank repeated : Bool) (x y : String) (checked rest : Checked)
    → (refuse_if blank x >> refuse_if repeated y >> checked >> rest) ≡ done tt
    → (blank ≡ false) × (repeated ≡ false) × (checked ≡ done tt) × (rest ≡ done tt)
rule_passed true repeated x y checked rest h = cc
rule_passed false true x y checked rest h = cc
rule_passed false false x y (failed cause) rest h = cc
rule_passed false false x y (done tt) rest h = (refl, refl, refl, h)

refuse_if-passed :
    (bad : Bool) (text : String) (rest : Checked)
    → (refuse_if bad text >> rest) ≡ done tt
    → (bad ≡ false) × (rest ≡ done tt)
refuse_if-passed true text rest h = cc
refuse_if-passed false text rest h = (refl, h)

fields_passed :
    (state detail positive : Bool) (x y z : String) (region matchers : Checked)
    → (refuse_if state x >> refuse_if detail y >> region >> refuse_if positive z >> matchers)
      ≡ done tt
    → (state ≡ false) × (region ≡ done tt) × (positive ≡ false) × (matchers ≡ done tt)
fields_passed true detail positive x y z region matchers h = cc
fields_passed false true positive x y z region matchers h = cc
fields_passed false false positive x y z (failed cause) matchers h = cc
fields_passed false false true x y z (done tt) matchers h = cc
fields_passed false false false x y z (done tt) matchers h = (refl, refl, refl, h)

abbrev pub Named : Rule → Type 0
Named rule = (rule.id == "") ≡ false

trimmed_named : (id : String) → (trim_space id == "") ≡ false → (id == "") ≡ false
unfolding trim_space
trimmed_named id h = elim (Bool-cases (id == "")) [
  | inl e ↦ absurd (true≢false (subst (λ s. (trim_space s == "") ≡ false) ((eq_iff id "").0 e) h))
  | inr e ↦ e
]

region_checked-passed :
    (t : Tools) (rule : Rule) (selected : Outcome (List String))
    → region_checked t rule selected ≡ done tt
    → is_done selected ≡ true
region_checked-passed t rule (done lines) h = refl
region_checked-passed t rule (failed cause) h = cc

-- What the detection asks of a rule: an id, a supported state, a region of every screen, and a
-- matcher that something must satisfy.
pub record IsUsable (t : Tools) (rule : Rule) : Type 0 where
  pub named : Named rule
  pub state : unsupported (normalize_activity t.to_lower rule.state) ≡ false
  pub region : (lines : List String) → is_done (select_region t rule.region lines) ≡ true
  pub positive : has_positive_matcher rule ≡ true

validate_rule-IsUsable :
    (t : Tools) (rule : Rule)
    → (trim_space rule.id == "") ≡ false
    → validate_rule t rule ≡ done tt
    → IsUsable t rule
unfolding validate_rule
validate_rule-IsUsable t rule name h =
    let activity = normalize_activity t.to_lower rule.state in
    let (state, region, positive, matchers) =
      fields_passed (unsupported activity) (detail_misplaced rule activity)
        (not (has_positive_matcher rule)) _ _ _
        (region_checked t rule (select_region t rule.region [])) (validate_matchers t rule) h in
    record {
      named = trimmed_named rule.id name;
      state = state;
      region = λ lines.
          select_region-accepts t rule.region [] lines
            (region_checked-passed t rule (select_region t rule.region []) region);
      positive = ground (arith, positive);
    }

-- The ids of a valid manifest are distinct.
unfoldable pub DistinctIds : List String → List Rule → Type 0
DistinctIds seen [] = Unit
DistinctIds seen (rule ∷ rules) =
    (is_one_of rule.id seen ≡ false) × DistinctIds (rule.id ∷ seen) rules

validate_rules-valid :
    (t : Tools) (index : ℕ) (seen : List String) (rules : List Rule)
    → validate_rules t index seen rules ≡ done tt
    → DistinctIds seen rules × All (IsUsable t) rules
unfolding validate_rules All DistinctIds
validate_rules-valid t index seen [] h = (tt, tt)
validate_rules-valid t index seen (rule ∷ rules) h =
    let (name, fresh, checked, rest) =
      rule_passed (trim_space rule.id == "") (is_one_of rule.id seen) _ _ (validate_rule t rule)
        (validate_rules t (index + 1) (rule.id ∷ seen) rules) h in
    let (distinct, usable) = validate_rules-valid t (index + 1) (rule.id ∷ seen) rules rest in
    ((fresh, distinct), (validate_rule-IsUsable t rule name checked, usable))

pub validate-valid :
    (t : Tools) (m : Manifest)
    → validate t m ≡ done tt
    → (m.version ≡ pos 1)
      × (nonempty m.rules ≡ true)
      × DistinctIds [] m.rules
      × All (IsUsable t) m.rules
unfolding validate
validate-valid t m h =
    let (head, rest) =
      refuse_if-passed (not (int_eq m.version (pos 1)) || not (nonempty m.rules)) _
        (validate_rules t 0 [] m.rules) h in
    let (distinct, usable) = validate_rules-valid t 0 [] m.rules rest in
    (ground (arith, head, int_eq_iff m.version (pos 1)), ground (arith, head), distinct, usable)
