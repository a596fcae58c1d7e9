-- ===== src/AgentState/Sorting.antt =====
-- internal/agentstate/manifest.go: the order in which the rules are tried. The result of
-- `slices.SortStableFunc` is determined; here it is the insertion sort that is stable.
pub mod Stable
use aht.Prelude.{ℤ, Bool, List, [], ◌∷◌, if◌then◌else◌}
use aht.Prelude.Int.{int_leb}
use aht.AgentState.Model.{Rule}

-- A rule goes before the first that is not above it, so before those of its own priority.
unfoldable pub insert_rule : Rule → List Rule → List Rule
insert_rule rule [] = rule ∷ []
insert_rule rule (r ∷ rules) =
    let rest = insert_rule rule rules in
    if int_leb r.priority rule.priority then rule ∷ r ∷ rules else r ∷ rest

-- `sortedRules`.
unfoldable pub sorted_rules : List Rule → List Rule
unfolding insert_rule
sorted_rules [] = []
sorted_rules (rule ∷ rules) = insert_rule rule (sorted_rules rules)
