-- ===== src/AgentState/Sorting/Stable.antt =====
-- internal/agentstate/manifest.go: the rules are tried by falling priority, and rules of one
-- priority in the order of the manifest.
use aht.Prelude.{
  ◌⊎◌, inl, inr, ◌≡◌, refl, sym, subst, ℤ, int_eq, Bool, true, false, List, [], ◌∷◌, if◌then◌else◌,
  arith,
}
use aht.Prelude.Int.{int_leb, int_leb_total, int_leb_trans}
use aht.Prelude.Lists.{All, All-map, filter}
use aht.AgentState.Model.{Rule}
use aht.AgentState.Sorting.{insert_rule, sorted_rules}

abbrev pub NotAbove : Rule → Rule → Type 0
NotAbove top rule = int_leb rule.priority top.priority ≡ true

-- No rule is above one that is tried before it.
unfoldable pub Descending : List Rule → Type 0
unfolding All
Descending [] = Unit
Descending (rule ∷ rules) = All (NotAbove rule) rules × Descending rules

-- What holds of every rule holds in the order in which they are tried.
pub insert_rule-All {κ} :
    (P : Rule → Type κ) (rule : Rule) (rules : List Rule)
    → P rule
    → All P rules
    → All P (insert_rule rule rules)
unfolding All insert_rule
insert_rule-All P rule [] p h = (p, tt)
insert_rule-All P rule (r ∷ rules) p (q, h) =
    elim (int_leb r.priority rule.priority)
      as (λ b. All P (if b then rule ∷ r ∷ rules else r ∷ insert_rule rule rules)) [
        | true ↦ (p, (q, h))
        | false ↦ (q, insert_rule-All P rule rules p h)
      ]

pub sorted_rules-All {κ} :
    (P : Rule → Type κ) (rules : List Rule) → All P rules → All P (sorted_rules rules)
unfolding All sorted_rules
sorted_rules-All P [] h = tt
sorted_rules-All P (rule ∷ rules) (p, h) =
    insert_rule-All P rule (sorted_rules rules) p (sorted_rules-All P rules h)

insert_rule-Descending :
    (rule : Rule) (rules : List Rule) → Descending rules → Descending (insert_rule rule rules)
unfolding Descending insert_rule All
insert_rule-Descending rule [] h = (tt, tt)
insert_rule-Descending rule (r ∷ rules) (below, h) =
    go (int_leb r.priority rule.priority) refl (insert_rule-Descending rule rules h)
  where
    go :
        (b : Bool)
        → int_leb r.priority rule.priority ≡ b
        → Descending (insert_rule rule rules)
        → Descending (if b then rule ∷ r ∷ rules else r ∷ insert_rule rule rules)
    go true e ih = (
      (e, All-map (λ s k. int_leb_trans s.priority r.priority rule.priority k e) rules below),
      (below, h),
    )
    go false e ih = (
      insert_rule-All (NotAbove r) rule rules (int_leb_total r.priority rule.priority e) below,
      ih,
    )

pub sorted_rules-Descending : (rules : List Rule) → Descending (sorted_rules rules)
unfolding Descending sorted_rules
sorted_rules-Descending [] = tt
sorted_rules-Descending (rule ∷ rules) =
    insert_rule-Descending rule (sorted_rules rules) (sorted_rules-Descending rules)

-- The rules of one priority.
abbrev pub of_priority : ℤ → List Rule → List Rule
of_priority n rules = filter (λ r. int_eq r.priority n) rules

insert_rule-of_priority :
    (n : ℤ) (rule : Rule) (rules : List Rule)
    → of_priority n (insert_rule rule rules) ≡ of_priority n (rule ∷ rules)
unfolding filter insert_rule
insert_rule-of_priority n rule [] = refl
insert_rule-of_priority n rule (r ∷ rules) = ground (arith, insert_rule-of_priority n rule rules)

-- `sortedRules` puts no rule before one of a higher priority, and leaves the rules of each
-- priority as they are, in the order of the manifest.
pub sorted_rules-of_priority :
    (n : ℤ) (rules : List Rule)
    → Descending (sorted_rules rules) × (of_priority n (sorted_rules rules) ≡ of_priority n rules)
unfolding sorted_rules filter
sorted_rules-of_priority n [] = (sorted_rules-Descending [], refl)
sorted_rules-of_priority n (rule ∷ rules) = (
  sorted_rules-Descending (rule ∷ rules),
  ground (
    arith,
    insert_rule-of_priority n rule (sorted_rules rules),
    (sorted_rules-of_priority n rules).1,
  ),
)

-- The rule is one of the list.
unfoldable pub Mem : Rule → List Rule → Type 0
Mem rule [] = ⊥
Mem rule (r ∷ rules) = (rule ≡ r) ⊎ Mem rule rules

insert_rule-Mem :
    (s rule : Rule) (rules : List Rule) → Mem s (insert_rule rule rules) → Mem s (rule ∷ rules)
unfolding Mem insert_rule
insert_rule-Mem s rule [] h = h
insert_rule-Mem s rule (r ∷ rules) h =
    go (int_leb r.priority rule.priority) (insert_rule-Mem s rule rules) h
  where
    go :
        (b : Bool)
        → (Mem s (insert_rule rule rules) → (s ≡ rule) ⊎ Mem s rules)
        → Mem s (if b then rule ∷ r ∷ rules else r ∷ insert_rule rule rules)
        → (s ≡ rule) ⊎ ((s ≡ r) ⊎ Mem s rules)
    go true ih h = h
    go false ih (inl e) = inr (inl e)
    go false ih (inr k) = elim (ih k) [ inl e ↦ inl e | inr m ↦ inr (inr m) ]

pub sorted_rules-Mem : (s : Rule) (rules : List Rule) → Mem s (sorted_rules rules) → Mem s rules
unfolding Mem sorted_rules
sorted_rules-Mem s [] h = h
sorted_rules-Mem s (rule ∷ rules) h = elim (insert_rule-Mem s rule (sorted_rules rules) h) [
  | inl e ↦ inl e
  | inr m ↦ inr (sorted_rules-Mem s rules m)
]

insert_rule-All_back {κ} :
    (P : Rule → Type κ) (rule : Rule) (rules : List Rule)
    → All P (insert_rule rule rules)
    → P rule × All P rules
unfolding All insert_rule
insert_rule-All_back P rule [] h = h
insert_rule-All_back P rule (r ∷ rules) h =
    go (int_leb r.priority rule.priority) (insert_rule-All_back P rule rules) h
  where
    go :
        (b : Bool)
        → (All P (insert_rule rule rules) → P rule × All P rules)
        → All P (if b then rule ∷ r ∷ rules else r ∷ insert_rule rule rules)
        → P rule × (P r × All P rules)
    go true ih h = h
    go false ih (p, k) = let (q, l) = ih k in (q, (p, l))

pub sorted_rules-All_back {κ} :
    (P : Rule → Type κ) (rules : List Rule) → All P (sorted_rules rules) → All P rules
unfolding All sorted_rules
sorted_rules-All_back P [] h = tt
sorted_rules-All_back P (rule ∷ rules) h =
    let (p, k) = insert_rule-All_back P rule (sorted_rules rules) h in
    (p, sorted_rules-All_back P rules k)

pub All-Mem {κ} :
    (P : Rule → Type κ) (rule : Rule) (rules : List Rule) → All P rules → Mem rule rules → P rule
unfolding All Mem
All-Mem P rule (r ∷ rules) (p, h) (inl e) = subst P (sym e) p
All-Mem P rule (r ∷ rules) (p, h) (inr m) = All-Mem P rule rules h m
All-Mem P rule [] h m = absurd m
