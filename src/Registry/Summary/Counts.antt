-- ===== src/Registry/Summary/Counts.antt =====
-- pkg/registry/summary.go: every session is counted once, in the summary of its group.
use Prim.Native.Nat.{lt, eq, gt}
use aht.Prelude.{
  ◌≡◌, refl, ap, ◌∙◌, ℕ, ◌+◌, true, false, String, List, [], ◌∷◌, if◌then◌else◌, arith,
}
use aht.Prelude.Lists.{length, All}
use aht.Registry.Model.{Session}
use aht.Registry.Summary.{
  SummaryGroupBy, Summary, Grouped, Groups, add_activity, add_session, key_eq,
  new_summary_for_group, add_to_group, grouped, session_group_key,
}
use aht.Registry.Summary.Sorted.{
  compare_summaries, insert_summary, sort_summaries, summaries_of, summaries_with_options,
  group_by_or_default,
}

-- Every session of a group has one presence, and one activity unless it is gone.
abbrev pub IsBalanced : Summary → Type 0
IsBalanced m =
    (m.total ≡ m.live + m.gone + m.presence_unknown)
    × (m.live + m.presence_unknown
        ≡ m.running + m.waiting + m.idle + m.failed + m.interrupted + m.activity_unknown)

unfoldable pub sum_total : List Summary → ℕ
sum_total [] = 0
sum_total (m ∷ rest) = m.total + sum_total rest

pub add_session-total : (s : Session) (m : Summary) → (add_session s m).total ≡ m.total + 1
unfolding add_session add_activity
add_session-total s m = ground arith

add_session-IsBalanced : (s : Session) (m : Summary) → IsBalanced m → IsBalanced (add_session s m)
unfolding add_session add_activity
add_session-IsBalanced s m h = ground (arith, h)

pub new_summary-IsBalanced :
    (s : Session) (g : SummaryGroupBy) (k : Grouped)
    → IsBalanced (new_summary_for_group s g k) × ((new_summary_for_group s g k).total ≡ 0)
unfolding new_summary_for_group
new_summary-IsBalanced s g k = ground arith

add_to_group-total :
    (s : Session) (g : SummaryGroupBy) (k : Grouped) (groups : Groups)
    → sum_total (summaries_of (add_to_group s g k groups)) ≡ sum_total (summaries_of groups) + 1
unfolding add_to_group sum_total
add_to_group-total s g (key, label, text) [] =
    let new = new_summary_for_group s g (key, label, text) in
    ground (arith, add_session-total s new, new_summary-IsBalanced s g (key, label, text))
add_to_group-total s g (key, label, text) ((k, m) ∷ groups) =
    ground (arith, add_session-total s m, add_to_group-total s g (key, label, text) groups)

grouped-total :
    (sessions : List Session) (g : SummaryGroupBy) (groups : Groups)
    → sum_total (summaries_of (grouped sessions g groups))
      ≡ sum_total (summaries_of groups) + length sessions
unfolding grouped length
grouped-total [] g groups = omega arith
grouped-total (s ∷ sessions) g groups =
    let next = add_to_group s g (session_group_key s g) groups in
    omega
      (arith, grouped-total sessions g next, add_to_group-total s g (session_group_key s g) groups)

add_to_group-IsBalanced :
    (s : Session) (g : SummaryGroupBy) (k : Grouped) (groups : Groups)
    → All IsBalanced (summaries_of groups)
    → All IsBalanced (summaries_of (add_to_group s g k groups))
unfolding add_to_group All
add_to_group-IsBalanced s g (key, label, text) [] h =
    let new = new_summary_for_group s g (key, label, text) in
    (add_session-IsBalanced s new (new_summary-IsBalanced s g (key, label, text)).0, tt)
add_to_group-IsBalanced s g (key, label, text) ((k, m) ∷ groups) (b, h) =
    let new = add_to_group s g (key, label, text) groups in
    elim (key_eq k key)
      as (λ found.
        All IsBalanced
          (summaries_of (if found then (k, add_session s m) ∷ groups else (k, m) ∷ new))) [
            | true ↦ (add_session-IsBalanced s m b, h)
            | false ↦ (b, add_to_group-IsBalanced s g (key, label, text) groups h)
          ]

grouped-IsBalanced :
    (sessions : List Session) (g : SummaryGroupBy) (groups : Groups)
    → All IsBalanced (summaries_of groups)
    → All IsBalanced (summaries_of (grouped sessions g groups))
unfolding grouped
grouped-IsBalanced [] g groups h = h
grouped-IsBalanced (s ∷ sessions) g groups h =
    grouped-IsBalanced sessions g (add_to_group s g (session_group_key s g) groups)
      (add_to_group-IsBalanced s g (session_group_key s g) groups h)

-- The order of the summaries is no matter.
module _ (to_lower : String → String) (g : SummaryGroupBy) where
  insert_summary-total :
      (m : Summary) (rest : List Summary)
      → sum_total (insert_summary to_lower g m rest) ≡ m.total + sum_total rest
  unfolding insert_summary sum_total
  insert_summary-total m [] = refl
  insert_summary-total m (n ∷ rest) = ground (arith, insert_summary-total m rest)

  insert_summary-IsBalanced :
      (m : Summary) (rest : List Summary)
      → IsBalanced m
      → All IsBalanced rest
      → All IsBalanced (insert_summary to_lower g m rest)
  unfolding insert_summary All
  insert_summary-IsBalanced m [] b h = (b, tt)
  insert_summary-IsBalanced m (n ∷ rest) b (c, h) =
      elim (compare_summaries to_lower g n m)
        as (λ o.
          All IsBalanced
            (elim o [ lt ↦ n ∷ insert_summary to_lower g m rest | _ ↦ m ∷ n ∷ rest ])) [
              | lt ↦ (c, insert_summary-IsBalanced m rest b h)
              | eq ↦ (b, (c, h))
              | gt ↦ (b, (c, h))
            ]

  sort_summaries-counts :
      (l : List Summary)
      → All IsBalanced l
      → (sum_total (sort_summaries to_lower g l) ≡ sum_total l)
        × All IsBalanced (sort_summaries to_lower g l)
  unfolding sort_summaries sum_total All
  sort_summaries-counts [] h = (refl, tt)
  sort_summaries-counts (m ∷ rest) (b, h) =
      let (total, balanced) = sort_summaries-counts rest h in
      let sorted = sort_summaries to_lower g rest in
      (
        insert_summary-total m sorted ∙ ap (λ n. m.total + n) total,
        insert_summary-IsBalanced m sorted b balanced,
      )

-- The totals of the summaries of some sessions add up to the number of the sessions; in each
-- summary the sessions are live, gone or of unknown presence, and those that are not gone are
-- counted under one activity each.
pub summaries_with_options-IsBalanced :
    (to_lower : String → String) (sessions : List Session) (option : SummaryGroupBy)
    → (sum_total (summaries_with_options to_lower sessions option) ≡ length sessions)
      × All IsBalanced (summaries_with_options to_lower sessions option)
unfolding summaries_with_options
summaries_with_options-IsBalanced to_lower sessions option =
    let g = group_by_or_default option in
    let (total, balanced) =
      sort_summaries-counts to_lower g (summaries_of (grouped sessions g []))
        (grouped-IsBalanced sessions g [] (unfold All in tt)) in
    (total ∙ grouped-total sessions g [] ∙ unfold sum_total in omega arith, balanced)
