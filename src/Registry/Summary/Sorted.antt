-- ===== src/Registry/Summary/Sorted.antt =====
-- pkg/registry/summary.go: the order of the summaries, and the whole.
use Prim.Native.Nat.{Ordering, lt, gt}
use Prim.Native.String.{compare}
use aht.Prelude.{Bool, true, false, ◌&&◌, ◌==◌, String, List, [], ◌∷◌, if◌then◌else◌}
use aht.Prelude.Order.{first_difference}
use aht.Registry.Model.{Session}
use aht.Registry.Summary.{SummaryGroupBy, Summary, Groups, kind_text, grouped}

-- `aEmpty != bEmpty` and the comparisons behind it.
abbrev empty_last : Bool → Bool → Ordering → Ordering
empty_last true false rest = gt
empty_last false true rest = lt
empty_last _ _ rest = rest

-- The comparison of `sortSummaries`; `to_lower` is `strings.ToLower`.
unfoldable pub compare_summaries : (String → String) → SummaryGroupBy → Summary → Summary → Ordering
unfolding first_difference
compare_summaries to_lower SummaryGroupBy.multiplexer_session a b =
    empty_last
      (kind_text a.multiplexer_kind == ""
        && a.multiplexer_server_id == ""
        && a.multiplexer_session_id == ""
        && a.multiplexer_session_name == "")
      (kind_text b.multiplexer_kind == ""
        && b.multiplexer_server_id == ""
        && b.multiplexer_session_id == ""
        && b.multiplexer_session_name == "")
      (first_difference (
        compare (kind_text a.multiplexer_kind) (kind_text b.multiplexer_kind)
        ∷ compare a.multiplexer_server_id b.multiplexer_server_id
        ∷ compare a.multiplexer_session_name b.multiplexer_session_name
        ∷ compare a.multiplexer_session_id b.multiplexer_session_id
        ∷ compare a.group_key b.group_key
        ∷ []))
compare_summaries to_lower SummaryGroupBy.project a b =
    empty_last (a.project_root == "") (b.project_root == "") (
      first_difference (
        compare (to_lower a.group_label) (to_lower b.group_label)
        ∷ compare a.group_label b.group_label
        ∷ compare a.project_root b.project_root
        ∷ compare a.group_key b.group_key
        ∷ []))
compare_summaries to_lower SummaryGroupBy.harness a b =
    empty_last (a.harness == "") (b.harness == "") (
      first_difference (
        compare (to_lower a.harness) (to_lower b.harness)
        ∷ compare a.harness b.harness
        ∷ compare a.group_key b.group_key
        ∷ []))
compare_summaries to_lower (SummaryGroupBy.other g) a b = compare a.group_key b.group_key

-- `slices.SortFunc`, by insertion. Two groups of a kind that `Valid` accepts never compare equal,
-- so every sort gives this.
unfoldable pub insert_summary :
    (String → String) → SummaryGroupBy → Summary → List Summary → List Summary
unfolding compare_summaries
insert_summary to_lower group_by m [] = m ∷ []
insert_summary to_lower group_by m (n ∷ rest) =
    let later = insert_summary to_lower group_by m rest in
    elim (compare_summaries to_lower group_by n m) [ lt ↦ n ∷ later | _ ↦ m ∷ n ∷ rest ]

unfoldable pub sort_summaries : (String → String) → SummaryGroupBy → List Summary → List Summary
unfolding insert_summary
sort_summaries to_lower group_by [] = []
sort_summaries to_lower group_by (m ∷ rest) =
    insert_summary to_lower group_by m (sort_summaries to_lower group_by rest)

abbrev pub summaries_of : Groups → List Summary
summaries_of [] = []
summaries_of ((k, m) ∷ groups) = m ∷ summaries_of groups

abbrev pub group_by_or_default : SummaryGroupBy → SummaryGroupBy
group_by_or_default (SummaryGroupBy.other g) =
    if g == "" then SummaryGroupBy.multiplexer_session else SummaryGroupBy.other g
group_by_or_default group_by = group_by

-- `SummariesWithOptions`, and `Summaries`.
unfoldable pub summaries_with_options :
    (String → String) → List Session → SummaryGroupBy → List Summary
unfolding sort_summaries grouped
summaries_with_options to_lower sessions option =
    let group_by = group_by_or_default option in
    sort_summaries to_lower group_by (summaries_of (grouped sessions group_by []))

unfoldable pub summaries : (String → String) → List Session → List Summary
unfolding summaries_with_options
summaries to_lower sessions =
    summaries_with_options to_lower sessions SummaryGroupBy.multiplexer_session
