-- ===== src/Registry/Summary/Members.antt =====
-- pkg/registry/summary.go: a group has the sessions of its key.
use aht.Prelude.{ℕ, ◌+◌, List, [], ◌∷◌, if◌then◌else◌}
use aht.Registry.Model.{Session}
use aht.Registry.Summary.{SummaryGroupBy, SummaryGroupKey, Groups, key_eq, session_group_key}

-- The number in the summaries of a key.
unfoldable pub size_of : SummaryGroupKey → Groups → ℕ
size_of key [] = 0
size_of key ((k, m) ∷ groups) = (if key_eq k key then m.total else 0) + size_of key groups

-- The sessions whose key it is.
unfoldable pub members : SummaryGroupKey → SummaryGroupBy → List Session → ℕ
members key g [] = 0
members key g (s ∷ sessions) =
    (if key_eq (session_group_key s g).0 key then 1 else 0) + members key g sessions
