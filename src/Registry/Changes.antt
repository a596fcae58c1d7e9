-- ===== src/Registry/Changes.antt =====
-- pkg/registry/changes.go: the changes between two states that the consumers see.
pub mod Found
use aht.Prelude.{
  Bool, true, false, not, String, none, some, decide, if◌then◌else◌, List, [], ◌∷◌, ◌++◌, is_some,
}
use aht.Prelude.Dict.{lookup}
use aht.Prelude.Order.{str_lt}
use aht.Registry.Model.{Session}
use aht.Registry.Values.{zero_time, zero_incarnation, no_observations}
use aht.Registry.Equality.{Session-discrete}
use aht.Registry.Liveness.{decision, set_decision}
use aht.Registry.Matching.{Sessions}

pub record Change : Type 0 where
  pub id : String
  pub removed : Bool

-- `consumerState`.
unfoldable pub consumer_state : Session → Session
unfolding decision set_decision
consumer_state s =
    let hidden = record s {
      incarnation = zero_incarnation;
      observations = no_observations;
      updated_at = zero_time;
    } in
    elim (decision hidden) [
      | none ↦ hidden
      | some d ↦ set_decision (some (record d { observed_at = zero_time })) hidden
    ]

-- `reflect.DeepEqual` on two consumer states.
unfoldable pub looks_same : Session → Session → Bool
unfolding consumer_state Session-discrete decide
looks_same s t = decide (Session-discrete (consumer_state s) (consumer_state t))

-- The body of the first loop.
abbrev pub change_of : String → Session → Sessions → List Change
change_of id previous after = elim (lookup id after) [
  | none ↦ record { id = id; removed = true } ∷ []
  | some current ↦
      if looks_same previous current then [] else record { id = id; removed = false } ∷ []
]

-- The first loop of `stateChanges`.
unfoldable pub changed : Sessions → Sessions → List Change
unfolding lookup looks_same
changed [] after = []
changed ((id, previous) ∷ rest) after = change_of id previous after ++ changed rest after

-- The second loop.
unfoldable pub added : Sessions → Sessions → List Change
unfolding lookup
added before [] = []
added before ((id, s) ∷ rest) =
    let more = added before rest in
    if is_some (lookup id before) then more else record { id = id; removed = false } ∷ more

-- `slices.SortFunc` by id. The ids of the changes of two maps differ, so every sort gives this.
unfoldable pub insert_change : Change → List Change → List Change
unfolding str_lt
insert_change c [] = c ∷ []
insert_change c (d ∷ rest) =
    let later = insert_change c rest in if str_lt d.id c.id then d ∷ later else c ∷ d ∷ rest

unfoldable pub sort_changes : List Change → List Change
unfolding insert_change
sort_changes [] = []
sort_changes (c ∷ rest) = insert_change c (sort_changes rest)

-- `stateChanges`.
unfoldable pub state_changes : Sessions → Sessions → List Change
unfolding sort_changes changed added
state_changes before after = sort_changes (changed before after ++ added before after)
