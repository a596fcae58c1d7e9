-- ===== src/Registry/Changes/Found.antt =====
-- What `stateChanges` of changes.go says of each session.
use aht.Prelude.{
  ◌≡◌, refl, Bool, true, false, String, none, some, Option, is_some, if◌then◌else◌, List, [], ◌∷◌,
  ◌++◌, ◌==◌, arith, eq_iff, ◌∙◌, ap,
}
use aht.Prelude.Dict.{lookup, Distinct}
use aht.Prelude.Order.{str_lt}
use aht.Registry.Model.{Session}
use aht.Registry.Matching.{Sessions}
use aht.Registry.Changes.{
  Change, looks_same, change_of, changed, added, insert_change, sort_changes, state_changes,
}

-- What the first change of an id says: whether its session is removed.
unfoldable pub change_at : String → List Change → Option Bool
change_at k [] = none
change_at k (c ∷ rest) = let later = change_at k rest in if c.id == k then some c.removed else later

-- What the two states of a session ask for.
abbrev pub wanted : Option Session → Option Session → Option Bool
wanted none none = none
wanted none (some s) = some false
wanted (some s) none = some true
wanted (some s) (some t) = if looks_same s t then none else some false

abbrev or_later : Option Bool → Option Bool → Option Bool
or_later none later = later
or_later (some b) later = some b

str_lt-itself : (s t : String) → (s == t) ≡ true → str_lt s t ≡ false
unfolding str_lt
str_lt-itself s t h = ground arith

insert_change-at :
    (k : String) (c : Change) (changes : List Change)
    → change_at k (insert_change c changes)
      ≡ (if c.id == k then some c.removed else change_at k changes)
unfolding change_at insert_change
insert_change-at k c [] = refl
insert_change-at k c (d ∷ rest) = ground (
  arith,
  insert_change-at k c rest,
  str_lt-itself d.id c.id,
  eq_iff d.id k,
  eq_iff c.id k,
  eq_iff d.id c.id,
)

sort_changes-at :
    (k : String) (changes : List Change) → change_at k (sort_changes changes) ≡ change_at k changes
unfolding change_at sort_changes
sort_changes-at k [] = refl
sort_changes-at k (c ∷ rest) =
    ground (arith, insert_change-at k c (sort_changes rest), sort_changes-at k rest)

change_at-append :
    (k : String) (xs ys : List Change)
    → change_at k (xs ++ ys) ≡ or_later (change_at k xs) (change_at k ys)
unfolding change_at
change_at-append k [] ys = refl
change_at-append k (c ∷ rest) ys = ground (arith, change_at-append k rest ys)

added-at :
    (k : String) (before after : Sessions)
    → change_at k (added before after) ≡ (
        if is_some (lookup k before)
        then none
        else if is_some (lookup k after)
        then some false
        else none)
unfolding change_at added lookup
added-at k before [] = ground arith
added-at k before ((id, s) ∷ rest) = ground (arith, added-at k before rest, eq_iff id k)

-- What the first loop asks for, where the session is in the state before.
abbrev previously : Option Session → Option Session → Option Bool
previously none after = none
previously (some s) after = wanted (some s) after

change_of-at :
    (k id : String) (s : Session) (after : Sessions)
    → change_at k (change_of id s after)
      ≡ (if id == k then wanted (some s) (lookup id after) else none)
unfolding change_at
change_of-at k id s after = ground arith

lookup-same :
    (id k : String) (sessions : Sessions)
    → (id == k) ≡ true
    → lookup id sessions ≡ lookup k sessions
lookup-same id k sessions h = ap (λ (j : String). lookup j sessions) ((eq_iff id k).0 h)

changed-at :
    (k : String) (before after : Sessions)
    → Distinct before
    → change_at k (changed before after) ≡ previously (lookup k before) (lookup k after)
unfolding changed lookup Distinct change_at
changed-at k [] after d = refl
changed-at k ((id, s) ∷ rest) after (fresh, d) =
    change_at-append k (change_of id s after) (changed rest after)
    ∙ ground (
      arith,
      change_of-at k id s after,
      changed-at k rest after d,
      lookup-same id k after,
      lookup-same id k rest,
    )

-- Where no id is twice in the state before, `stateChanges` names a session as removed where only
-- the state before has it, as changed where only the state after has it or where both have it and
-- its consumer states differ, and not at all otherwise.
pub state_changes-wanted :
    (k : String) (before after : Sessions)
    → Distinct before
    → change_at k (state_changes before after) ≡ wanted (lookup k before) (lookup k after)
unfolding state_changes
state_changes-wanted k before after d = ground (
  arith,
  sort_changes-at k (changed before after ++ added before after),
  change_at-append k (changed before after) (added before after),
  changed-at k before after d,
  added-at k before after,
)
