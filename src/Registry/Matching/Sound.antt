-- ===== src/Registry/Matching/Sound.antt =====
-- The sessions of a store, as state_validation.go wants them.
use aht.Prelude.{
  ◌≡◌, Bool, String, some, refl, if◌then◌else◌, true, false, arith, eq_iff, ◌==◌, [], ◌∷◌,
}
use aht.Prelude.Dict.{lookup, insert, remove, Distinct, insert-Distinct, remove-Distinct}
use aht.Registry.Model.{Session}
use aht.Registry.Stored.{IsConsistent}
use aht.Registry.Matching.{Sessions}

-- A session under its own id whose incarnation passes the test.
abbrev pub IsEntry : String → Session → Type 0
IsEntry id s = (s.id ≡ id) × IsConsistent s

unfoldable pub EachEntry : Sessions → Type 0
EachEntry [] = Unit {0}
EachEntry ((id, s) ∷ rest) = IsEntry id s × EachEntry rest

-- No id is there twice, and every session is under its own id and passes the test.
pub record IsSound (sessions : Sessions) : Type 0 where
  pub distinct : Distinct sessions
  pub entries : EachEntry sessions

lookup-each :
    (k : String) (s : Session) (sessions : Sessions)
    → EachEntry sessions
    → lookup k sessions ≡ some s
    → IsEntry k s
unfolding EachEntry lookup
lookup-each k s [] h l = cc
lookup-each k s ((id, v) ∷ rest) (e, h) l = head (λ r. lookup-each k s rest h r) (id == k) refl l
  where
    head :
        (lookup k rest ≡ some s → IsEntry k s)
        → (b : Bool) → (id == k) ≡ b
        → (if b then some v else lookup k rest) ≡ some s
        → IsEntry k s
    head more true q l = ground (arith, eq_iff id k)
    head more false q l = more l

pub lookup-IsEntry :
    (k : String) (s : Session) (sessions : Sessions)
    → IsSound sessions
    → lookup k sessions ≡ some s
    → IsEntry k s
lookup-IsEntry k s sessions h l = lookup-each k s sessions h.entries l

insert-entries :
    (k : String) (v : Session) (sessions : Sessions)
    → EachEntry sessions
    → IsEntry k v
    → EachEntry (insert k v sessions)
unfolding EachEntry insert
insert-entries k v [] h n = (n, tt)
insert-entries k v ((id, s) ∷ rest) (e, h) n = head (insert-entries k v rest h n) (id == k) refl
  where
    head :
        EachEntry (insert k v rest)
        → (b : Bool) → (id == k) ≡ b
        → EachEntry (if b then (id, v) ∷ rest else (id, s) ∷ insert k v rest)
    head more true q = ((ground (arith, eq_iff id k), n.1), h)
    head more false q = (e, more)

pub insert-IsSound :
    (k : String) (v : Session) (sessions : Sessions)
    → IsSound sessions
    → IsEntry k v
    → IsSound (insert k v sessions)
insert-IsSound k v sessions h n = record {
  distinct = insert-Distinct k v sessions h.distinct;
  entries = insert-entries k v sessions h.entries n;
}

remove-entries :
    (k : String) (sessions : Sessions) → EachEntry sessions → EachEntry (remove k sessions)
unfolding EachEntry remove
remove-entries k [] h = tt
remove-entries k ((id, s) ∷ rest) (e, h) = head (remove-entries k rest h) (id == k)
  where
    head :
        EachEntry (remove k rest)
        → (b : Bool) → EachEntry (if b then remove k rest else (id, s) ∷ remove k rest)
    head more true = more
    head more false = (e, more)

pub remove-IsSound :
    (k : String) (sessions : Sessions) → IsSound sessions → IsSound (remove k sessions)
remove-IsSound k sessions h = record {
  distinct = remove-Distinct k sessions h.distinct;
  entries = remove-entries k sessions h.entries;
}
