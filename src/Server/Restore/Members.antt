-- ===== src/Server/Restore/Members.antt =====
-- The sets of a snapshot, loaded at the start of the server.
use valkeydb.Base.{
  ℕ, ◌+◌, ◌≡◌, refl, ◌∙◌, sym, false, Option, none, some, [], ◌∷◌, ◌++◌, arith, Str, eq_str,
  eq_str_iff, eq_str_refl, if◌then◌else◌, length, ◌==◌, Bool-cases, inl, inr, append-nil,
  append_assoc,
}
use valkeydb.Base.Map.{Map, IsMap, get, put, has, keys, get-put}
use valkeydb.Clock.{Time, is_zero, before}
use valkeydb.Item.{Item, zero_item}
use valkeydb.Dict.Expiry.{retimed, expire_at_lem}
use valkeydb.SetStore
use valkeydb.SetStore.{Set, add_members, item_or_new, sadd}
use valkeydb.Server.Persist.{load_sets}

-- A snapshot whose sets have each member once.
abbrev pub HaveMaps : Map Item → Type 0
HaveMaps [] = Unit
HaveMaps ((key, item) ∷ m) = IsMap item.members × HaveMaps m

-- No name of the second map is in the first.
abbrev Apart : Map (Unit {0}) → Map (Unit {0}) → Type 0
Apart old [] = Unit
Apart old ((name, u) ∷ m) = (get name old ≡ none) × Apart old m

get-append :
    (k : Str) (old : Map (Unit {0})) (j : Str)
    → get j (old ++ (k, tt) ∷ [])
      ≡ (if has j old then some tt else if eq_str k j then some tt else none)
unfolding get
get-append k [] j = refl
get-append k ((i, u) ∷ old) j = ground (arith, get-append k old j)

put-absent :
    (k : Str) (old : Map (Unit {0})) → get k old ≡ none → put k tt old ≡ old ++ (k, tt) ∷ []
unfolding put get
put-absent k [] h = refl
put-absent k ((i, u) ∷ old) h = ground (arith, h, put-absent k old)

Apart-append :
    (k : Str) (old m : Map (Unit {0}))
    → get k m ≡ none
    → Apart old m
    → Apart (old ++ (k, tt) ∷ []) m
unfolding get
Apart-append k old [] h a = tt
Apart-append k old ((i, u) ∷ m) h a = (
  ground (arith, h, a.0, get-append k old i, eq_str_iff i k, eq_str_iff k i),
  Apart-append k old m (ground (arith, h)) a.1,
)

-- Adding the names of a map puts it behind one that has none of them.
add_members-keys :
    (added : ℕ) (old m : Map (Unit {0}))
    → IsMap m
    → Apart old m
    → (add_members added (keys m) old).1 ≡ old ++ m
unfolding add_members keys
add_members-keys added old [] h a = sym (append-nil old)
add_members-keys added old ((k, u) ∷ m) h a =
    rw (add_members, a.0, put-absent k old a.0)
      (add_members-keys (added + 1) (old ++ (k, tt) ∷ []) m h.1 (Apart-append k old m h.0 a.1)
        ∙ append_assoc old ((k, tt) ∷ []) m)

Apart-nil : (m : Map (Unit {0})) → Apart [] m
unfolding get
Apart-nil [] = tt
Apart-nil ((k, u) ∷ m) = (refl, Apart-nil m)

-- A set as it is added anew.
abbrev pub fresh_set : Item → Item
fresh_set item = record zero_item { members = item.members }

-- A set of the snapshot, as the load at `now` leaves it.
unfoldable pub reloaded_set : Time → Item → Option Item
reloaded_set now item =
    if length item.members == 0
    then none
    else if is_zero item.expired_at
    then some (fresh_set item)
    else retimed (before item.expired_at now) item.expired_at (some (fresh_set item))

abbrev pub over_set : Time → Option Item → Option Item
over_set now none = none
over_set now (some item) = reloaded_set now item

-- One round of the loop over the sets.
abbrev restored : Str → Item → Time → Set → Set
restored key item now s =
    let stored = (sadd key (keys item.members) s).1 in
    if length item.members == 0
    then s
    else if is_zero item.expired_at
    then stored
    else (SetStore.expire_at key item.expired_at now stored).1

sadd-get :
    (key : Str) (item : Item) (s : Set) (j : Str)
    → IsMap item.members
    → get key s ≡ none
    → get j (sadd key (keys item.members) s).1
      ≡ (if eq_str key j then some (fresh_set item) else get j s)
unfolding sadd item_or_new
sadd-get key item s j h e =
    rw (e, add_members-keys 0 [] item.members h (Apart-nil item.members))
      (get-put key j (fresh_set item) s)

restored-here :
    (key : Str) (item : Item) (now : Time) (s : Set)
    → IsMap item.members
    → get key s ≡ none
    → get key (restored key item now s) ≡ reloaded_set now item
unfolding reloaded_set SetStore.expire_at
restored-here key item now s h e = elim (Bool-cases (length item.members == 0)) [
  | inl z ↦ rw (z, e) refl
  | inr z ↦
      let stored = (sadd key (keys item.members) s).1 in
      let put_in : get key stored ≡ some (fresh_set item) =
        sadd-get key item s key h e ∙ rw (eq_str_refl key) refl in
      elim (Bool-cases (is_zero item.expired_at)) [
        | inl t ↦ rw (z, t) put_in
        | inr t ↦
            rw (z, t)
              ((expire_at_lem key item.expired_at now key stored).1
                ∙ rw (eq_str_refl key, put_in) refl)
      ]
]

restored-other :
    (key : Str) (item : Item) (now : Time) (s : Set) (j : Str)
    → eq_str key j ≡ false
    → get j (restored key item now s) ≡ get j s
unfolding SetStore.expire_at sadd
restored-other key item now s j n =
    let item' = record (item_or_new (get key s)) {
      members = (add_members 0 (keys item.members) (item_or_new (get key s)).members).1;
    } in
    ground (
      arith,
      n,
      get-put key j item' s,
      (expire_at_lem key item.expired_at now j (sadd key (keys item.members) s).1).1,
    )

load_sets-absent :
    (clock : ℕ → Time) (n : ℕ) (m : Map Item) (s : Set) (j : Str)
    → get j m ≡ none
    → get j (load_sets clock n m s) ≡ get j s
unfolding load_sets get
load_sets-absent clock n [] s j e = refl
load_sets-absent clock n ((key, item) ∷ m) s j e = elim (Bool-cases (eq_str key j)) [
  | inl here ↦ absurd (ground (arith, e, here))
  | inr other ↦
      load_sets-absent clock (n + 1) m (restored key item (clock n) s) j (rw other at e)
      ∙ restored-other key item (clock n) s j other
]

-- Loading sets that have each key and each member once, where the store has no set under a key:
-- the key has the members of the snapshot's set again, for good or with its expiry, and no set where
-- the snapshot has none, an empty one, or one whose expiry has passed at a reading of the clock.
pub load_sets_lem :
    (clock : ℕ → Time) (n : ℕ) (m : Map Item) (s : Set) (j : Str)
    → IsMap m
    → HaveMaps m
    → get j s ≡ none
    → (i : ℕ) × (get j (load_sets clock n m s) ≡ over_set (clock i) (get j m))
unfolding load_sets get
load_sets_lem clock n [] s j h maps e = (0, e)
load_sets_lem clock n ((key, item) ∷ m) s j h maps e = elim (Bool-cases (eq_str key j)) [
  | inl here ↦
      let same : key ≡ j = (eq_str_iff key j).0 here in
      (
        n,
        rw here (
            load_sets-absent clock (n + 1) m (restored key item (clock n) s) j (rw (← same) h.0)
            ∙ rw (← same) (restored-here key item (clock n) s maps.0 (rw same e))),
      )
  | inr other ↦
      let (i, f) =
        load_sets_lem clock (n + 1) m (restored key item (clock n) s) j h.1 maps.1
          (restored-other key item (clock n) s j other ∙ e) in
      (i, rw other f)
]
