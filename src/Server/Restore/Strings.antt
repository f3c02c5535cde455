-- ===== src/Server/Restore/Strings.antt =====
-- The dictionary of a snapshot, loaded at the start of the server.
use valkeydb.Base.{
  ℕ, ◌+◌, ◌≡◌, refl, ◌∙◌, ap, Bool, true, false, Option, none, some, [], ◌∷◌, arith, Str, eq_str,
  eq_str_iff, eq_str_refl, if◌then◌else◌, Bool-cases, inl, inr,
}
use valkeydb.Base.Int.{pos}
use valkeydb.Base.Map.{Map, IsMap, get, get-put}
use valkeydb.Clock.{Time, is_zero, before}
use valkeydb.Item.{Item, value_item}
use valkeydb.Dict
use valkeydb.Dict.{Dict}
use valkeydb.Dict.Expiry.{retimed, expire_at_lem}
use valkeydb.Server.Persist.{load_dict}

-- An entry of the snapshot, as the load at `now` leaves it.
unfoldable pub reloaded : Time → Item → Option Item
reloaded now item =
    if is_zero item.expired_at
    then some (value_item item.value)
    else retimed (before item.expired_at now) item.expired_at (some (value_item item.value))

-- What the snapshot's entry makes of the old one.
abbrev pub over : Time → Option Item → Option Item → Option Item
over now old none = old
over now old (some item) = reloaded now item

-- A value that is stored, for good or with a time to expire at.
abbrev pub stored_until : Bool → Time → Str → Str → Time → Dict → Dict
stored_until forever at key value now d =
    let stored = Dict.set key value (pos 0) now d in
    if forever then stored else (Dict.expire_at key at now stored).1

abbrev pub kept_until : Bool → Time → Str → Time → Option Item
kept_until forever at value now =
    if forever
    then some (value_item value)
    else retimed (before at now) at (some (value_item value))

-- One round of the loop over the dictionary.
abbrev restored : Str → Item → Time → Dict → Dict
restored key item now d =
    stored_until (is_zero item.expired_at) item.expired_at key item.value now d

set-get :
    (key value : Str) (now : Time) (d : Dict) (j : Str)
    → get j (Dict.set key value (pos 0) now d)
      ≡ (if eq_str key j then some (value_item value) else get j d)
unfolding Dict.set
set-get key value now d j = get-put key j (value_item value) d

pub stored_until-get :
    (forever : Bool) (at : Time) (key value : Str) (now : Time) (d : Dict) (j : Str)
    → get j (stored_until forever at key value now d)
      ≡ (if eq_str key j then kept_until forever at value now else get j d)
stored_until-get true at key value now d j = set-get key value now d j
stored_until-get false at key value now d j =
    let stored = Dict.set key value (pos 0) now d in
    (expire_at_lem key at now j stored).1
    ∙ rw (set-get key value now d key, eq_str_refl key) ground (arith, set-get key value now d j)

restored-get :
    (key : Str) (item : Item) (now : Time) (d : Dict) (j : Str)
    → get j (restored key item now d) ≡ (if eq_str key j then reloaded now item else get j d)
unfolding reloaded
restored-get key item now d j =
    stored_until-get (is_zero item.expired_at) item.expired_at key item.value now d j

load_dict-absent :
    (clock : ℕ → Time) (n : ℕ) (m : Map Item) (d : Dict) (j : Str)
    → get j m ≡ none
    → get j (load_dict clock n m d) ≡ get j d
unfolding load_dict get
load_dict-absent clock n [] d j e = refl
load_dict-absent clock n ((key, item) ∷ m) d j e = ground (
  arith,
  e,
  eq_str_iff key j,
  restored-get key item (clock n) d j,
  load_dict-absent clock (n + 1) m (restored key item (clock n) d) j,
)

-- Loading a dictionary that has each key once gives each of its keys the value again, for good or
-- with its expiry (and none where that has passed at a reading of the clock); the other keys keep
-- what they had.
pub load_dict_lem :
    (clock : ℕ → Time) (n : ℕ) (m : Map Item) (d : Dict) (j : Str)
    → IsMap m
    → (i : ℕ) × (get j (load_dict clock n m d) ≡ over (clock i) (get j d) (get j m))
unfolding load_dict get
load_dict_lem clock n [] d j h = (0, refl)
load_dict_lem clock n ((key, item) ∷ m) d j h = elim (Bool-cases (eq_str key j)) [
  | inl here ↦
      let same : key ≡ j = (eq_str_iff key j).0 here in
      (
        n,
        rw here (
            load_dict-absent clock (n + 1) m (restored key item (clock n) d) j (rw (← same) h.0)
            ∙ restored-get key item (clock n) d j
            ∙ rw here refl),
      )
  | inr other ↦
      let (i, e) = load_dict_lem clock (n + 1) m (restored key item (clock n) d) j h.1 in
      (
        i,
        rw other (
            e
            ∙ ap (λ o. over (clock i) o (get j m))
                (restored-get key item (clock n) d j ∙ rw other refl)),
      )
]
