-- ===== src/Server/Relogged.antt =====
-- The strings and the sets that the replay of a rewritten log leaves.
use valkeydb.Base.{
  ℕ, ◌+◌, ◌≡◌, refl, ◌∙◌, ap, Option, none, some, [], ◌∷◌, arith, Str, eq_str, eq_str_iff,
  Bool-cases, inl, inr, if◌then◌else◌,
}
use valkeydb.Base.Int.{pos}
use valkeydb.Base.Map.{Map, IsMap, get}
use valkeydb.Clock.{Time, is_zero, unix_milli, to_unix_milli}
use valkeydb.Item.{Item}
use valkeydb.Dict
use valkeydb.Dict.{Dict}
use valkeydb.Dict.View.{view}
use valkeydb.Dict.Dump
use valkeydb.SetStore
use valkeydb.SetStore.{Set}
use valkeydb.Server.Persist.{load_sets}
use valkeydb.Server.Redo.{HaveTimes, NeverExpire, entry_count, replay_dict, replay_sets}
use valkeydb.Server.Dumped.{
  copied, dict_dump-IsMap, set_dump-IsMap, set_dump-HaveMaps, set_dump_lem,
}
use valkeydb.Server.Restore.Strings.{kept_until, stored_until-get}
use valkeydb.Server.Restore.Members.{HaveMaps, over_set, load_sets_lem}

-- An entry of the dictionary, with its expiry rounded down to a millisecond, as the replay at `now`
-- leaves it.
abbrev pub relogged : Time → Option Item → Option Item
relogged now none = none
relogged now (some item) =
    kept_until (is_zero item.expired_at) (unix_milli (to_unix_milli item.expired_at)) item.value now

abbrev pub over_old : Time → Option Item → Option Item → Option Item
over_old now old none = old
over_old now old (some item) = relogged now (some item)

abbrev pub replayed : Str → Item → (ℕ → Time) → ℕ → Dict → Dict
replayed key item times n d =
    let stored = Dict.set key item.value (pos 0) (times n) d in
    if is_zero item.expired_at
    then stored
    else (Dict.expire_at key (unix_milli (to_unix_milli item.expired_at)) (times (n + 1)) stored).1

replayed-get :
    (key : Str) (item : Item) (times : ℕ → Time) (n : ℕ) (d : Dict) (j : Str)
    → get j (replayed key item times n d)
      ≡ (if eq_str key j then relogged (times (n + 1)) (some item) else get j d)
unfolding Dict.set
replayed-get key item times n d j =
    stored_until-get (is_zero item.expired_at) (unix_milli (to_unix_milli item.expired_at)) key
      item.value (times (n + 1)) d j

pub replay_dict-absent :
    (times : ℕ → Time) (n : ℕ) (m : Map Item) (d : Dict) (j : Str)
    → get j m ≡ none
    → get j (replay_dict times n m d) ≡ get j d
unfolding replay_dict get
replay_dict-absent times n [] d j e = refl
replay_dict-absent times n ((key, item) ∷ m) d j e = ground (
  arith,
  e,
  eq_str_iff key j,
  replayed-get key item times n d j,
  replay_dict-absent times (n + entry_count item) m (replayed key item times n d) j,
)

pub replay_dict_lem :
    (times : ℕ → Time) (n : ℕ) (m : Map Item) (d : Dict) (j : Str)
    → IsMap m
    → (i : ℕ) × (get j (replay_dict times n m d) ≡ over_old (times i) (get j d) (get j m))
unfolding replay_dict get
replay_dict_lem times n [] d j h = (0, refl)
replay_dict_lem times n ((key, item) ∷ m) d j h = elim (Bool-cases (eq_str key j)) [
  | inl here ↦
      let same : key ≡ j = (eq_str_iff key j).0 here in
      (
        n + 1,
        rw here (
            replay_dict-absent times (n + entry_count item) m (replayed key item times n d) j
              (rw (← same) h.0)
            ∙ replayed-get key item times n d j
            ∙ rw here refl),
      )
  | inr other ↦
      let (i, e) =
        replay_dict_lem times (n + entry_count item) m (replayed key item times n d) j h.1 in
      (
        i,
        rw other (
            e
            ∙ ap (λ o. over_old (times i) o (get j m))
                (replayed-get key item times n d j ∙ rw other refl)),
      )
]

pub over_old-none : (now : Time) (o : Option Item) → over_old now none o ≡ relogged now o
over_old-none now none = refl
over_old-none now (some item) = refl

pub replay_sets-eq :
    (clock : ℕ → Time) (n : ℕ) (m : Map Item) (s : Set)
    → NeverExpire m
    → replay_sets m s ≡ load_sets clock n m s
unfolding replay_sets load_sets
replay_sets-eq clock n [] s t = refl
replay_sets-eq clock n ((key, item) ∷ m) s t = rw t.0 (replay_sets-eq clock (n + 1) m _ t.1)

pub dict_dump-HaveTimes :
    (clock : ℕ → Time) (n : ℕ) (d : Map Item) → HaveTimes d → HaveTimes (Dict.dump_from clock n d)
unfolding Dict.dump_from
dict_dump-HaveTimes clock n [] h = tt
dict_dump-HaveTimes clock n ((key, item) ∷ d) h =
    ground (arith, dict_dump-HaveTimes clock (n + 1) d h.1)

pub set_dump-NeverExpire :
    (clock : ℕ → Time) (n : ℕ) (s : Map Item)
    → NeverExpire s
    → NeverExpire (SetStore.dump_from clock n s)
unfolding SetStore.dump_from
set_dump-NeverExpire clock n [] h = tt
set_dump-NeverExpire clock n ((key, item) ∷ s) h =
    ground (arith, set_dump-NeverExpire clock (n + 1) s h.1)

module _ (save_clock : ℕ → Time) (times : ℕ → Time) where
  pub relogged_strings :
      (d : Map Item) (j : Str)
      → IsMap d
      → (i k : ℕ) × (get j (replay_dict times 0 (Dict.dump save_clock d) [])
          ≡ relogged (times i) (view (save_clock k) j d))
  unfolding Dict.dump get
  relogged_strings d j h =
      let (k, e) = Dict.Dump.dump_lem save_clock d j h in
      let (i, e') =
        replay_dict_lem times 0 (Dict.dump save_clock d) [] j (dict_dump-IsMap save_clock 0 d h) in
      (i, k, e' ∙ over_old-none (times i) _ ∙ ap (relogged (times i)) e)

  pub relogged_sets :
      (s : Map Item) (j : Str)
      → IsMap s
      → HaveMaps s
      → NeverExpire s
      → (i k : ℕ) × (get j (replay_sets (SetStore.dump save_clock s) [])
          ≡ over_set (times i) (copied (view (save_clock k) j s)))
  unfolding SetStore.dump view get
  relogged_sets s j h maps z =
      let (k, e) = set_dump_lem save_clock 0 s j h in
      let (i, e') =
        load_sets_lem times 0 (SetStore.dump save_clock s) [] j (set_dump-IsMap save_clock 0 s h)
          (set_dump-HaveMaps save_clock 0 s maps) refl in
      (
        i,
        k,
        ap (get j) (
              replay_sets-eq times 0 (SetStore.dump save_clock s) []
                (set_dump-NeverExpire save_clock 0 s z))
            ∙ e'
            ∙ ap (over_set (times i)) e,
      )
