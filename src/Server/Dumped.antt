-- ===== src/Server/Dumped.antt =====
-- What a dump of the strings and of the sets holds.
use valkeydb.Base.{
  ℕ, ◌+◌, ◌≡◌, refl, Option, none, some, [], ◌∷◌, arith, Str, eq_str, eq_str_iff, Bool-cases, inl,
  inr,
}
use valkeydb.Base.Map.{Map, IsMap, get}
use valkeydb.Clock.{Time}
use valkeydb.Item.{Item, zero_item}
use valkeydb.Dict
use valkeydb.Dict.View.{live}
use valkeydb.Dict.Dump
use valkeydb.SetStore
use valkeydb.Server.Restore.Members.{HaveMaps}

-- A dump of the dictionary has each key once.
pub dict_dump-IsMap :
    (clock : ℕ → Time) (n : ℕ) (d : Map Item) → IsMap d → IsMap (Dict.dump_from clock n d)
unfolding Dict.dump_from
dict_dump-IsMap clock n [] h = tt
dict_dump-IsMap clock n ((key, item) ∷ d) h =
    ground (
      arith,
      dict_dump-IsMap clock (n + 1) d h.1,
      Dict.Dump.dump_from-absent clock (n + 1) d key h.0,
    )

pub set_dump-absent :
    (clock : ℕ → Time) (n : ℕ) (s : Map Item) (key : Str)
    → get key s ≡ none
    → get key (SetStore.dump_from clock n s) ≡ none
unfolding SetStore.dump_from get
set_dump-absent clock n [] key h = refl
set_dump-absent clock n ((k, item) ∷ s) key h = ground (arith, set_dump-absent clock (n + 1) s key)

pub set_dump-IsMap :
    (clock : ℕ → Time) (n : ℕ) (s : Map Item) → IsMap s → IsMap (SetStore.dump_from clock n s)
unfolding SetStore.dump_from
set_dump-IsMap clock n [] h = tt
set_dump-IsMap clock n ((key, item) ∷ s) h =
    ground (arith, set_dump-IsMap clock (n + 1) s h.1, set_dump-absent clock (n + 1) s key h.0)

pub set_dump-HaveMaps :
    (clock : ℕ → Time) (n : ℕ) (s : Map Item) → HaveMaps s → HaveMaps (SetStore.dump_from clock n s)
unfolding SetStore.dump_from
set_dump-HaveMaps clock n [] h = tt
set_dump-HaveMaps clock n ((key, item) ∷ s) h =
    ground (arith, set_dump-HaveMaps clock (n + 1) s h.1)

-- The copy of a set in a dump.
abbrev pub copied : Option Item → Option Item
copied none = none
copied (some item) =
    some (record zero_item { members = item.members; expired_at = item.expired_at })

pub set_dump_lem :
    (clock : ℕ → Time) (n : ℕ) (s : Map Item) (key : Str)
    → IsMap s
    → (i : ℕ) × (get key (SetStore.dump_from clock n s) ≡ copied (live (clock i) (get key s)))
unfolding SetStore.dump_from get live
set_dump_lem clock n [] key h = (0, refl)
set_dump_lem clock n ((k, item) ∷ s) key h = elim (Bool-cases (eq_str k key)) [
  | inl here ↦ (n, ground (arith, here, eq_str_iff k key, set_dump-absent clock (n + 1) s key))
  | inr other ↦ let (i, e) = set_dump_lem clock (n + 1) s key h.1 in (i, ground (arith, other, e))
]
