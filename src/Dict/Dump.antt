-- ===== src/Dict/Dump.antt =====
-- The copies of the map that persistence and the system commands take.
use valkeydb.Base.{
  ℕ, ◌+◌, ◌≡◌, refl, inl, inr, Bool-cases, none, [], ◌∷◌, arith, Str, eq_str, eq_str_iff,
}
use valkeydb.Base.Map.{IsMap, get}
use valkeydb.Clock.{Time}
use valkeydb.Dict.{Dict, dump_from, dump}
use valkeydb.Dict.View.{view, live}

pub dump_from-absent :
    (clock : ℕ → Time) (n : ℕ) (d : Dict) (key : Str)
    → get key d ≡ none
    → get key (dump_from clock n d) ≡ none
unfolding dump_from get
dump_from-absent clock n [] key h = refl
dump_from-absent clock n ((k, item) ∷ d) key h =
    ground (arith, dump_from-absent clock (n + 1) d key)

dump_from_lem :
    (clock : ℕ → Time) (n : ℕ) (d : Dict) (key : Str)
    → IsMap d
    → (i : ℕ) × (get key (dump_from clock n d) ≡ live (clock i) (get key d))
unfolding dump_from get live
dump_from_lem clock n [] key h = (0, refl)
dump_from_lem clock n ((k, item) ∷ d) key h = elim (Bool-cases (eq_str k key)) [
  | inl here ↦ (n, ground (arith, here, eq_str_iff k key, dump_from-absent clock (n + 1) d key))
  | inr other ↦ let (i, e) = dump_from_lem clock (n + 1) d key h.1 in (i, ground (arith, other, e))
]

-- What a dump of a map with each key once holds of a key is its view at one of the readings of
-- the clock that the dump made.
pub dump_lem :
    (clock : ℕ → Time) (d : Dict) (key : Str)
    → IsMap d
    → (i : ℕ) × (get key (dump clock d) ≡ view (clock i) key d)
unfolding dump view
dump_lem clock d key h = dump_from_lem clock 0 d key h
