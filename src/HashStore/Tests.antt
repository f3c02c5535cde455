-- ===== src/HashStore/Tests.antt =====
-- The hashes at a store of one hash.
use valkeydb.Base.{
  ◌+◌, ◌<◌, ◌≡◌, refl, ◌&&◌, Bool-cases, inl, inr, none, some, List, [], ◌∷◌, arith, Str, codes,
  eq_str, length, true, if◌then◌else◌,
}
use valkeydb.Base.Map.{IsMap, Map, get, contains}
use valkeydb.HashStore.{HashMap, fields_of, hset, hget, hdel, hlen, is_even}
use valkeydb.HashStore.Fields.{assigned, hset_lem, hdel_lem}

abbrev hash : Map Str
hash = (codes "f", codes "1") ∷ []

abbrev one : HashMap
one = (codes "k", hash) ∷ []

-- "f" twice and a new field.
abbrev pairs : List Str
pairs = codes "f" ∷ codes "2" ∷ codes "g" ∷ codes "3" ∷ codes "f" ∷ codes "4" ∷ []

pairs_even : is_even pairs ≡ true
unfolding is_even
pairs_even = refl

hset_lem_example :
    (hget (codes "k") (codes "f") (hset (codes "k") pairs one).1 ≡ (
      if eq_str (codes "k") (codes "k")
      then assigned pairs (codes "f") (hget (codes "k") (codes "f") one)
      else hget (codes "k") (codes "f") one))
    × ((hset (codes "k") pairs one).0 + hlen (codes "k") one
        ≡ hlen (codes "k") (hset (codes "k") pairs one).1)
hset_lem_example = hset_lem (codes "k") pairs one (codes "k") (codes "f") pairs_even

one-IsMap : IsMap (fields_of (get (codes "k") one))
unfolding fields_of get eq_str
one-IsMap = (refl, tt)

hdel_lem_example :
    (hget (codes "k") (codes "f") (hdel (codes "k") (codes "f" ∷ []) one).1 ≡ (
      if eq_str (codes "k") (codes "k") && contains (codes "f" ∷ []) (codes "f")
      then none
      else hget (codes "k") (codes "f") one))
    × ((hdel (codes "k") (codes "f" ∷ []) one).0
          + hlen (codes "k") (hdel (codes "k") (codes "f" ∷ []) one).1
        ≡ hlen (codes "k") one)
hdel_lem_example = hdel_lem (codes "k") (codes "f" ∷ []) one (codes "k") (codes "f") one-IsMap

one-hashes : (key : Str) (h : Map Str) → get key one ≡ some h → (0 < length h) × IsMap h
unfolding get
one-hashes key h e = elim (Bool-cases (eq_str (codes "k") key)) [
  | inl here ↦
      let same : hash ≡ h = ground (arith, e, here) in rw (← same) (omega arith, (refl, tt))
  | inr other ↦ absurd (ground (arith, e, other))
]
