-- ===== src/HashStore.antt =====
-- internal/datastructure/hashmap.go: keys with fields. A method returns the store beside its result.
pub mod Invariant
pub mod Fields
mod Tests
use valkeydb.Base.{
  ℕ, suc, ◌+◌, Bool, true, false, Option, none, some, List, [], ◌∷◌, Str, ◌==◌, length,
  if◌then◌else◌,
}
use valkeydb.Base.Map.{Map, get, put, delete, has}

abbrev pub HashMap : Type 0
HashMap = Map (Map Str)

-- A nil map reads as an empty one.
unfoldable pub fields_of : Option (Map Str) → Map Str
fields_of none = []
fields_of (some hash) = hash

-- `len(fieldValues) % 2 == 0`
unfoldable pub is_even : List Str → Bool
is_even [] = true
is_even (x ∷ []) = false
is_even (x ∷ y ∷ rest) = is_even rest

-- The loop over the pairs: `added` fields are new so far.
unfoldable pub put_pairs : ℕ → List Str → Map Str → ℕ × Map Str
put_pairs added [] hash = (added, hash)
put_pairs added (field ∷ []) hash = (added, hash)
put_pairs added (field ∷ value ∷ rest) hash =
    put_pairs (if has field hash then added else added + 1) rest (put field value hash)

unfoldable pub hset : Str → List Str → HashMap → ℕ × HashMap
hset key field_values h =
    if is_even field_values
    then (let (added, hash) = put_pairs 0 field_values (fields_of (get key h)) in
        (added, put key hash h))
    else (0, h)

unfoldable pub hget : Str → Str → HashMap → Option Str
hget key field h = elim (get key h) [ none ↦ none | some hash ↦ get field hash ]

-- The loop over the fields: `count` were there so far.
unfoldable pub delete_fields : ℕ → List Str → Map Str → ℕ × Map Str
delete_fields count [] hash = (count, hash)
delete_fields count (field ∷ rest) hash =
    delete_fields (if has field hash then count + 1 else count) rest
      (if has field hash then delete field hash else hash)

unfoldable pub hdel : Str → List Str → HashMap → ℕ × HashMap
hdel key fields h = elim (get key h) [
  | none ↦ (0, h)
  | some hash ↦
      let (count, hash') = delete_fields 0 fields hash in
      (count, if length hash' == 0 then delete key h else put key hash' h)
]

-- The copy of the fields; `none` is `nil, false`.
unfoldable pub hgetall : Str → HashMap → Option (Map Str)
hgetall key h = get key h

unfoldable pub hexists : Str → Str → HashMap → Bool
hexists key field h = elim (get key h) [ none ↦ false | some hash ↦ has field hash ]

unfoldable pub hlen : Str → HashMap → ℕ
hlen key h = elim (get key h) [ none ↦ 0 | some hash ↦ length hash ]

unfoldable pub dump : HashMap → Map (Map Str)
dump h = h
