-- ===== src/Server/Persist.antt =====
-- internal/server/server.go: what the server loads at its start, and what it saves.
use valkeydb.Base.{
  ℕ, ◌+◌, Option, none, some, List, [], ◌∷◌, Str, ◌==◌, length, if◌then◌else◌, ◌>>=◌,
}
use valkeydb.Base.Map.{Map, keys}
use valkeydb.Base.Int.{pos}
use valkeydb.Clock.{Time, is_zero}
use valkeydb.Item.{Item}
use valkeydb.Dict
use valkeydb.Dict.{Dict}
use valkeydb.SetStore
use valkeydb.SetStore.{Set, sadd}
use valkeydb.ListStore
use valkeydb.ListStore.{Lists, rpush}
use valkeydb.HashStore
use valkeydb.HashStore.{HashMap, hset}
use valkeydb.Aof
use valkeydb.Aof.{Aof, is_array, values_of, load}
use valkeydb.Rdb.{Snapshot}
use valkeydb.Command.{Db}

-- The loops of `loadRDB`. `clock n` is the reading at the `n`-th item.
unfoldable pub load_dict : (ℕ → Time) → ℕ → Map Item → Dict → Dict
load_dict clock n [] d = d
load_dict clock n ((key, item) ∷ rest) d =
    let stored = Dict.set key item.value (pos 0) (clock n) d in
    load_dict clock (n + 1) rest (
      if is_zero item.expired_at
      then stored
      else (Dict.expire_at key item.expired_at (clock n) stored).1)

unfoldable pub load_sets : (ℕ → Time) → ℕ → Map Item → Set → Set
load_sets clock n [] s = s
load_sets clock n ((key, item) ∷ rest) s =
    let stored = (sadd key (keys item.members) s).1 in
    load_sets clock (n + 1) rest (
      if length item.members == 0
      then s
      else if is_zero item.expired_at
      then stored
      else (SetStore.expire_at key item.expired_at (clock n) stored).1)

unfoldable pub load_lists : Map (List Item) → Lists → Option Lists
load_lists [] l = some l
load_lists ((key, items) ∷ rest) l =
    if length items == 0
    then load_lists rest l
    else (rpush key (values_of items) l >>= λ pushed. load_lists rest pushed.1)

unfoldable pub load_fields : Str → Map Str → HashMap → HashMap
load_fields key [] h = h
load_fields key ((field, value) ∷ rest) h = load_fields key rest (hset key (field ∷ value ∷ []) h).1

unfoldable pub load_hashes : Map (Map Str) → HashMap → HashMap
load_hashes [] h = h
load_hashes ((key, hash) ∷ rest) h = load_hashes rest (load_fields key hash h)

unfoldable pub load_rdb : (ℕ → Time) → (ℕ → Time) → Snapshot → Db → Option Db
load_rdb dict_clock set_clock snapshot db = do
  l ← load_lists snapshot.list_data db.list
  some (record db {
    dict = load_dict dict_clock 0 snapshot.dict_data db.dict;
    set = load_sets set_clock 0 snapshot.set_data db.set;
    list = l;
    hash = load_hashes snapshot.hash_data db.hash;
  })

-- What `Close`, BGSAVE and the rewrite of the log copy from the stores.
unfoldable pub take_snapshot : (ℕ → Time) → (ℕ → Time) → Db → Option Snapshot
take_snapshot dict_clock set_clock db = do
  l ← ListStore.dump db.list
  some (record {
    dict_data = Dict.dump dict_clock db.dict;
    set_data = SetStore.dump set_clock db.set;
    list_data = l;
    hash_data = HashStore.dump db.hash;
  })

unfoldable pub rewrite_aof : (ℕ → Time) → (ℕ → Time) → Db → Option Db
rewrite_aof dict_clock set_clock db = do
  snapshot ← take_snapshot dict_clock set_clock db
  some (elim db.aof [
    | none ↦ db
    | some a ↦ record db {
      aof = some (
          Aof.rewrite snapshot.dict_data snapshot.set_data snapshot.list_data snapshot.hash_data a);
    }
  ])
