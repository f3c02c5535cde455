-- ===== src/Server/Rewritten/Tests.antt =====
-- A server with a string, a list, a set and a hash, started from its files.
use valkeydb.Base.{
  ℕ, ◌+◌, ◌^◌, ◌≤◌, ◌≡◌, refl, ◌≢◌, true, false, some, [], ◌∷◌, ◌++◌, Str, codes, arith, subst,
  length,
}
use valkeydb.Base.Int.{pos}
use valkeydb.Base.Map.{IsMap, get, put, keys}
use valkeydb.Clock.{Time, is_zero, after, to_unix_milli}
use valkeydb.Config.{Config}
use valkeydb.Config.Tests.{shipped}
use valkeydb.Item.{value_item, zero_item, is_expired}
use valkeydb.Dict
use valkeydb.SetStore
use valkeydb.HashStore
use valkeydb.ListStore
use valkeydb.ListStore.Refine.{Stands}
use valkeydb.Resp.{ok, count_items}
use valkeydb.Resp.RoundTrip.{IsWire, array_wire, bulk_wire, none_wire, next_wire}
use valkeydb.Aof.{
  Aof, entry, bulks, open_aof, encode_entries, rewrite_entries, dict_entries, set_entries,
  list_entries, hash_entries, field_entries, expiry_entry, values_of,
}
use valkeydb.Aof.Load.{AllWire}
use valkeydb.Rdb.{Snapshot, Rdb, Storage, decoded}
use valkeydb.Command.{Db}
use valkeydb.Command.Tests.{env}
use valkeydb.Server.Persist.{take_snapshot, rewrite_aof}
use valkeydb.Server.Lifecycle.{initialize, new_db}
use valkeydb.Server.Restart.{AreStores, Restored}
use valkeydb.Server.Redo.{HaveTimes, NeverExpire}
use valkeydb.Server.Relogged.{relogged}
use valkeydb.Server.Rewritten.{values_at, initialize-rewrite_aof, initialize-both, entries_of}

abbrev clock : ℕ → Time
clock n = pos 5

abbrev both : Snapshot
both = record {
  dict_data = (codes "k", value_item (codes "v")) ∷ [];
  set_data = (codes "s", record zero_item { members = (codes "m", tt) ∷ [] }) ∷ [];
  list_data = (codes "l", value_item (codes "a") ∷ value_item (codes "b") ∷ []) ∷ [];
  hash_data = (codes "h", (codes "f", codes "1") ∷ []) ∷ [];
}

three :
    (a b c : Str)
    → length a + 2 ≤ 2 ^ 48
    → length b + 2 ≤ 2 ^ 48
    → length c + 2 ≤ 2 ^ 48
    → IsWire (entry (a ∷ b ∷ c ∷ []))
unfolding bulks count_items
three a b c h k l = array_wire _ (omega arith) (
    next_wire _ _ (bulk_wire a h)
      (next_wire _ _ (bulk_wire b k) (next_wire _ _ (bulk_wire c l) none_wire)))

four :
    (a b c d : Str)
    → length a + 2 ≤ 2 ^ 48
    → length b + 2 ≤ 2 ^ 48
    → length c + 2 ≤ 2 ^ 48
    → length d + 2 ≤ 2 ^ 48
    → IsWire (entry (a ∷ b ∷ c ∷ d ∷ []))
unfolding bulks count_items
four a b c d h k l m = array_wire _ (omega arith) (
    next_wire _ _ (bulk_wire a h) (
      next_wire _ _ (bulk_wire b k)
        (next_wire _ _ (bulk_wire c l) (next_wire _ _ (bulk_wire d m) none_wire))))

set_k : IsWire (entry (codes "SET" ∷ codes "k" ∷ codes "v" ∷ []))
set_k = three (codes "SET") (codes "k") (codes "v") (omega arith) (omega arith) (omega arith)

sadd_s : IsWire (entry (codes "SADD" ∷ codes "s" ∷ codes "m" ∷ []))
sadd_s = three (codes "SADD") (codes "s") (codes "m") (omega arith) (omega arith) (omega arith)

rpush_l : IsWire (entry (codes "RPUSH" ∷ codes "l" ∷ codes "a" ∷ codes "b" ∷ []))
rpush_l =
    four (codes "RPUSH") (codes "l") (codes "a") (codes "b") (omega arith) (omega arith)
      (omega arith) (omega arith)

hset_h : IsWire (entry (codes "HSET" ∷ codes "h" ∷ codes "f" ∷ codes "1" ∷ []))
hset_h =
    four (codes "HSET") (codes "h") (codes "f") (codes "1") (omega arith) (omega arith)
      (omega arith) (omega arith)

both-AllWire : AllWire (entries_of both)
unfolding rewrite_entries dict_entries set_entries list_entries hash_entries field_entries
    expiry_entry values_of keys is_zero
both-AllWire = (set_k, (sadd_s, (rpush_l, (hset_h, tt))))

both-HaveTimes : HaveTimes both.dict_data
unfolding to_unix_milli
both-HaveTimes = (omega arith, tt)

both-NeverExpire : NeverExpire both.set_data
unfolding is_zero
both-NeverExpire = (refl, tt)

both-IsMap : IsMap both.list_data
unfolding get
both-IsMap = (refl, tt)

abbrev storage : Storage
storage = record {
  encode_gob = λ s. (codes "gob", true);
  decode_gob = λ bytes. decoded both;
  denied = λ path. false;
}

gob : codes "gob" ≢ []
gob e = cc

initialize-both_example :
    (r : Rdb) × (db : Db) × (initialize shipped storage
        (λ n. env)
        clock
        clock
        true
        (encode_entries (entries_of both))
        (put (codes "dump.rdb") (codes "gob") [])
      ≡ ok (db, r, put (codes "dump.rdb") (codes "gob") []))
    × Stands db.list (λ k. values_at both.list_data k ++ values_at both.list_data k)
initialize-both_example =
    initialize-both shipped storage (λ n. env) clock clock both (codes "gob") [] refl refl refl refl
      gob refl both-AllWire both-HaveTimes both-NeverExpire both-IsMap

abbrev config : Config
config = record shipped {
  persistence = record shipped.persistence {
    rdb = record shipped.persistence.rdb { enabled = false };
  };
}

abbrev file : Aof
file = open_aof (codes "old") true

abbrev db : Db
db = record (new_db file) { dict = both.dict_data; set = both.set_data; hash = both.hash_data }

abbrev saved : Snapshot
saved = record both { list_data = [] }

stores : AreStores (λ k. []) db
unfolding get
stores = record {
  dict = (refl, tt);
  set = (refl, tt);
  members = ((refl, tt), tt);
  list = tt;
  stands = λ k. refl;
  hash = (refl, tt);
  fields = ((refl, tt), tt);
}

taken : take_snapshot clock clock db ≡ some saved
unfolding take_snapshot Dict.dump Dict.dump_from SetStore.dump SetStore.dump_from HashStore.dump
    ListStore.dump is_expired is_zero after
taken = refl

saved-AllWire : AllWire (entries_of saved)
unfolding rewrite_entries dict_entries set_entries list_entries hash_entries field_entries
    expiry_entry values_of keys is_zero
saved-AllWire = (set_k, (sadd_s, (hset_h, tt)))

wire : (s : Snapshot) → take_snapshot clock clock db ≡ some s → AllWire (entries_of s)
wire s e =
    let same : saved ≡ s = cc (e, taken) in subst (λ x. AllWire (entries_of x)) same saved-AllWire

on : file.enabled ≡ true
unfolding open_aof
on = refl

initialize-rewrite_aof_example :
    (kept : Db) × (b : Aof) × (rewrite_aof clock clock db ≡ some kept)
    × (kept.aof ≡ some b)
    × (r : Rdb) × (db' : Db) × (initialize config storage (λ n. env) clock clock true b.file []
        ≡ ok (db', r, []))
    × Restored relogged clock (λ i. env.clock 0) (λ k. []) db db'
initialize-rewrite_aof_example =
    initialize-rewrite_aof config storage (λ n. env) clock clock (λ k. []) db file [] refl refl refl
      refl on stores both-NeverExpire both-HaveTimes wire
