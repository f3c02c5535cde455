-- ===== src/Server/Restart.antt =====
-- A server that is closed and started again.
mod Tests
use valkeydb.Base.{
  ℕ, ◌+◌, ◌≡◌, refl, ◌∙◌, ap, sym, subst, Bool, true, false, Option, none, some, List, [], ◌∷◌, map,
  arith, Str, eq_str, eq_str_iff, Bool-cases, inl, inr,
}
use valkeydb.Base.Map.{Map, IsMap, get, put, SameMap}
use valkeydb.Clock.{Time}
use valkeydb.Item.{Item, value_item, zero_item, is_expired}
use valkeydb.Config.{Config}
use valkeydb.Dict
use valkeydb.Dict.View.{view, live}
use valkeydb.Dict.Dump
use valkeydb.SetStore
use valkeydb.HashStore
use valkeydb.HashStore.{hget}
use valkeydb.ListStore
use valkeydb.ListStore.{Lists}
use valkeydb.ListStore.Refine.{Denotes, Stands}
use valkeydb.ListStore.Dump.{dump-Denotes}
use valkeydb.Resp.{ok}
use valkeydb.Aof.{Aof, values_of, load, open_aof}
use valkeydb.Rdb
use valkeydb.Rdb.{
  Snapshot, Disk, Rdb, Storage, GobResult, decoded, loaded, load_bytes, load_snapshot, open_rdb,
  save,
}
use valkeydb.Rdb.Files.{IsCodec, load-put, open_rdb-put}
use valkeydb.Command.{Db, Env, set_replaying, replaying_if}
use valkeydb.Server.{load_aof}
use valkeydb.Server.Persist.{load_rdb, take_snapshot, load_lists, load_dict, load_sets, load_hashes}
use valkeydb.Server.Lifecycle.{
  initialize, close_server, new_db, load_found, open_log, open_snapshots,
}
use valkeydb.Server.Restore.Strings.{over, load_dict_lem}
use valkeydb.Server.Restore.Hashes.{or_else, AreMaps, load_hashes_lem}
use valkeydb.Server.Restore.Members.{HaveMaps, over_set, load_sets_lem}
use valkeydb.Server.Restore.Sequences.{load_lists-dump}
use valkeydb.Server.Dumped.{
  dict_dump-IsMap, set_dump-absent, set_dump-IsMap, set_dump-HaveMaps, copied, set_dump_lem,
}

-- The stores of `now` stand for those of `old`, one restart later: strings and sets that are in
-- view at one reading of the clock of the save, as `reload` and a set's load leave them at one of
-- the load; lists with the same values; hashes with the same fields.
pub record Restored (reload : Time → Option Item → Option Item) (save_clock load_clock : ℕ → Time)
    (f : Str → List Item) (old now : Db) : Type 0 where
  pub strings :
      (j : Str)
      → (i k : ℕ) × (get j now.dict ≡ reload (load_clock i) (view (save_clock k) j old.dict))
  pub sets :
      (j : Str)
      → (i k : ℕ) × (get j now.set
          ≡ over_set (load_clock i) (copied (view (save_clock k) j old.set)))
  pub lists : Stands now.list (λ k. map value_item (values_of (f k)))
  pub hashes : (j field : Str) → hget j field now.hash ≡ hget j field old.hash

-- An entry of a snapshot that is loaded into an empty dictionary.
abbrev pub fresh : Time → Option Item → Option Item
fresh now item = over now none item

-- Each key, field and member is there once, and the lists stand for `f`.
pub record AreStores (f : Str → List Item) (db : Db) : Type 0 where
  pub dict : IsMap db.dict
  pub set : IsMap db.set
  pub members : HaveMaps db.set
  pub list : IsMap db.list
  pub stands : Denotes db.list f
  pub hash : IsMap db.hash
  pub fields : AreMaps db.hash

-- The snapshot that is taken of stores, with the copy `m` of their lists.
abbrev pub snapshot_of : (ℕ → Time) → Map (List Item) → Db → Snapshot
snapshot_of clock m db = record {
  dict_data = Dict.dump clock db.dict;
  set_data = SetStore.dump clock db.set;
  list_data = m;
  hash_data = HashStore.dump db.hash;
}

-- The stores that a snapshot is loaded into empty ones, with the lists `l`.
abbrev loaded_db : (ℕ → Time) → Lists → Snapshot → Aof → Db
loaded_db clock l snapshot a = record (new_db a) {
  dict = load_dict clock 0 snapshot.dict_data [];
  set = load_sets clock 0 snapshot.set_data [];
  list = l;
  hash = load_hashes snapshot.hash_data [];
}

pub or_else-none : (o : Option Str) → or_else o none ≡ o
or_else-none none = refl
or_else-none (some v) = refl

module _ (save_clock load_clock : ℕ → Time) where
  restored_strings :
      (d : Map Item) (j : Str)
      → IsMap d
      → (i k : ℕ) × (get j (load_dict load_clock 0 (Dict.dump save_clock d) [])
          ≡ over (load_clock i) none (view (save_clock k) j d))
  unfolding Dict.dump get
  restored_strings d j h =
      let (k, e) = Dict.Dump.dump_lem save_clock d j h in
      let (i, e') =
        load_dict_lem load_clock 0 (Dict.dump save_clock d) [] j
          (dict_dump-IsMap save_clock 0 d h) in
      (i, k, e' ∙ ap (over (load_clock i) none) e)

  restored_sets :
      (s : Map Item) (j : Str)
      → IsMap s
      → HaveMaps s
      → (i k : ℕ) × (get j (load_sets load_clock 0 (SetStore.dump save_clock s) [])
          ≡ over_set (load_clock i) (copied (view (save_clock k) j s)))
  unfolding SetStore.dump view get
  restored_sets s j h maps =
      let (k, e) = set_dump_lem save_clock 0 s j h in
      let (i, e') =
        load_sets_lem load_clock 0 (SetStore.dump save_clock s) [] j
          (set_dump-IsMap save_clock 0 s h) (set_dump-HaveMaps save_clock 0 s maps) refl in
      (i, k, e' ∙ ap (over_set (load_clock i)) e)

  pub load_rdb-take_snapshot :
      (f : Str → List Item) (db : Db) (a : Aof)
      → AreStores f db
      → (snapshot : Snapshot) × (db' : Db) × (take_snapshot save_clock save_clock db
          ≡ some snapshot)
        × (load_rdb load_clock load_clock snapshot (new_db a) ≡ some db')
        × (db'.aof ≡ some a)
        × Restored fresh save_clock load_clock f db db'
  unfolding take_snapshot load_rdb HashStore.dump hget get
  load_rdb-take_snapshot f db a w =
      let (m, l', e, e', s') = load_lists-dump db.list f w.list w.stands in
      (
        snapshot_of save_clock m db,
        loaded_db load_clock l' (snapshot_of save_clock m db) a,
        rw e refl,
        rw e' refl,
        refl,
        record {
          strings = λ j. restored_strings db.dict j w.dict;
          sets = λ j. restored_sets db.set j w.set w.members;
          lists = s';
          hashes = λ j field.
              load_hashes_lem db.hash [] j field w.hash w.fields
              ∙ or_else-none (hget j field db.hash);
        },
      )

pub open_snapshots-put :
    (storage : Storage) (path bytes : Str) (disk : Disk)
    → storage.denied path ≡ false
    → open_snapshots storage path true (put path bytes disk)
      ≡ ok (record { file = Rdb.in_use; enabled = true }, put path bytes disk)
unfolding open_snapshots
open_snapshots-put storage path bytes disk free =
    rw (open_rdb-put storage path bytes disk free, open_snapshots) refl

module _ (config : Config) (storage : Storage) (envs : ℕ → Env)
    (save_clock load_clock : ℕ → Time) where
  load_aof-disabled :
      (log : Str) (db : Db) → db.aof ≡ some (open_aof log false) → load_aof envs db ≡ ok db
  unfolding load_aof load open_aof set_replaying replaying_if
  load_aof-disabled log db e =
      subst (λ o. load_aof envs (record db { aof = o }) ≡ ok (record db { aof = o })) (sym e) refl

  -- Where snapshots are enabled and the log is not, the snapshot's file is open and may be created and
  -- read, the system lets the server listen, gob can carry the snapshot that is taken, the stores have
  -- each key, field and member once, and the deque of each key stands for a list (wherever its tail is,
  -- as after a sort): the server closes without a panic and starts again from what it has saved, and
  -- its stores are those from before, as they stand one restart later (strings and sets less those
  -- that have expired meanwhile).
  pub initialize-close_server :
      (f : Str → List Item) (db : Db) (r : Rdb) (log : Str) (disk : Disk)
      → config.persistence.rdb.enabled ≡ true
      → config.persistence.aof.enabled ≡ false
      → r.enabled ≡ true
      → storage.denied config.persistence.rdb.filename ≡ false
      → AreStores f db
      → ((snapshot : Snapshot)
          → take_snapshot save_clock save_clock db ≡ some snapshot
          → IsCodec storage snapshot)
      → (r' : Rdb) × (disk' : Disk) × (close_server config storage save_clock save_clock db r disk
          ≡ some (r', disk'))
        × (r'' : Rdb) × (db' : Db) × (initialize config storage envs load_clock load_clock true log
              disk'
            ≡ ok (db', r'', disk'))
        × Restored fresh save_clock load_clock f db db'
  unfolding close_server initialize save open_log load_found load_snapshot
  initialize-close_server f db r log disk on off ready free w codec =
      let (snapshot, db', taken, back, a, restored) =
        load_rdb-take_snapshot save_clock load_clock f db (open_aof log false) w in
      let c = codec snapshot taken in
      (
        (Rdb.close r).1,
        put config.persistence.rdb.filename (storage.encode_gob snapshot).0 disk,
        rw (on, taken, ready, free) refl,
        record { file = Rdb.in_use; enabled = true },
        db',
        rw
            (
              off,
              on,
              open_snapshots-put storage config.persistence.rdb.filename
                  (storage.encode_gob snapshot).0 disk free,
              load-put storage (record { file = Rdb.in_use; enabled = true })
                  config.persistence.rdb.filename (storage.encode_gob snapshot).0 disk refl free
                  c.writes,
              c.reads,
              back,
              load_aof-disabled log db' a,
            )
            refl,
        restored,
      )
