-- ===== src/Server/Rewritten.antt =====
-- A server that starts from a log that was rewritten.
mod Tests
use valkeydb.Base.{
  ℕ, ◌+◌, ◌≡◌, refl, ◌∙◌, ap, sym, subst, true, false, Option, none, some, List, [], ◌∷◌, ◌++◌, map,
  arith, Str, eq_str, eq_str_iff, eq_str_refl, Bool-cases, inl, inr, append-nil, if◌then◌else◌, ◌≢◌,
}
use valkeydb.Base.Map.{Map, IsMap, get, put}
use valkeydb.Clock.{Time, is_zero, unix_milli, to_unix_milli}
use valkeydb.Item.{Item, value_item}
use valkeydb.Config.{Config}
use valkeydb.Dict
use valkeydb.Dict.{Dict}
use valkeydb.Dict.View.{view}
use valkeydb.Dict.Dump
use valkeydb.SetStore
use valkeydb.SetStore.{Set}
use valkeydb.HashStore
use valkeydb.HashStore.{hget}
use valkeydb.ListStore
use valkeydb.ListStore.{Lists}
use valkeydb.ListStore.Refine.{Stands}
use valkeydb.ListStore.Dump.{items_at, dump-Denotes}
use valkeydb.Resp.{Value, ok}
use valkeydb.Aof
use valkeydb.Aof.{Aof, values_of, open_aof, rewrite_entries, encode_entries}
use valkeydb.Aof.Load.{AllWire, load-entries, replay_all, decode-nil}
use valkeydb.Rdb
use valkeydb.Rdb.{Snapshot, Disk, Rdb, Storage, decoded, load_snapshot, open_rdb}
use valkeydb.Rdb.Files.{load-put}
use valkeydb.Command.{Db, Env, set_replaying, replaying_if, append_if}
use valkeydb.Server.{load_aof, replay_next}
use valkeydb.Server.Persist.{
  load_rdb, take_snapshot, rewrite_aof, load_lists, load_dict, load_sets, load_hashes,
}
use valkeydb.Server.Lifecycle.{initialize, new_db, load_found, open_log, open_snapshots}
use valkeydb.Server.Relog.{replay_all-rewrite_entries}
use valkeydb.Server.Redo.{HaveTimes, NeverExpire, replay_dict, replay_sets}
use valkeydb.Server.Dumped.{
  copied, dict_dump-IsMap, set_dump-IsMap, set_dump-HaveMaps, set_dump_lem,
}
use valkeydb.Server.Restart.{Restored, AreStores, or_else-none, open_snapshots-put}
use valkeydb.Server.Restore.Strings.{kept_until, stored_until, stored_until-get}
use valkeydb.Server.Restore.Hashes.{load_hashes_lem}
use valkeydb.Server.Restore.Members.{HaveMaps, over_set, load_sets_lem}
use valkeydb.Server.Restore.Sequences.{extended, load_lists_lem, Stands-ext}
use valkeydb.Server.Relogged.{
  relogged, over_old, replayed, replay_dict-absent, replay_dict_lem, over_old-none, replay_sets-eq,
  dict_dump-HaveTimes, set_dump-NeverExpire, relogged_strings, relogged_sets,
}

-- The stores after the replay of a rewrite of the dumps.
abbrev relog : (ℕ → Time) → Snapshot → Lists → Db → Db
relog times s l db = record db {
  dict = replay_dict times 0 s.dict_data db.dict;
  set = replay_sets s.set_data db.set;
  list = l;
  hash = load_hashes s.hash_data db.hash;
}

abbrev pub entries_of : Snapshot → List Value
entries_of s = rewrite_entries s.dict_data s.set_data s.list_data s.hash_data

module _ (envs : ℕ → Env) where
  load_aof-rewritten :
      (s : Snapshot) (db : Db) (l : Lists)
      → db.aof ≡ some (open_aof (encode_entries (entries_of s)) true)
      → AllWire (entries_of s)
      → HaveTimes s.dict_data
      → NeverExpire s.set_data
      → load_lists s.list_data db.list ≡ some l
      → load_aof envs db ≡ ok (relog (λ n. (envs n).clock 0) s l db)
  unfolding load_aof open_aof set_replaying replaying_if append_if Aof.append
  load_aof-rewritten s db l e w t z f =
      let a = open_aof (encode_entries (entries_of s)) true in
      let loading = record db { aof = some (record a { replaying = true }) } in
      let (n, e') =
        replay_all-rewrite_entries envs s.dict_data s.set_data s.list_data s.hash_data loading l
          (λ v. refl) t z f in
      subst
        (λ o.
          load_aof envs (record db { aof = o })
          ≡ ok (relog (λ n. (envs n).clock 0) s l (record db { aof = o })))
        (sym e)
        (rw
          (
            load-entries (replay_next envs) (entries_of s) [] a (0, loading) refl
                (sym (append-nil (encode_entries (entries_of s)))) w decode-nil,
            e',
          )
          refl)

-- The values of the lists of a snapshot.
abbrev pub values_at : Map (List Item) → Str → List Item
values_at m k = map value_item (values_of (items_at (get k m)))

module _ (config : Config) (storage : Storage) (envs : ℕ → Env)
    (save_clock load_clock : ℕ → Time) where
  initialize-log :
      (s : Snapshot) (l : Lists) (disk : Disk)
      → config.persistence.aof.enabled ≡ true
      → config.persistence.rdb.enabled ≡ false
      → storage.denied config.persistence.aof.filename ≡ false
      → AllWire (entries_of s)
      → HaveTimes s.dict_data
      → NeverExpire s.set_data
      → load_lists s.list_data [] ≡ some l
      → let log = encode_entries (entries_of s) in
        initialize config storage envs load_clock load_clock true log disk
        ≡ ok (
          relog (λ n. (envs n).clock 0) s l (new_db (open_aof log true)),
          record { file = Rdb.no_file; enabled = false },
          disk,
        )
  unfolding initialize open_log open_snapshots open_rdb load_found Rdb.load
  initialize-log s l disk on off free w t z e =
      rw
        (
          on,
          off,
          free,
          load_aof-rewritten envs s (new_db (open_aof (encode_entries (entries_of s)) true)) l refl
              w t z e,
        )
        refl

  -- Where the log is enabled and snapshots are not, the log that is rewritten is enabled, its path may
  -- be opened and the system lets the server listen, the stores have each key, field and member once,
  -- the deque of each key stands for a list (wherever its tail is, as after a sort), no set expires,
  -- the milliseconds of every expiry are in int64, and the entries of the rewrite are fit for the
  -- wire: the log is rewritten without a panic, a server starts from it without an error, and its
  -- stores are those from before, as they stand one restart later (strings less those that had expired
  -- when their expiry was replayed, their expiry rounded down to a millisecond).
  pub initialize-rewrite_aof :
      (f : Str → List Item) (db : Db) (a : Aof) (disk : Disk)
      → config.persistence.aof.enabled ≡ true
      → config.persistence.rdb.enabled ≡ false
      → storage.denied config.persistence.aof.filename ≡ false
      → db.aof ≡ some a
      → a.enabled ≡ true
      → AreStores f db
      → NeverExpire db.set
      → HaveTimes db.dict
      → ((s : Snapshot) → take_snapshot save_clock save_clock db ≡ some s → AllWire (entries_of s))
      → (kept : Db) × (b : Aof) × (rewrite_aof save_clock save_clock db ≡ some kept)
        × (kept.aof ≡ some b)
        × (r : Rdb) × (db' : Db) × (initialize config storage envs load_clock load_clock true b.file
              disk
            ≡ ok (db', r, disk))
        × Restored relogged save_clock (λ i. (envs i).clock 0) f db db'
  unfolding rewrite_aof take_snapshot Aof.rewrite Dict.dump SetStore.dump HashStore.dump hget get
  initialize-rewrite_aof f db a disk on off free e ready w z t wire =
      let (m, taken, h, items, _) = dump-Denotes db.list f w.list w.stands in
      let (l, loads, s') =
        load_lists_lem m [] (λ k. []) h (record { holds = λ k. refl; steady = λ k. tt }) in
      let s : Snapshot = record {
        dict_data = Dict.dump save_clock db.dict;
        set_data = SetStore.dump save_clock db.set;
        list_data = m;
        hash_data = db.hash;
      } in
      let b : Aof = record a {
        file = encode_entries (entries_of s);
        unlinked = some (elim a.unlinked [ none ↦ a.file | some old ↦ old ]);
      } in
      (
        record db { aof = some b },
        b,
        rw (taken, e, ready) refl,
        refl,
        record { file = Rdb.no_file; enabled = false },
        relog (λ n. (envs n).clock 0) s l (new_db (open_aof (encode_entries (entries_of s)) true)),
        initialize-log s l disk on off free (wire s (rw taken refl))
            (dict_dump-HaveTimes save_clock 0 db.dict t)
            (set_dump-NeverExpire save_clock 0 db.set z) loads,
        record {
          strings = λ j. relogged_strings save_clock (λ n. (envs n).clock 0) db.dict j w.dict;
          sets = λ j. relogged_sets save_clock (λ n. (envs n).clock 0) db.set j w.set w.members z;
          lists = Stands-ext l _ _ (λ k. ap (λ xs. map value_item (values_of xs)) (items k)) s';
          hashes = λ j field.
              load_hashes_lem db.hash [] j field w.hash w.fields
              ∙ or_else-none (hget j field db.hash);
        },
      )

  -- Where both the log and snapshots are enabled, both files may be opened and the system lets the
  -- server listen, the snapshot's file is not empty and decodes to stores in which no set expires, the
  -- milliseconds of every expiry are in int64 and each list is there once, and the log is what a
  -- rewrite of the same stores leaves, with entries fit for the wire: the server that starts from them
  -- has the values of each list twice, one behind the other.
  pub initialize-both :
      (s : Snapshot) (bytes : Str) (disk : Disk)
      → config.persistence.aof.enabled ≡ true
      → config.persistence.rdb.enabled ≡ true
      → storage.denied config.persistence.aof.filename ≡ false
      → storage.denied config.persistence.rdb.filename ≡ false
      → bytes ≢ []
      → storage.decode_gob bytes ≡ decoded s
      → AllWire (entries_of s)
      → HaveTimes s.dict_data
      → NeverExpire s.set_data
      → IsMap s.list_data
      → (r : Rdb) × (db : Db) × (initialize config storage envs load_clock load_clock true
            (encode_entries (entries_of s))
            (put config.persistence.rdb.filename bytes disk)
          ≡ ok (db, r, put config.persistence.rdb.filename bytes disk))
        × Stands db.list (λ k. values_at s.list_data k ++ values_at s.list_data k)
  unfolding initialize open_log load_found load_snapshot load_rdb get
  initialize-both s bytes disk on on' free free' full reads w t z h =
      let (l, loads, s1) =
        load_lists_lem s.list_data [] (λ k. []) h
          (record { holds = λ k. refl; steady = λ k. tt }) in
      let (l', loads', s2) = load_lists_lem s.list_data l _ h s1 in
      let start = new_db (open_aof (encode_entries (entries_of s)) true) in
      let found = record start {
        dict = load_dict load_clock 0 s.dict_data [];
        set = load_sets load_clock 0 s.set_data [];
        list = l;
        hash = load_hashes s.hash_data [];
      } in
      (
        record { file = Rdb.in_use; enabled = true },
        relog (λ n. (envs n).clock 0) s l' found,
        rw
            (
              on,
              on',
              free,
              open_snapshots-put storage config.persistence.rdb.filename bytes disk free',
              load-put storage (record { file = Rdb.in_use; enabled = true })
                  config.persistence.rdb.filename bytes disk refl free' full,
              reads,
              loads,
              load_aof-rewritten envs s found l' refl w t z loads',
            )
            refl,
        s2,
      )
