-- ===== src/Server/Lifecycle.antt =====
-- internal/server/server.go: the start of the server and its end. The log's file is in the `Aof`
-- record; the other files are on the disk.
use valkeydb.Base.{ℕ, Bool, not, ◌&&◌, Option, none, some, [], Str, if◌then◌else◌}
use valkeydb.Clock.{Time}
use valkeydb.Config.{Config}
use valkeydb.Pubsub.{new_pubsub}
use valkeydb.Resp.{Decoded, ok, failed, panicked, bind}
use valkeydb.Aof.{Aof, open_aof}
use valkeydb.Rdb
use valkeydb.Rdb.{Snapshot, Disk, Rdb, Storage, Loaded, loaded, nothing, load_error, open_rdb, save}
use valkeydb.Command.{Db, Env}
use valkeydb.Server.{load_aof}
use valkeydb.Server.Persist.{load_rdb, take_snapshot}

-- The stores that `initialize` makes, with the log that it has opened.
abbrev pub new_db : Aof → Db
new_db a = record {
  dict = [];
  set = [];
  list = [];
  hash = [];
  pubsub = new_pubsub;
  sub_chan = none;
  sub_name = [];
  saves = [];
  aof = some a;
}

abbrev pub or_panic {ℓ} : {A : Type ℓ} → Option A → Decoded A
or_panic none = panicked
or_panic (some a) = ok a

-- `loadRDB`: an error is reported, and the server starts without the snapshot.
unfoldable pub load_found : (ℕ → Time) → (ℕ → Time) → Loaded → Db → Option Db
load_found dict_clock set_clock (loaded snapshot) db = load_rdb dict_clock set_clock snapshot db
load_found dict_clock set_clock nothing db = some db
load_found dict_clock set_clock load_error db = some db

module _ (storage : Storage) where
  -- The result of `OpenAOF` at a path where `log` stands.
  unfoldable pub open_log : Str → Bool → Str → Decoded Aof
  open_log path enabled log =
      if enabled && storage.denied path then failed else ok (open_aof log enabled)

  unfoldable pub open_snapshots : Str → Bool → Disk → Decoded (Rdb × Disk)
  open_snapshots path enabled disk = elim (open_rdb storage path enabled disk) [
    | none ↦ failed
    | some opened_rdb ↦ ok opened_rdb
  ]

module _ (config : Config) (storage : Storage) where
  -- `initialize`: `failed` is an error that it returns. `envs n` is what the `n`-th command of the
  -- log takes from elsewhere, with its readings of the clock. `listens` is whether the system lets the
  -- server listen on its address.
  unfoldable pub initialize :
      (ℕ → Env) → (ℕ → Time) → (ℕ → Time) → Bool → Str → Disk → Decoded (Db × Rdb × Disk)
  initialize envs dict_clock set_clock listens log disk =
      if not listens
      then failed
      else bind
          (open_log storage config.persistence.aof.filename config.persistence.aof.enabled log)
          λ a.
            bind
              (open_snapshots storage config.persistence.rdb.filename config.persistence.rdb.enabled
                disk)
              λ (r, disk').
                bind
                  (or_panic (
                    load_found dict_clock set_clock
                      (Rdb.load storage r config.persistence.rdb.filename disk') (new_db a)))
                  λ db. bind (load_aof envs db) λ db'. ok (db', r, disk')

  -- `Close`, once the connections have ended or their time is over: the snapshot is saved, and an
  -- error is dropped. `none` is a panic.
  unfoldable pub close_server : (ℕ → Time) → (ℕ → Time) → Db → Rdb → Disk → Option (Rdb × Disk)
  close_server dict_clock set_clock db r disk =
      if config.persistence.rdb.enabled
      then elim (take_snapshot dict_clock set_clock db) [
        | none ↦ none
        | some snapshot ↦
            some ((Rdb.close r).1, (save storage r snapshot config.persistence.rdb.filename disk).1)
      ]
      else some ((Rdb.close r).1, disk)
