-- ===== src/Server/Redo.antt =====
-- The entries of a rewritten log, replayed one by one.
use valkeydb.Base.{
  ℕ, suc, ◌+◌, Bool, ◌≡◌, refl, true, false, Option, some, List, [], ◌∷◌, arith, Str, codes,
  to_upper, eq_str, length, ltb, ◌==◌, if◌then◌else◌,
}
use valkeydb.Base.Int.{pos, IsInt64}
use valkeydb.Base.Map.{Map, get, put, keys}
use valkeydb.Clock.{Time, is_zero, unix_milli, to_unix_milli}
use valkeydb.Item.{Item}
use valkeydb.Dict
use valkeydb.Dict.{Dict}
use valkeydb.SetStore.{Set, sadd}
use valkeydb.ListStore.{Lists, rpush}
use valkeydb.HashStore.{hset}
use valkeydb.Resp.{Value, to_list}
use valkeydb.Aof.{load_value, is_array, is_text, bulks, entry}
use valkeydb.Command.{Db, Env, append_if, log, log_if, texts}
use valkeydb.Command.Strings.{cmd_set, set_ttl}
use valkeydb.Command.Sets.{cmd_sadd}
use valkeydb.Command.Sequences.{cmd_rpush}
use valkeydb.Command.Hashes.{cmd_hset, put_fields}
use valkeydb.Command.Registry.{
  init, find, replay, register, register_all, dict_commands, set_commands, list_commands,
  system_commands, pubsub_commands, hash_commands,
}
use valkeydb.Command.Replay.{texts-bulks}

-- A log that takes no entries, as it is while it is replayed.
abbrev pub IsQuiet : Db → Type 0
IsQuiet db = (v : Value) → append_if v db.aof ≡ db.aof

-- How many entries an item takes.
abbrev pub entry_count : Item → ℕ
entry_count item = if is_zero item.expired_at then 1 else 2

-- What the entries of a dictionary, from the `n`-th of the file on, make of another; `times i` is
-- when the `i`-th one is replayed.
unfoldable pub replay_dict : (ℕ → Time) → ℕ → Map Item → Dict → Dict
replay_dict times n [] d = d
replay_dict times n ((key, item) ∷ m) d =
    let stored = Dict.set key item.value (pos 0) (times n) d in
    replay_dict times (n + entry_count item) m (
      if is_zero item.expired_at
      then stored
      else (Dict.expire_at key (unix_milli (to_unix_milli item.expired_at)) (times (n + 1))
          stored).1)

-- What the entries of sets that never expire make of other sets.
unfoldable pub replay_sets : Map Item → Set → Set
replay_sets [] s = s
replay_sets ((key, item) ∷ m) s =
    replay_sets m (if length item.members == 0 then s else (sadd key (keys item.members) s).1)

-- The milliseconds of every expiry are in int64.
abbrev pub HaveTimes : Map Item → Type 0
HaveTimes [] = Unit
HaveTimes ((key, item) ∷ m) = IsInt64 (to_unix_milli item.expired_at) × HaveTimes m

abbrev pub NeverExpire : Map Item → Type 0
NeverExpire [] = Unit
NeverExpire ((key, item) ∷ m) = (is_zero item.expired_at ≡ true) × NeverExpire m

pub suc-nonzero : (n : ℕ) → suc n == 0 ≡ false
suc-nonzero n = ground arith

pub if-same {ℓ} : {A : Type ℓ} (b : Bool) (a : A) → (if b then a else a) ≡ a
if-same true a = refl
if-same false a = refl

module _ (env : Env) where
  pub find-set : find (codes "SET") (init env) ≡ some (cmd_set env)
  unfolding find init register register_all dict_commands set_commands list_commands system_commands
      pubsub_commands hash_commands get put to_upper eq_str
  find-set = refl

  pub find-sadd : find (codes "SADD") (init env) ≡ some cmd_sadd
  unfolding find init register register_all dict_commands set_commands list_commands system_commands
      pubsub_commands hash_commands get put to_upper eq_str
  find-sadd = refl

  pub find-rpush : find (codes "RPUSH") (init env) ≡ some cmd_rpush
  unfolding find init register register_all dict_commands set_commands list_commands system_commands
      pubsub_commands hash_commands get put to_upper eq_str
  find-rpush = refl

  pub find-hset : find (codes "HSET") (init env) ≡ some cmd_hset
  unfolding find init register register_all dict_commands set_commands list_commands system_commands
      pubsub_commands hash_commands get put to_upper eq_str
  find-hset = refl

  abbrev pub redo : Value → Db → Option Db
  redo v db = load_value (replay env) v db

  pub redo-set :
      (key value : Str) (db : Db)
      → IsQuiet db
      → redo (entry (codes "SET" ∷ key ∷ value ∷ [])) db
        ≡ some (record db { dict = Dict.set key value (pos 0) (env.clock 0) db.dict })
  unfolding load_value is_array is_text bulks to_list cmd_set set_ttl log replay
  redo-set key value db q = rw (replay, find-set, q (entry (codes "SET" ∷ key ∷ value ∷ []))) refl

  pub redo-sadd :
      (key m : Str) (members : List Str) (db : Db)
      → IsQuiet db
      → redo (entry (codes "SADD" ∷ key ∷ m ∷ members)) db
        ≡ some (record db { set = (sadd key (m ∷ members) db.set).1 })
  unfolding load_value is_array is_text bulks to_list cmd_sadd log_if texts replay
  redo-sadd key m members db q =
      rw
        (
          replay,
          find-sadd,
          texts-bulks members,
          q (entry (codes "SADD" ∷ key ∷ m ∷ members)),
          if-same (ltb 0 (sadd key (m ∷ members) db.set).0) db.aof,
        )
        refl

  pub redo-rpush :
      (key v : Str) (values : List Str) (n : ℕ) (db : Db) (l : Lists)
      → IsQuiet db
      → rpush key (v ∷ values) db.list ≡ some (n, l)
      → redo (entry (codes "RPUSH" ∷ key ∷ v ∷ values)) db ≡ some (record db { list = l })
  unfolding load_value is_array is_text bulks to_list cmd_rpush log_if texts replay
  redo-rpush key v values n db l q e =
      rw
        (
          replay,
          find-rpush,
          texts-bulks values,
          e,
          q (entry (codes "RPUSH" ∷ key ∷ v ∷ values)),
          if-same (ltb 0 n) db.aof,
        )
        refl

  pub redo-hset :
      (key field v : Str) (db : Db)
      → IsQuiet db
      → redo (entry (codes "HSET" ∷ key ∷ field ∷ v ∷ [])) db
        ≡ some (record db { hash = (hset key (field ∷ v ∷ []) db.hash).1 })
  unfolding load_value is_array is_text bulks to_list cmd_hset put_fields log_if texts replay
  redo-hset key field v db q =
      rw
        (
          replay,
          find-hset,
          q (entry (codes "HSET" ∷ key ∷ field ∷ v ∷ [])),
          if-same (ltb 0 (hset key (field ∷ v ∷ []) db.hash).0) db.aof,
        )
        refl
