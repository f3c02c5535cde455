-- ===== src/Command/Registry.antt =====
-- internal/command/registry.go: the handlers by name.
use valkeydb.Base.{Option, none, some, List, [], ◌∷◌, Str, codes, to_upper}
use valkeydb.Base.Map.{Map, get, put}
use valkeydb.Resp.{Value}
use valkeydb.Command.{Db, Env, Handler}
use valkeydb.Command.Strings.{
  cmd_set, cmd_get, cmd_del, cmd_expire, cmd_ttl, cmd_ping, cmd_pexpireat,
}
use valkeydb.Command.Sets.{
  cmd_sadd, cmd_srem, cmd_smembers, cmd_sismember, cmd_scard, cmd_sexpire, cmd_sttl,
}
use valkeydb.Command.Sequences.{
  cmd_lpush, cmd_rpush, cmd_lpop, cmd_rpop, cmd_llen, cmd_lrange, cmd_sort,
}
use valkeydb.Command.Hashes.{cmd_hset, cmd_hget, cmd_hdel, cmd_hgetall, cmd_hexists, cmd_hlen}
use valkeydb.Command.Channels.{cmd_subscribe, cmd_unsubscribe, cmd_publish}
use valkeydb.Command.System.{cmd_auth, cmd_info, cmd_bgsave, cmd_keys, cmd_monitor}

abbrev pub Registry : Type 0
Registry = Map Handler

unfoldable pub register : Str → Handler → Registry → Registry
register name h r = put (to_upper name) h r

unfoldable pub find : Str → Registry → Option Handler
find name r = get (to_upper name) r

unfoldable pub register_all : List (Str × Handler) → Registry → Registry
register_all [] r = r
register_all ((name, h) ∷ rest) r = register_all rest (register name h r)

module _ (env : Env) where
  unfoldable pub dict_commands : List (Str × Handler)
  dict_commands =
      (codes "SET", cmd_set env)
      ∷ (codes "GET", cmd_get env)
      ∷ (codes "DEL", cmd_del)
      ∷ (codes "EXPIRE", cmd_expire env)
      ∷ (codes "TTL", cmd_ttl env)
      ∷ (codes "PING", cmd_ping)
      ∷ (codes "PEXPIREAT", cmd_pexpireat env)
      ∷ []

  unfoldable pub set_commands : List (Str × Handler)
  set_commands =
      (codes "SADD", cmd_sadd)
      ∷ (codes "SREM", cmd_srem)
      ∷ (codes "SMEMBERS", cmd_smembers env)
      ∷ (codes "SISMEMBER", cmd_sismember env)
      ∷ (codes "SCARD", cmd_scard env)
      ∷ (codes "SEXPIRE", cmd_sexpire env)
      ∷ (codes "STTL", cmd_sttl env)
      ∷ []

  unfoldable pub list_commands : List (Str × Handler)
  list_commands =
      (codes "LPUSH", cmd_lpush)
      ∷ (codes "RPUSH", cmd_rpush)
      ∷ (codes "LPOP", cmd_lpop)
      ∷ (codes "RPOP", cmd_rpop)
      ∷ (codes "LLEN", cmd_llen)
      ∷ (codes "LRANGE", cmd_lrange)
      ∷ (codes "SORT", cmd_sort env)
      ∷ []

  unfoldable pub system_commands : List (Str × Handler)
  system_commands =
      (codes "AUTH", cmd_auth env)
      ∷ (codes "INFO", cmd_info env)
      ∷ (codes "BGSAVE", cmd_bgsave)
      ∷ (codes "KEYS", cmd_keys env)
      ∷ (codes "MONITOR", cmd_monitor)
      ∷ []

  unfoldable pub pubsub_commands : List (Str × Handler)
  pubsub_commands =
      (codes "SUBSCRIBE", cmd_subscribe)
      ∷ (codes "UNSUBSCRIBE", cmd_unsubscribe)
      ∷ (codes "PUBLISH", cmd_publish)
      ∷ []

  unfoldable pub hash_commands : List (Str × Handler)
  hash_commands =
      (codes "HSET", cmd_hset)
      ∷ (codes "HGET", cmd_hget)
      ∷ (codes "HDEL", cmd_hdel)
      ∷ (codes "HGETALL", cmd_hgetall)
      ∷ (codes "HEXISTS", cmd_hexists)
      ∷ (codes "HLEN", cmd_hlen)
      ∷ []

  -- The registry that `Init` leaves.
  unfoldable pub init : Registry
  init = register_all hash_commands (
      register_all pubsub_commands (
        register_all system_commands
          (register_all list_commands (register_all set_commands (register_all dict_commands [])))))

  -- An unknown command is passed over, and the reply is dropped.
  unfoldable pub replay : Str → List Value → Db → Option Db
  replay cmd args db = elim (find cmd init) [
    | none ↦ some db
    | some h ↦ elim (h args db) [ none ↦ none | some (reply, db') ↦ some db' ]
  ]
