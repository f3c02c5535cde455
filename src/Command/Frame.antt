-- ===== src/Command/Frame.antt =====
-- Commands that leave the strings alone.
use valkeydb.Base.{◌≡◌, List, arith, After}
use valkeydb.Resp.{Value}
use valkeydb.Command.{Db, Env, Handler, log, log_if}
use valkeydb.Command.Strings.{cmd_ping}
use valkeydb.Command.Sets.{
  cmd_sadd, cmd_srem, cmd_smembers, cmd_sismember, cmd_scard, cmd_sexpire, cmd_sttl,
}
use valkeydb.Command.Sequences.{
  cmd_lpush, cmd_rpush, cmd_lpop, cmd_rpop, cmd_llen, cmd_lrange, cmd_sort, pop_reply,
}
use valkeydb.Command.Hashes.{
  cmd_hset, cmd_hget, cmd_hdel, cmd_hgetall, cmd_hexists, cmd_hlen, put_fields,
}
use valkeydb.Command.Channels.{cmd_subscribe, cmd_unsubscribe, cmd_publish}
use valkeydb.Command.System.{cmd_auth, cmd_info, cmd_bgsave, cmd_keys, cmd_monitor}

abbrev pub SameDict : Handler → Type 0
SameDict h = (args : List Value) (db : Db) → After (λ (reply, db'). db'.dict ≡ db.dict) (h args db)

pub ping-SameDict : SameDict cmd_ping
unfolding cmd_ping log_if log
ping-SameDict args db = ground arith

pub sadd-SameDict : SameDict cmd_sadd
unfolding cmd_sadd log_if log
sadd-SameDict args db = ground arith

pub srem-SameDict : SameDict cmd_srem
unfolding cmd_srem log_if log
srem-SameDict args db = ground arith

pub lpush-SameDict : SameDict cmd_lpush
unfolding cmd_lpush log_if log
lpush-SameDict args db = ground arith

pub rpush-SameDict : SameDict cmd_rpush
unfolding cmd_rpush log_if log
rpush-SameDict args db = ground arith

pub lpop-SameDict : SameDict cmd_lpop
unfolding cmd_lpop log_if log pop_reply
lpop-SameDict args db = ground arith

pub rpop-SameDict : SameDict cmd_rpop
unfolding cmd_rpop log_if log pop_reply
rpop-SameDict args db = ground arith

pub llen-SameDict : SameDict cmd_llen
unfolding cmd_llen log_if log
llen-SameDict args db = ground arith

pub lrange-SameDict : SameDict cmd_lrange
unfolding cmd_lrange log_if log
lrange-SameDict args db = ground arith

pub bgsave-SameDict : SameDict cmd_bgsave
unfolding cmd_bgsave log_if log
bgsave-SameDict args db = ground arith

pub monitor-SameDict : SameDict cmd_monitor
unfolding cmd_monitor log_if log
monitor-SameDict args db = ground arith

pub subscribe-SameDict : SameDict cmd_subscribe
unfolding cmd_subscribe log_if log
subscribe-SameDict args db = ground arith

pub unsubscribe-SameDict : SameDict cmd_unsubscribe
unfolding cmd_unsubscribe log_if log
unsubscribe-SameDict args db = ground arith

pub publish-SameDict : SameDict cmd_publish
unfolding cmd_publish log_if log
publish-SameDict args db = ground arith

pub hset-SameDict : SameDict cmd_hset
unfolding cmd_hset log_if log put_fields
hset-SameDict args db = ground arith

pub hget-SameDict : SameDict cmd_hget
unfolding cmd_hget log_if log
hget-SameDict args db = ground arith

pub hdel-SameDict : SameDict cmd_hdel
unfolding cmd_hdel log_if log
hdel-SameDict args db = ground arith

pub hgetall-SameDict : SameDict cmd_hgetall
unfolding cmd_hgetall log_if log
hgetall-SameDict args db = ground arith

pub hexists-SameDict : SameDict cmd_hexists
unfolding cmd_hexists log_if log
hexists-SameDict args db = ground arith

pub hlen-SameDict : SameDict cmd_hlen
unfolding cmd_hlen log_if log
hlen-SameDict args db = ground arith

module _ (env : Env) where
  pub smembers-SameDict : SameDict (cmd_smembers env)
  unfolding cmd_smembers log_if log
  smembers-SameDict args db = ground arith

  pub sismember-SameDict : SameDict (cmd_sismember env)
  unfolding cmd_sismember log_if log
  sismember-SameDict args db = ground arith

  pub scard-SameDict : SameDict (cmd_scard env)
  unfolding cmd_scard log_if log
  scard-SameDict args db = ground arith

  pub sexpire-SameDict : SameDict (cmd_sexpire env)
  unfolding cmd_sexpire log_if log
  sexpire-SameDict args db = ground arith

  pub sttl-SameDict : SameDict (cmd_sttl env)
  unfolding cmd_sttl log_if log
  sttl-SameDict args db = ground arith

  pub sort-SameDict : SameDict (cmd_sort env)
  unfolding cmd_sort log_if log
  sort-SameDict args db = ground arith

  pub auth-SameDict : SameDict (cmd_auth env)
  unfolding cmd_auth log_if log
  auth-SameDict args db = ground arith

  pub info-SameDict : SameDict (cmd_info env)
  unfolding cmd_info log_if log
  info-SameDict args db = ground arith

  pub keys-SameDict : SameDict (cmd_keys env)
  unfolding cmd_keys log_if log
  keys-SameDict args db = ground arith
