-- ===== src/Command/Invariant.antt =====
-- The registry holds only commands that keep the stores well-formed.
use valkeydb.Base.{◌≡◌, some, List, [], arith, Str, to_upper, Option-cases, inl, inr, After}
use valkeydb.Base.Map.{get}
use valkeydb.Resp.{Value}
use valkeydb.Command.{Db, Env, Handler}
use valkeydb.Command.Registry.{
  find, dict_commands, set_commands, list_commands, system_commands, pubsub_commands, hash_commands,
  init, replay,
}
use valkeydb.Command.Registered.{Holds, register_all-Holds}
use valkeydb.Command.Wellformed.{IsWell}
use valkeydb.Command.Kept.{
  Keeps, del-Keeps, ping-Keeps, set-Keeps, get-Keeps, expire-Keeps, pexpireat-Keeps, ttl-Keeps,
  smembers-Keeps, sismember-Keeps, scard-Keeps, sttl-Keeps, sexpire-Keeps, sadd-Keeps, srem-Keeps,
}
use valkeydb.Command.KeptLists.{
  lpush-Keeps, rpush-Keeps, lpop-Keeps, rpop-Keeps, llen-Keeps, lrange-Keeps, subscribe-Keeps,
  unsubscribe-Keeps, publish-Keeps, monitor-Keeps, bgsave-Keeps, sort-Keeps, auth-Keeps, info-Keeps,
  keys-Keeps,
}
use valkeydb.Command.KeptHashes.{
  hset-Keeps, hget-Keeps, hdel-Keeps, hgetall-Keeps, hexists-Keeps, hlen-Keeps,
}

module _ (env : Env) where
  init-Holds : Holds (λ name. Keeps) (init env)
  unfolding init dict_commands set_commands list_commands system_commands pubsub_commands
      hash_commands get
  init-Holds =
      register_all-Holds (λ name. Keeps) (hash_commands env) _
        (hset-Keeps, (hget-Keeps, (hdel-Keeps, (hgetall-Keeps, (hexists-Keeps, (hlen-Keeps, tt))))))
        (register_all-Holds (λ name. Keeps) (pubsub_commands env) _
          (subscribe-Keeps, (unsubscribe-Keeps, (publish-Keeps, tt)))
          (register_all-Holds (λ name. Keeps) (system_commands env) _
            (
              auth-Keeps env,
              (info-Keeps env, (bgsave-Keeps, (keys-Keeps env, (monitor-Keeps, tt)))),
            )
            (register_all-Holds (λ name. Keeps) (list_commands env) _
              (
                lpush-Keeps,
                (
                  rpush-Keeps,
                  (lpop-Keeps, (rpop-Keeps, (llen-Keeps, (lrange-Keeps, (sort-Keeps env, tt))))),
                ),
              )
              (register_all-Holds (λ name. Keeps) (set_commands env) _
                (
                  sadd-Keeps,
                  (
                    srem-Keeps,
                    (
                      smembers-Keeps env,
                      (
                        sismember-Keeps env,
                        (scard-Keeps env, (sexpire-Keeps env, (sttl-Keeps env, tt))),
                      ),
                    ),
                  ),
                )
                (register_all-Holds (λ name. Keeps) (dict_commands env) []
                  (
                    set-Keeps env,
                    (
                      get-Keeps env,
                      (
                        del-Keeps,
                        (
                          expire-Keeps env,
                          (ttl-Keeps env, (ping-Keeps, (pexpireat-Keeps env, tt))),
                        ),
                      ),
                    ),
                  )
                  (λ name h e. absurd (ground (arith, e))))))))

  -- What the registry finds under a name keeps the stores well-formed.
  pub find-Keeps : (name : Str) (h : Handler) → find name (init env) ≡ some h → Keeps h
  unfolding find
  find-Keeps name h e = init-Holds (to_upper name) h e

  pub replay-IsWell :
      (name : Str) (args : List Value) (db : Db)
      → IsWell db
      → After IsWell (replay env name args db)
  unfolding replay
  replay-IsWell name args db w = elim (Option-cases (find name (init env))) [
    | inl e ↦ rw (e, replay) w
    | inr (h, e) ↦
        let kept = find-Keeps name h e args db w in
        elim (Option-cases (h args db)) [
          | inl f ↦ rw (e, f, replay) tt
          | inr (r, f) ↦ rw (e, f, replay) (rw f at kept)
        ]
  ]
