-- ===== src/Command/Readers.antt =====
-- The commands that change what is in view of the strings, and all the other ones.
use valkeydb.Base.{
  ◌≡◌, refl, ap, false, Option, none, some, List, [], ◌∷◌, Str, codes, arith, eq_str, to_upper,
  After,
}
use valkeydb.Base.Int.{◌≤ℤ◌}
use valkeydb.Base.Map.{get, contains}
use valkeydb.Clock.{Time}
use valkeydb.Dict.View.{view, lookup_lem}
use valkeydb.Dict.Expiry.{ttl_lem}
use valkeydb.Resp.{Value, text_of}
use valkeydb.Command.{Db, Env, Handler}
use valkeydb.Command.Strings.{cmd_get, cmd_ttl, cmd_ping}
use valkeydb.Command.Sets.{
  cmd_sadd, cmd_srem, cmd_smembers, cmd_sismember, cmd_scard, cmd_sexpire, cmd_sttl,
}
use valkeydb.Command.Sequences.{
  cmd_lpush, cmd_rpush, cmd_lpop, cmd_rpop, cmd_llen, cmd_lrange, cmd_sort,
}
use valkeydb.Command.Hashes.{cmd_hset, cmd_hget, cmd_hdel, cmd_hgetall, cmd_hexists, cmd_hlen}
use valkeydb.Command.Channels.{cmd_subscribe, cmd_unsubscribe, cmd_publish}
use valkeydb.Command.System.{cmd_auth, cmd_info, cmd_bgsave, cmd_keys, cmd_monitor}
use valkeydb.Command.Registry.{
  dict_commands, set_commands, list_commands, system_commands, pubsub_commands, hash_commands, init,
}
use valkeydb.Command.Registered.{Holds, register_all-Holds}
use valkeydb.Command.Frame.{
  SameDict, ping-SameDict, sadd-SameDict, srem-SameDict, lpush-SameDict, rpush-SameDict,
  lpop-SameDict, rpop-SameDict, llen-SameDict, lrange-SameDict, bgsave-SameDict, monitor-SameDict,
  subscribe-SameDict, unsubscribe-SameDict, publish-SameDict, hset-SameDict, hget-SameDict,
  hdel-SameDict, hgetall-SameDict, hexists-SameDict, hlen-SameDict, smembers-SameDict,
  sismember-SameDict, scard-SameDict, sexpire-SameDict, sttl-SameDict, sort-SameDict, auth-SameDict,
  info-SameDict, keys-SameDict,
}

-- What is in view at `t` stays.
abbrev pub SameView : Time → Db → Db → Type 0
SameView t db db' = (j : Str) → view t j db'.dict ≡ view t j db.dict

module _ (t : Time) where
  -- A handler that leaves what is in view at `t`.
  abbrev pub Reads : Handler → Type 0
  Reads h = (args : List Value) (db : Db) → After (λ (reply, db'). SameView t db db') (h args db)

  same-After :
      (o : Option (Value × Db)) (db : Db)
      → After (λ (reply, db'). db'.dict ≡ db.dict) o
      → After (λ (reply, db'). SameView t db db') o
  same-After none db h = tt
  same-After (some r) db h = λ j. ap (view t j) h

  SameDict-Reads : (h : Handler) → SameDict h → Reads h
  SameDict-Reads h same args db = same-After (h args db) db (same args db)

  module _ (env : Env) (early : env.clock 0 ≤ℤ t) where
    get-Reads : Reads (cmd_get env)
    unfolding cmd_get
    get-Reads [] db = λ j. refl
    get-Reads (key ∷ more) db = λ j. (lookup_lem (text_of key) (env.clock 0) db.dict).1 t j early

    ttl-Reads : Reads (cmd_ttl env)
    unfolding cmd_ttl
    ttl-Reads [] db = λ j. refl
    ttl-Reads (key ∷ []) db = λ j. (ttl_lem (text_of key) (env.clock 0) db.dict).1 t j early
    ttl-Reads (key ∷ k ∷ more) db = λ j. refl

-- The names of the commands that change the strings.
abbrev pub writers : List Str
writers = codes "SET" ∷ codes "DEL" ∷ codes "EXPIRE" ∷ codes "PEXPIREAT" ∷ []

-- A command with another name leaves what is in view.
abbrev pub Fair : Time → Str → Handler → Type 0
Fair t name h = contains writers name ≡ false → Reads t h

module _ (t : Time) (env : Env) (early : env.clock 0 ≤ℤ t) where
  pub init-Fair : Holds (Fair t) (init env)
  unfolding init dict_commands set_commands list_commands system_commands pubsub_commands
      hash_commands get contains to_upper eq_str
  init-Fair =
      register_all-Holds (Fair t) (hash_commands env) _
        (
          (λ w. SameDict-Reads t (cmd_hset) hset-SameDict),
          (
            (λ w. SameDict-Reads t (cmd_hget) hget-SameDict),
            (
              (λ w. SameDict-Reads t (cmd_hdel) hdel-SameDict),
              (
                (λ w. SameDict-Reads t (cmd_hgetall) hgetall-SameDict),
                (
                  (λ w. SameDict-Reads t (cmd_hexists) hexists-SameDict),
                  ((λ w. SameDict-Reads t (cmd_hlen) hlen-SameDict), tt),
                ),
              ),
            ),
          ),
        )
        (register_all-Holds (Fair t) (pubsub_commands env) _
          (
            (λ w. SameDict-Reads t (cmd_subscribe) subscribe-SameDict),
            (
              (λ w. SameDict-Reads t (cmd_unsubscribe) unsubscribe-SameDict),
              ((λ w. SameDict-Reads t (cmd_publish) publish-SameDict), tt),
            ),
          )
          (register_all-Holds (Fair t) (system_commands env) _
            (
              (λ w. SameDict-Reads t (cmd_auth env) (auth-SameDict env)),
              (
                (λ w. SameDict-Reads t (cmd_info env) (info-SameDict env)),
                (
                  (λ w. SameDict-Reads t (cmd_bgsave) bgsave-SameDict),
                  (
                    (λ w. SameDict-Reads t (cmd_keys env) (keys-SameDict env)),
                    ((λ w. SameDict-Reads t (cmd_monitor) monitor-SameDict), tt),
                  ),
                ),
              ),
            )
            (register_all-Holds (Fair t) (list_commands env) _
              (
                (λ w. SameDict-Reads t (cmd_lpush) lpush-SameDict),
                (
                  (λ w. SameDict-Reads t (cmd_rpush) rpush-SameDict),
                  (
                    (λ w. SameDict-Reads t (cmd_lpop) lpop-SameDict),
                    (
                      (λ w. SameDict-Reads t (cmd_rpop) rpop-SameDict),
                      (
                        (λ w. SameDict-Reads t (cmd_llen) llen-SameDict),
                        (
                          (λ w. SameDict-Reads t (cmd_lrange) lrange-SameDict),
                          ((λ w. SameDict-Reads t (cmd_sort env) (sort-SameDict env)), tt),
                        ),
                      ),
                    ),
                  ),
                ),
              )
              (register_all-Holds (Fair t) (set_commands env) _
                (
                  (λ w. SameDict-Reads t (cmd_sadd) sadd-SameDict),
                  (
                    (λ w. SameDict-Reads t (cmd_srem) srem-SameDict),
                    (
                      (λ w. SameDict-Reads t (cmd_smembers env) (smembers-SameDict env)),
                      (
                        (λ w. SameDict-Reads t (cmd_sismember env) (sismember-SameDict env)),
                        (
                          (λ w. SameDict-Reads t (cmd_scard env) (scard-SameDict env)),
                          (
                            (λ w. SameDict-Reads t (cmd_sexpire env) (sexpire-SameDict env)),
                            ((λ w. SameDict-Reads t (cmd_sttl env) (sttl-SameDict env)), tt),
                          ),
                        ),
                      ),
                    ),
                  ),
                )
                (register_all-Holds (Fair t) (dict_commands env) []
                  (
                    (λ w. absurd (ground (arith, w))),
                    (
                      (λ w. get-Reads t env early),
                      (
                        (λ w. absurd (ground (arith, w))),
                        (
                          (λ w. absurd (ground (arith, w))),
                          (
                            (λ w. ttl-Reads t env early),
                            (
                              (λ w. SameDict-Reads t (cmd_ping) ping-SameDict),
                              ((λ w. absurd (ground (arith, w))), tt),
                            ),
                          ),
                        ),
                      ),
                    ),
                  )
                  (λ name h e. absurd (ground (arith, e))))))))
