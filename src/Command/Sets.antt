-- ===== src/Command/Sets.antt =====
-- internal/command/set_command.go: the handlers of the sets.
use valkeydb.Base.{none, some, [], ◌∷◌, codes, ltb, if◌then◌else◌}
use valkeydb.Base.Int.{pos, ◌+ℤ◌}
use valkeydb.Clock.{seconds}
use valkeydb.Decimal.{parse_int}
use valkeydb.SetStore
use valkeydb.SetStore.{sadd, srem, smembers, sismember, scard}
use valkeydb.Resp.{number, nil_array, array_value, text_of}
use valkeydb.Aof.{bulks, entry, pexpireat}
use valkeydb.Command.{Env, Handler, log, log_if, texts, wrong_number, not_integer, one_if}

unfoldable pub cmd_sadd : Handler
cmd_sadd (key ∷ m ∷ args) db =
    let members = texts (m ∷ args) in
    let (n, s) = sadd (text_of key) members db.set in
    let stored = record db { set = s } in
    some (number (pos n), log_if (ltb 0 n) (entry (codes "SADD" ∷ text_of key ∷ members)) stored)
cmd_sadd _ db = some (wrong_number (codes "sadd"), db)

unfoldable pub cmd_srem : Handler
cmd_srem (key ∷ m ∷ args) db =
    let members = texts (m ∷ args) in
    let (n, s) = srem (text_of key) members db.set in
    let stored = record db { set = s } in
    some (number (pos n), log_if (ltb 0 n) (entry (codes "SREM" ∷ text_of key ∷ members)) stored)
cmd_srem _ db = some (wrong_number (codes "srem"), db)

module _ (env : Env) where
  unfoldable pub cmd_smembers : Handler
  cmd_smembers (key ∷ []) db =
      let (members, s) = smembers (text_of key) (env.clock 0) db.set in
      some (
        elim members [ none ↦ nil_array | some ms ↦ array_value (bulks ms) ],
        record db { set = s },
      )
  cmd_smembers _ db = some (wrong_number (codes "smembers"), db)

  unfoldable pub cmd_sismember : Handler
  cmd_sismember (key ∷ member ∷ []) db =
      let (found, s) = sismember (text_of key) (text_of member) (env.clock 0) db.set in
      some (one_if found, record db { set = s })
  cmd_sismember _ db = some (wrong_number (codes "sismember"), db)

  unfoldable pub cmd_scard : Handler
  cmd_scard (key ∷ []) db =
      let (n, s) = scard (text_of key) (env.clock 0) db.set in
      some (number (pos n), record db { set = s })
  cmd_scard _ db = some (wrong_number (codes "scard"), db)

  unfoldable pub cmd_sexpire : Handler
  cmd_sexpire (key ∷ time ∷ []) db = elim (parse_int (text_of time)) [
    | none ↦ some (not_integer, db)
    | some n ↦
        let (found, s) = SetStore.expire (text_of key) (seconds n) (env.clock 0) db.set in
        if found
        then some (
          number (pos 1),
          log (pexpireat (text_of key) (env.clock 1 +ℤ seconds n)) (record db { set = s }),
        )
        else some (number (pos 0), record db { set = s })
  ]
  cmd_sexpire _ db = some (wrong_number (codes "sexpire"), db)

  unfoldable pub cmd_sttl : Handler
  cmd_sttl (key ∷ []) db =
      let (remaining, s) = SetStore.ttl (text_of key) (env.clock 0) db.set in
      some (number remaining, record db { set = s })
  cmd_sttl _ db = some (wrong_number (codes "sttl"), db)
