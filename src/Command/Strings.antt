-- ===== src/Command/Strings.antt =====
-- internal/command/dict_command.go: the handlers of the dictionary.
use valkeydb.Base.{none, some, List, [], ◌∷◌, codes, if◌then◌else◌}
use valkeydb.Base.Int.{pos, ltb_ℤ, ◌+ℤ◌}
use valkeydb.Clock.{Duration, seconds, unix_milli}
use valkeydb.Decimal.{parse_int}
use valkeydb.Dict
use valkeydb.Dict.{lookup, delete_all}
use valkeydb.Resp.{Value, simple, error_value, number, bulk, nil_bulk, text_of}
use valkeydb.Aof.{entry, pexpireat}
use valkeydb.Command.{Env, Handler, log, texts, wrong_number, not_integer}

-- The time to live of `SET`: the third argument, where it is a positive number.
unfoldable pub set_ttl : List Value → Duration
set_ttl [] = pos 0
set_ttl (a ∷ rest) = elim (parse_int (text_of a)) [
  | none ↦ pos 0
  | some n ↦ if ltb_ℤ (pos 0) n then seconds n else pos 0
]

unfoldable pub cmd_del : Handler
cmd_del [] db = some (wrong_number (codes "del"), db)
cmd_del (a ∷ args) db =
    let (n, d) = delete_all (texts (a ∷ args)) db.dict in
    some (number (pos n), log (entry (codes "DEL" ∷ texts (a ∷ args))) (record db { dict = d }))

unfoldable pub cmd_ping : Handler
cmd_ping [] db = some (simple (codes "PONG"), db)
cmd_ping (a ∷ _) db = some (bulk (text_of a), db)

module _ (env : Env) where
  unfoldable pub cmd_set : Handler
  cmd_set (key ∷ val ∷ rest) db =
      let ttl = set_ttl rest in
      let stored =
        log (entry (codes "SET" ∷ text_of key ∷ text_of val ∷ []))
          (record db { dict = Dict.set (text_of key) (text_of val) ttl (env.clock 0) db.dict }) in
      some (
        simple (codes "OK"),
        if ltb_ℤ (pos 0) ttl
            then log (pexpireat (text_of key) (env.clock 1 +ℤ ttl)) stored
            else stored,
      )
  cmd_set _ db = some (wrong_number (codes "set"), db)

  unfoldable pub cmd_get : Handler
  cmd_get [] db = some (wrong_number (codes "get"), db)
  cmd_get (key ∷ _) db =
      let (val, d) = lookup (text_of key) (env.clock 0) db.dict in
      some (elim val [ none ↦ nil_bulk | some text ↦ bulk text ], record db { dict = d })

  unfoldable pub cmd_expire : Handler
  cmd_expire (key ∷ time ∷ []) db = elim (parse_int (text_of time)) [
    | none ↦ some (not_integer, db)
    | some n ↦
        let (found, d) = Dict.expire (text_of key) (seconds n) (env.clock 0) db.dict in
        if found
        then some (
          number (pos 1),
          log (pexpireat (text_of key) (env.clock 1 +ℤ seconds n)) (record db { dict = d }),
        )
        else some (number (pos 0), record db { dict = d })
  ]
  cmd_expire _ db = some (wrong_number (codes "expire"), db)

  unfoldable pub cmd_pexpireat : Handler
  cmd_pexpireat (key ∷ time ∷ []) db = elim (parse_int (text_of time)) [
    | none ↦ some (error_value (codes "ERR invalid expire time"), db)
    | some ms ↦
        let (found, d) = Dict.expire_at (text_of key) (unix_milli ms) (env.clock 0) db.dict in
        some (if found then number (pos 1) else number (pos 0), record db { dict = d })
  ]
  cmd_pexpireat _ db = some (wrong_number (codes "pexpireat"), db)

  unfoldable pub cmd_ttl : Handler
  cmd_ttl (key ∷ []) db =
      let (remaining, d) = Dict.ttl (text_of key) (env.clock 0) db.dict in
      some (number remaining, record db { dict = d })
  cmd_ttl _ db = some (wrong_number (codes "ttl"), db)
