-- ===== src/Command/Hashes.antt =====
-- internal/command/hash_command.go: the handlers of the hashes.
use valkeydb.Base.{
  ◌%◌, ◌||◌, Option, none, some, List, [], ◌∷◌, Str, codes, ltb, ◌==◌, length, if◌then◌else◌,
}
use valkeydb.Base.Int.{pos}
use valkeydb.Base.Map.{Map}
use valkeydb.HashStore.{hset, hget, hdel, hgetall, hexists, hlen}
use valkeydb.Resp.{Value, number, bulk, nil_bulk, array_value, nil, text_of}
use valkeydb.Aof.{bulks, entry}
use valkeydb.Command.{Db, Handler, log_if, texts, wrong_number, one_if}

-- The guard has passed: `key` and the fields with their values.
unfoldable pub put_fields : Value → List Value → Db → Option (Value × Db)
put_fields key args db =
    let (n, h) = hset (text_of key) (texts args) db.hash in
    let stored = record db { hash = h } in
    some (number (pos n), log_if (ltb 0 n) (entry (codes "HSET" ∷ text_of key ∷ texts args)) stored)

unfoldable pub cmd_hset : Handler
cmd_hset [] db = some (wrong_number (codes "hset"), db)
cmd_hset (key ∷ args) db =
    if ltb (length (key ∷ args)) 3 || length (key ∷ args) % 2 == 0
    then some (wrong_number (codes "hset"), db)
    else put_fields key args db

unfoldable pub cmd_hget : Handler
cmd_hget (key ∷ field ∷ []) db =
    some
      (elim (hget (text_of key) (text_of field) db.hash) [ none ↦ nil_bulk | some v ↦ bulk v ], db)
cmd_hget _ db = some (wrong_number (codes "hget"), db)

unfoldable pub cmd_hdel : Handler
cmd_hdel (key ∷ f ∷ args) db =
    let fields = texts (f ∷ args) in
    let (n, h) = hdel (text_of key) fields db.hash in
    let stored = record db { hash = h } in
    some (number (pos n), log_if (ltb 0 n) (entry (codes "HDEL" ∷ text_of key ∷ fields)) stored)
cmd_hdel _ db = some (wrong_number (codes "hdel"), db)

-- Each field and its value.
unfoldable pub pair_texts : Map Str → List Str
pair_texts [] = []
pair_texts ((field, value) ∷ hash) = field ∷ value ∷ pair_texts hash

unfoldable pub cmd_hgetall : Handler
cmd_hgetall (key ∷ []) db = elim (hgetall (text_of key) db.hash) [
  | none ↦ some (array_value nil, db)
  | some hash ↦ some (array_value (bulks (pair_texts hash)), db)
]
cmd_hgetall _ db = some (wrong_number (codes "hgetall"), db)

unfoldable pub cmd_hexists : Handler
cmd_hexists (key ∷ field ∷ []) db =
    some (one_if (hexists (text_of key) (text_of field) db.hash), db)
cmd_hexists _ db = some (wrong_number (codes "hexists"), db)

unfoldable pub cmd_hlen : Handler
cmd_hlen (key ∷ []) db = some (number (pos (hlen (text_of key) db.hash)), db)
cmd_hlen _ db = some (wrong_number (codes "hlen"), db)
