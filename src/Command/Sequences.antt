-- ===== src/Command/Sequences.antt =====
-- internal/command/list_command.go: the handlers of the lists.
use valkeydb.Base.{
  Bool, true, false, Option, none, some, List, [], ◌∷◌, Str, codes, eq_str, to_upper, ltb,
  if◌then◌else◌, ◌>>=◌,
}
use valkeydb.Base.Int.{ℤ, pos}
use valkeydb.Decimal.{parse_int}
use valkeydb.Item.{Item}
use valkeydb.ListStore
use valkeydb.ListStore.{Lists, lpush, rpush, lpop, rpop, llen, lrange}
use valkeydb.Resp.{
  Value, simple, error_value, number, array_value, nil_array, text_of, bulk, cons, of_list,
}
use valkeydb.Aof.{bulks, values_of, entry}
use valkeydb.Command.{Db, Env, Handler, log, log_if, texts, wrong_number, not_integer}

unfoldable pub cmd_lpush : Handler
cmd_lpush (key ∷ v ∷ args) db = do
  let values = texts (v ∷ args)
  pushed ← lpush (text_of key) values db.list
  let stored = record db { list = pushed.1 }
  some (
    number (pos pushed.0),
    log_if (ltb 0 pushed.0) (entry (codes "LPUSH" ∷ text_of key ∷ values)) stored,
  )
cmd_lpush _ db = some (wrong_number (codes "lpush"), db)

unfoldable pub cmd_rpush : Handler
cmd_rpush (key ∷ v ∷ args) db = do
  let values = texts (v ∷ args)
  pushed ← rpush (text_of key) values db.list
  let stored = record db { list = pushed.1 }
  some (
    number (pos pushed.0),
    log_if (ltb 0 pushed.0) (entry (codes "RPUSH" ∷ text_of key ∷ values)) stored,
  )
cmd_rpush _ db = some (wrong_number (codes "rpush"), db)

-- The count of a pop: one, or the second argument.
unfoldable pub pop_count : List Value → Option ℤ
pop_count [] = some (pos 1)
pop_count (a ∷ _) = parse_int (text_of a)

unfoldable pub pop_reply :
    (Str → ℤ → Lists → Option (List Item × Lists)) → Str → List Value → Db → Option (Value × Db)
pop_reply pop key args db = elim (pop_count args) [
  | none ↦ some (not_integer, db)
  | some count ↦ do
    popped ← pop key count db.list
    some (array_value (bulks (values_of popped.0)), record db { list = popped.1 })
]

unfoldable pub cmd_lpop : Handler
cmd_lpop [] db = some (wrong_number (codes "lpop"), db)
cmd_lpop (key ∷ []) db = pop_reply lpop (text_of key) [] db
cmd_lpop (key ∷ count ∷ []) db = pop_reply lpop (text_of key) (count ∷ []) db
cmd_lpop (_ ∷ _ ∷ _ ∷ _) db = some (wrong_number (codes "lpop"), db)

unfoldable pub cmd_rpop : Handler
cmd_rpop [] db = some (wrong_number (codes "rpop"), db)
cmd_rpop (key ∷ []) db = pop_reply rpop (text_of key) [] db
cmd_rpop (key ∷ count ∷ []) db = pop_reply rpop (text_of key) (count ∷ []) db
cmd_rpop (_ ∷ _ ∷ _ ∷ _) db = some (wrong_number (codes "rpop"), db)

unfoldable pub cmd_llen : Handler
cmd_llen (key ∷ []) db = some (number (pos (llen (text_of key) db.list)), db)
cmd_llen _ db = some (wrong_number (codes "llen"), db)

unfoldable pub cmd_lrange : Handler
cmd_lrange (key ∷ first ∷ last ∷ []) db = elim (parse_int (text_of first)) [
  | none ↦ some (not_integer, db)
  | some start ↦ elim (parse_int (text_of last)) [
    | none ↦ some (not_integer, db)
    | some stop ↦ do
      members ← lrange (text_of key) start stop db.list
      some (if members.1 then array_value (bulks (values_of members.0)) else nil_array, db)
  ]
]
cmd_lrange _ db = some (wrong_number (codes "lrange"), db)

-- The loop over the options: `asc` and `alpha`, or `none` for a syntax error.
unfoldable pub sort_options : List Str → Bool × Bool → Option (Bool × Bool)
sort_options [] flags = some flags
sort_options (o ∷ rest) (asc, alpha) =
    let up = sort_options rest (true, alpha) in
    let down = sort_options rest (false, alpha) in
    let by_text = sort_options rest (asc, true) in
    if eq_str (to_upper o) (codes "ASC")
    then up
    else if eq_str (to_upper o) (codes "DESC")
    then down
    else if eq_str (to_upper o) (codes "ALPHA")
    then by_text
    else none

module _ (env : Env) where
  unfoldable pub cmd_sort : Handler
  cmd_sort [] db = some (wrong_number (codes "sort"), db)
  cmd_sort (key ∷ args) db = elim (sort_options (texts args) (true, false)) [
    | none ↦ some (error_value (codes "ERR syntax error"), db)
    | some (asc, alpha) ↦ do
      l ← ListStore.sort env.floats env.sort_slice (text_of key) asc alpha db.list
      some (
        simple (codes "OK"),
        log (array_value (cons (bulk (codes "SORT")) (cons (bulk (text_of key)) (of_list args))))
            (record db { list = l }),
      )
  ]
