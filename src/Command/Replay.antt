-- ===== src/Command/Replay.antt =====
-- Commands that change a store, replayed from the log.
use valkeydb.Base.{
  suc, eq_str, to_upper, ◌≡◌, refl, ◌∙◌, ap, sym, true, ◌||◌, Option, none, some, List, [], ◌∷◌,
  Str, codes, ltb, length, ◌%◌, ◌==◌, Option-cases, inl, inr, Bool-cases,
}
use valkeydb.Base.Map.{get, put}
use valkeydb.Resp.{Value, to_list, bulk, text_of}
use valkeydb.ListStore
use valkeydb.Aof.{Aof, bulks, entry, load_value, is_array, is_text}
use valkeydb.Command.{Db, Env, Handler, log, log_if, texts, set_replaying, replaying_if}
use valkeydb.Command.Strings.{cmd_del}
use valkeydb.Command.Sets.{cmd_sadd, cmd_srem}
use valkeydb.Command.Sequences.{cmd_lpush, cmd_rpush}
use valkeydb.Command.Hashes.{cmd_hset, put_fields, cmd_hdel}
use valkeydb.Command.Registry.{
  init, find, register, register_all, dict_commands, set_commands, list_commands, system_commands,
  pubsub_commands, hash_commands, replay,
}

-- The commands that change a store and are logged with their arguments.
pub data Write : Type 0 where
  del sadd srem lpush rpush hset hdel : Write

abbrev pub name_of : Write → Str
name_of del = codes "DEL"
name_of sadd = codes "SADD"
name_of srem = codes "SREM"
name_of lpush = codes "LPUSH"
name_of rpush = codes "RPUSH"
name_of hset = codes "HSET"
name_of hdel = codes "HDEL"

abbrev pub handler_of : Write → Handler
handler_of del = cmd_del
handler_of sadd = cmd_sadd
handler_of srem = cmd_srem
handler_of lpush = cmd_lpush
handler_of rpush = cmd_rpush
handler_of hset = cmd_hset
handler_of hdel = cmd_hdel

-- The stores that a handler left, beside the file `a`.
abbrev pub stores_left : Option Aof → Option (Value × Db) → Option Db
stores_left a none = none
stores_left a (some (reply, db)) = some (record db { aof = a })

abbrev pub with_file : Option Aof → Option Db → Option Db
with_file a none = none
with_file a (some db) = some (record db { aof = a })

pub texts-bulks : (ts : List Str) → texts (to_list (bulks ts)) ≡ ts
unfolding texts to_list bulks
texts-bulks [] = refl
texts-bulks (t ∷ ts) = ap (λ r. t ∷ r) (texts-bulks ts)

length-bulks : (args : List Value) → length (to_list (bulks (texts args))) ≡ length args
unfolding texts to_list bulks
length-bulks [] = refl
length-bulks (a ∷ args) = ap suc (length-bulks args)

-- What a handler leaves when it runs again, on the texts of its arguments and another file.
abbrev again : Handler → List Value → Option Aof → Db → Option Db
again h args a db = stores_left a (h (to_list (bulks (texts args))) (record db { aof = a }))

module _ (a : Option Aof) where
  again-del :
      (args : List Value) (db : Db) → again cmd_del args a db ≡ stores_left a (cmd_del args db)
  unfolding cmd_del texts bulks to_list log
  again-del [] db = refl
  again-del (x ∷ args) db = rw (texts-bulks (texts args)) refl

  again-sadd :
      (args : List Value) (db : Db) → again cmd_sadd args a db ≡ stores_left a (cmd_sadd args db)
  unfolding cmd_sadd texts bulks to_list log_if
  again-sadd [] db = refl
  again-sadd (key ∷ []) db = refl
  again-sadd (key ∷ x ∷ args) db = rw (texts-bulks (texts args)) refl

  again-srem :
      (args : List Value) (db : Db) → again cmd_srem args a db ≡ stores_left a (cmd_srem args db)
  unfolding cmd_srem texts bulks to_list log_if
  again-srem [] db = refl
  again-srem (key ∷ []) db = refl
  again-srem (key ∷ x ∷ args) db = rw (texts-bulks (texts args)) refl

  again-hdel :
      (args : List Value) (db : Db) → again cmd_hdel args a db ≡ stores_left a (cmd_hdel args db)
  unfolding cmd_hdel texts bulks to_list log_if
  again-hdel [] db = refl
  again-hdel (key ∷ []) db = refl
  again-hdel (key ∷ x ∷ args) db = rw (texts-bulks (texts args)) refl

  again-lpush :
      (args : List Value) (db : Db) → again cmd_lpush args a db ≡ stores_left a (cmd_lpush args db)
  unfolding cmd_lpush texts bulks to_list log_if
  again-lpush [] db = refl
  again-lpush (key ∷ []) db = refl
  again-lpush (key ∷ x ∷ args) db =
      elim (Option-cases (ListStore.lpush (text_of key) (texts (x ∷ args)) db.list)) [
        | inl e ↦ rw (texts-bulks (texts args), e) refl
        | inr (pushed, e) ↦ rw (texts-bulks (texts args), e) refl
      ]

  again-rpush :
      (args : List Value) (db : Db) → again cmd_rpush args a db ≡ stores_left a (cmd_rpush args db)
  unfolding cmd_rpush texts bulks to_list log_if
  again-rpush [] db = refl
  again-rpush (key ∷ []) db = refl
  again-rpush (key ∷ x ∷ args) db =
      elim (Option-cases (ListStore.rpush (text_of key) (texts (x ∷ args)) db.list)) [
        | inl e ↦ rw (texts-bulks (texts args), e) refl
        | inr (pushed, e) ↦ rw (texts-bulks (texts args), e) refl
      ]

  again-put_fields :
      (key : Value) (args : List Value) (db : Db)
      → stores_left a
          (put_fields (bulk (text_of key)) (to_list (bulks (texts args))) (record db { aof = a }))
        ≡ stores_left a (put_fields key args db)
  unfolding put_fields log_if
  again-put_fields key args db = rw (texts-bulks (texts args)) refl

  again-hset :
      (args : List Value) (db : Db) → again cmd_hset args a db ≡ stores_left a (cmd_hset args db)
  unfolding cmd_hset texts bulks to_list
  again-hset [] db = refl
  again-hset (key ∷ args) db =
      elim (Bool-cases (ltb (length (key ∷ args)) 3 || length (key ∷ args) % 2 == 0)) [
        | inl e ↦ rw (length-bulks args, e) refl
        | inr e ↦ rw (length-bulks args, e) (again-put_fields key args db)
      ]

  again-write :
      (w : Write) (args : List Value) (db : Db)
      → again (handler_of w) args a db ≡ stores_left a (handler_of w args db)
  again-write del args db = again-del args db
  again-write sadd args db = again-sadd args db
  again-write srem args db = again-srem args db
  again-write lpush args db = again-lpush args db
  again-write rpush args db = again-rpush args db
  again-write hset args db = again-hset args db
  again-write hdel args db = again-hdel args db

module _ (env : Env) where
  find-write : (w : Write) → find (name_of w) (init env) ≡ some (handler_of w)
  unfolding find init register register_all dict_commands set_commands list_commands system_commands
      pubsub_commands hash_commands get put to_upper eq_str
  find-write del = refl
  find-write sadd = refl
  find-write srem = refl
  find-write lpush = refl
  find-write rpush = refl
  find-write hset = refl
  find-write hdel = refl

  replay-found :
      (name : Str) (args : List Value) (h : Handler) (a : Option Aof) (db : Db)
      → find name (init env) ≡ some h
      → with_file a (replay env name args db) ≡ stores_left a (h args db)
  unfolding replay
  replay-found name args h a db f = elim (Option-cases (h args db)) [
    | inl e ↦ rw (f, e, replay) refl
    | inr (r, e) ↦ rw (f, e, replay) refl
  ]

  with_file-stores_left :
      (a b : Option Aof) (o : Option (Value × Db)) → with_file b (stores_left a o) ≡ stores_left b o
  with_file-stores_left a b none = refl
  with_file-stores_left a b (some (reply, db)) = refl

  load_value-entry :
      (name : Str) (ts : List Str) (db : Db)
      → load_value (replay env) (entry (name ∷ ts)) db ≡ replay env name (to_list (bulks ts)) db
  unfolding load_value bulks to_list is_array is_text
  load_value-entry name ts db = refl

  -- For DEL, SADD, SREM, LPUSH, RPUSH, HSET and HDEL: the entry of the command's name and the
  -- texts of its arguments, replayed on the stores before the command, gives the stores that the
  -- command left, and panics where the command does.
  pub load_value-write :
      (w : Write) (args : List Value) (db : Db) (a : Option Aof)
      → with_file a
          (load_value (replay env) (entry (name_of w ∷ texts args)) (set_replaying true db))
        ≡ stores_left a (handler_of w args db)
  unfolding set_replaying
  load_value-write w args db a =
      let file = replaying_if true db.aof in
      ap (with_file a) (load_value-entry (name_of w) (texts args) (set_replaying true db))
      ∙ replay-found (name_of w) (to_list (bulks (texts args))) (handler_of w) a
          (set_replaying true db) (find-write w)
      ∙ sym (
          with_file-stores_left file a
            (handler_of w (to_list (bulks (texts args))) (set_replaying true db)))
      ∙ ap (with_file a) (again-write file w args db)
      ∙ with_file-stores_left file a (handler_of w args db)
