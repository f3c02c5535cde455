-- ===== src/Command/Logged.antt =====
-- The entries that commands append, replayed.
use valkeydb.Base.{
  ℕ, ◌≡◌, refl, ◌∙◌, ap, ◌⊎◌, inl, inr, true, Option, some, List, [], ◌∷◌, ◌++◌, arith, Str, length,
  ltb, ◌||◌, ◌%◌, ◌==◌, After, Bool-cases, Option-cases,
}
use valkeydb.Base.Int.{pos}
use valkeydb.ListStore
use valkeydb.HashStore
use valkeydb.SetStore
use valkeydb.Resp.{Value, number, error_value, encode, text_of}
use valkeydb.Aof.{Aof, entry, load_value}
use valkeydb.Aof.Load.{IsOpen, append-eq}
use valkeydb.Command.{Db, Env, append_if, log, log_if, texts, set_replaying}
use valkeydb.Command.Strings.{cmd_del}
use valkeydb.Command.Sets.{cmd_sadd, cmd_srem}
use valkeydb.Command.Sequences.{cmd_lpush, cmd_rpush}
use valkeydb.Command.Hashes.{cmd_hset, put_fields, cmd_hdel}
use valkeydb.Command.Registry.{replay}
use valkeydb.Command.Replay.{
  Write, del, sadd, srem, lpush, rpush, hset, hdel, name_of, handler_of, with_file, stores_left,
  load_value-write,
}

-- Nothing was appended, and the reply is 0, or an error and nothing was changed.
abbrev pub Unlogged : Db → Value × Db → Type 0
Unlogged db (reply, db') =
    (db'.aof ≡ db.aof)
    × ((reply ≡ number (pos 0)) ⊎ ((text : Str) × (reply ≡ error_value text) × (db' ≡ db)))

-- Nothing was appended, or `v`.
abbrev Logs : Value → Db → Value × Db → Type 0
Logs v db (reply, db') = Unlogged db (reply, db') ⊎ (db'.aof ≡ append_if v db.aof)

refused : (v : Value) (text : Str) (db : Db) → Logs v db (error_value text, db)
refused v text db = inl (refl, inr (text, refl, refl))

-- An entry under `n > 0`, beside the reply `n`.
counted :
    (n : ℕ) (v : Value) (db stored : Db)
    → stored.aof ≡ db.aof
    → Logs v db (number (pos n), log_if (ltb 0 n) v stored)
unfolding log_if
counted n v db stored e = elim (Bool-cases (ltb 0 n)) [
  | inl more ↦ inr (rw (more, e) refl)
  | inr zero_left ↦
      let z : n ≡ 0 = ground (arith, zero_left) in
      inl (rw zero_left e, inl (ap (λ k. number (pos k)) z))
]

del-Logs :
    (args : List Value) (db : Db)
    → After (Logs (entry (name_of del ∷ texts args)) db) (cmd_del args db)
unfolding cmd_del log
del-Logs [] db = refused _ _ db
del-Logs (a ∷ args) db = inr refl

sadd-Logs :
    (args : List Value) (db : Db)
    → After (Logs (entry (name_of sadd ∷ texts args)) db) (cmd_sadd args db)
unfolding cmd_sadd texts
sadd-Logs [] db = refused _ _ db
sadd-Logs (key ∷ []) db = refused _ _ db
sadd-Logs (key ∷ m ∷ args) db =
    let (n, s) = SetStore.sadd (text_of key) (texts (m ∷ args)) db.set in
    counted n _ db (record db { set = s }) refl

srem-Logs :
    (args : List Value) (db : Db)
    → After (Logs (entry (name_of srem ∷ texts args)) db) (cmd_srem args db)
unfolding cmd_srem texts
srem-Logs [] db = refused _ _ db
srem-Logs (key ∷ []) db = refused _ _ db
srem-Logs (key ∷ m ∷ args) db =
    let (n, s) = SetStore.srem (text_of key) (texts (m ∷ args)) db.set in
    counted n _ db (record db { set = s }) refl

hdel-Logs :
    (args : List Value) (db : Db)
    → After (Logs (entry (name_of hdel ∷ texts args)) db) (cmd_hdel args db)
unfolding cmd_hdel texts
hdel-Logs [] db = refused _ _ db
hdel-Logs (key ∷ []) db = refused _ _ db
hdel-Logs (key ∷ f ∷ args) db =
    let (n, h) = HashStore.hdel (text_of key) (texts (f ∷ args)) db.hash in
    counted n _ db (record db { hash = h }) refl

hset-Logs :
    (args : List Value) (db : Db)
    → After (Logs (entry (name_of hset ∷ texts args)) db) (cmd_hset args db)
unfolding cmd_hset texts put_fields
hset-Logs [] db = refused _ _ db
hset-Logs (key ∷ args) db =
    elim (Bool-cases (ltb (length (key ∷ args)) 3 || length (key ∷ args) % 2 == 0)) [
      | inl bad ↦ rw bad (refused _ _ db)
      | inr fine ↦
          let (n, h) = HashStore.hset (text_of key) (texts args) db.hash in
          rw fine (counted n _ db (record db { hash = h }) refl)
    ]

lpush-Logs :
    (args : List Value) (db : Db)
    → After (Logs (entry (name_of lpush ∷ texts args)) db) (cmd_lpush args db)
unfolding cmd_lpush texts
lpush-Logs [] db = refused _ _ db
lpush-Logs (key ∷ []) db = refused _ _ db
lpush-Logs (key ∷ v ∷ args) db =
    elim (Option-cases (ListStore.lpush (text_of key) (texts (v ∷ args)) db.list)) [
      | inl e ↦ rw (e, cmd_lpush) tt
      | inr (pushed, e) ↦
          rw (e, cmd_lpush) (counted pushed.0 _ db (record db { list = pushed.1 }) refl)
    ]

rpush-Logs :
    (args : List Value) (db : Db)
    → After (Logs (entry (name_of rpush ∷ texts args)) db) (cmd_rpush args db)
unfolding cmd_rpush texts
rpush-Logs [] db = refused _ _ db
rpush-Logs (key ∷ []) db = refused _ _ db
rpush-Logs (key ∷ v ∷ args) db =
    elim (Option-cases (ListStore.rpush (text_of key) (texts (v ∷ args)) db.list)) [
      | inl e ↦ rw (e, cmd_rpush) tt
      | inr (pushed, e) ↦
          rw (e, cmd_rpush) (counted pushed.0 _ db (record db { list = pushed.1 }) refl)
    ]

write-Logs :
    (w : Write) (args : List Value) (db : Db)
    → After (Logs (entry (name_of w ∷ texts args)) db) (handler_of w args db)
write-Logs del args db = del-Logs args db
write-Logs sadd args db = sadd-Logs args db
write-Logs srem args db = srem-Logs args db
write-Logs lpush args db = lpush-Logs args db
write-Logs rpush args db = rpush-Logs args db
write-Logs hset args db = hset-Logs args db
write-Logs hdel args db = hdel-Logs args db

appended :
    (v : Value) (o : Option Aof) (a : Aof)
    → o ≡ some a
    → IsOpen a
    → append_if v o ≡ some (record a { file = a.file ++ encode v })
unfolding append_if
appended v o a e open_file = rw (e, append_if) (ap some (append-eq v a open_file))

module _ (env : Env) where
  -- For DEL, SADD, SREM, LPUSH, RPUSH, HSET and HDEL, where the log is enabled, not being loaded and
  -- not rewritten yet, and the command does not panic: it appends nothing and answers 0, or an error
  -- with nothing changed; or it appends the encoding of one value to the file, and that value, replayed
  -- on the stores before the command, gives the stores that the command left.
  pub replay-logged :
      (w : Write) (args : List Value) (db db' : Db) (reply : Value) (a : Aof)
      → db.aof ≡ some a
      → IsOpen a
      → handler_of w args db ≡ some (reply, db')
      → Unlogged db (reply, db')
        ⊎ ((v : Value) × (db'.aof ≡ some (record a { file = a.file ++ encode v }))
            × (with_file (some a) (load_value (replay env) v (set_replaying true db))
                ≡ some (record db' { aof = some a })))
  replay-logged w args db db' reply a e open_file h = elim (rw h at (write-Logs w args db)) [
    | inl quiet ↦ inl quiet
    | inr one ↦
        let v = entry (name_of w ∷ texts args) in
        inr (
          v,
          one ∙ appended v db.aof a e open_file,
          load_value-write env w args db (some a) ∙ ap (stores_left (some a)) h,
        )
  ]
