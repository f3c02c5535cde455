-- ===== src/Command/Unlogged.antt =====
-- Changes that do not reach the log, or that it gives to another store.
use valkeydb.Base.{
  ◌≡◌, refl, ◌∙◌, true, Option, none, some, List, [], ◌∷◌, Str, codes, eq_str, eq_str_refl,
  to_upper, Option-cases, inl, inr,
}
use valkeydb.Base.Int.{ℤ, pos, IsInt64, ◌+ℤ◌}
use valkeydb.Base.Map.{get, put, has}
use valkeydb.HashStore
use valkeydb.HashStore.Fields.{assigned, hset_lem}
use valkeydb.ListStore
use valkeydb.ListStore.{lpop, rpop}
use valkeydb.Item.{Item}
use valkeydb.HashStore.{fields_of, hset, hget}
use valkeydb.Resp.{Value, number, text_of, to_list}
use valkeydb.Command.{Db, Env, log, log_if, texts}
use valkeydb.Command.Hashes.{cmd_hset, put_fields}
use valkeydb.Command.Sequences.{cmd_lpop, cmd_rpop, pop_reply, pop_count}
use valkeydb.Command.Strings.{cmd_pexpireat}
use valkeydb.Command.Registry.{
  init, find, replay, register, register_all, dict_commands, set_commands, list_commands,
  system_commands, pubsub_commands, hash_commands,
}
use valkeydb.Command.Sets.{cmd_sexpire}
use valkeydb.SetStore
use valkeydb.SetStore.{Set}
use valkeydb.Dict.{expire_at}
use valkeydb.Dict.Expiry.{expire_lem}
use valkeydb.Decimal.{parse_int}
use valkeydb.Decimal.RoundTrip.{parse_int-format_int}
use valkeydb.Aof.{load_value, pexpireat, is_array, is_text, bulks}
use valkeydb.Clock.{Time, seconds, unix_milli, to_unix_milli}

-- What a handler left of the log.
abbrev pub LogLeft : Option (Value × Db) → Db → Type 0
LogLeft none db = Unit
LogLeft (some (reply, db')) db = db'.aof ≡ db.aof

-- HSET on a field that the hash has stores the new value, answers 0, and logs nothing.
pub cmd_hset-overwrite :
    (key field val : Value) (db : Db)
    → has (text_of field) (fields_of (get (text_of key) db.hash)) ≡ true
    → (db' : Db) × (cmd_hset (key ∷ field ∷ val ∷ []) db ≡ some (number (pos 0), db'))
      × (hget (text_of key) (text_of field) db'.hash ≡ some (text_of val))
      × (db'.aof ≡ db.aof)
unfolding cmd_hset put_fields log_if texts hset HashStore.is_even HashStore.put_pairs assigned
cmd_hset-overwrite key field val db h = (
  record db { hash = (hset (text_of key) (texts (field ∷ val ∷ [])) db.hash).1 },
  rw h refl,
  (hset_lem (text_of key) (texts (field ∷ val ∷ [])) db.hash (text_of key) (text_of field) refl).0
      ∙ rw (eq_str_refl (text_of key), assigned, eq_str_refl (text_of field)) refl,
  refl,
)

pops-log :
    (pop : Str → ℤ → ListStore.Lists → Option (List Item × ListStore.Lists)) (key : Str)
    (args : List Value) (db : Db)
    → LogLeft (pop_reply pop key args db) db
unfolding pop_reply
pops-log pop key args db = elim (Option-cases (pop_count args)) [
  | inl e ↦ rw (e, pop_reply) refl
  | inr (count, e) ↦ elim (Option-cases (pop key count db.list)) [
    | inl e' ↦ rw (e, e', pop_reply) tt
    | inr (popped, e') ↦ rw (e, e', pop_reply) refl
  ]
]

-- LPOP and RPOP never touch the log, whatever they take.
pub pops-unlogged :
    (args : List Value) (db : Db) → LogLeft (cmd_lpop args db) db × LogLeft (cmd_rpop args db) db
unfolding cmd_lpop cmd_rpop
pops-unlogged [] db = (refl, refl)
pops-unlogged (key ∷ []) db = (pops-log lpop (text_of key) [] db, pops-log rpop (text_of key) [] db)
pops-unlogged (key ∷ count ∷ []) db =
    (pops-log lpop (text_of key) (count ∷ []) db, pops-log rpop (text_of key) (count ∷ []) db)
pops-unlogged (key ∷ count ∷ x ∷ rest) db = (refl, refl)

module _ (env : Env) where
  find-pexpireat : find (codes "PEXPIREAT") (init env) ≡ some (cmd_pexpireat env)
  unfolding find init register register_all dict_commands set_commands list_commands system_commands
      pubsub_commands hash_commands get put to_upper eq_str
  find-pexpireat = refl

  pub pexpireat-replay :
      (key : Str) (at : Time) (db : Db)
      → IsInt64 (to_unix_milli at)
      → load_value (replay env) (pexpireat key at) db
        ≡ some (record db {
          dict = (expire_at key (unix_milli (to_unix_milli at)) (env.clock 0) db.dict).1;
        })
  unfolding load_value is_array is_text bulks to_list cmd_pexpireat replay expire_at
  pexpireat-replay key at db h =
      rw (replay, find-pexpireat, parse_int-format_int (to_unix_milli at) h) refl

  -- SEXPIRE with a number on a set that is there, for a time whose milliseconds are in int64,
  -- answers 1 and logs an entry. Replayed on any stores, that entry is an `ExpireAt` of the
  -- dictionary under the same key, and changes nothing else.
  pub cmd_sexpire-replay :
      (key time : Value) (n : ℤ) (db now : Db)
      → parse_int (text_of time) ≡ some n
      → has (text_of key) db.set ≡ true
      → IsInt64 (to_unix_milli (env.clock 1 +ℤ seconds n))
      → let entry = pexpireat (text_of key) (env.clock 1 +ℤ seconds n) in
        let at = unix_milli (to_unix_milli (env.clock 1 +ℤ seconds n)) in
        ((s : Set) × (cmd_sexpire env (key ∷ time ∷ []) db
            ≡ some (number (pos 1), log entry (record db { set = s }))))
        × (load_value (replay env) entry now
            ≡ some (record now { dict = (expire_at (text_of key) at (env.clock 0) now.dict).1 }))
  unfolding cmd_sexpire SetStore.expire
  cmd_sexpire-replay key time n db now e f h =
      let found : (SetStore.expire (text_of key) (seconds n) (env.clock 0) db.set).0 ≡ true =
        (expire_lem (text_of key) (seconds n) (env.clock 0) (text_of key) db.set).0 ∙ f in
      (
        (
          (SetStore.expire (text_of key) (seconds n) (env.clock 0) db.set).1,
          rw (e, cmd_sexpire, found) refl,
        ),
        pexpireat-replay (text_of key) (env.clock 1 +ℤ seconds n) now h,
      )
