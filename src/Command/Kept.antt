-- ===== src/Command/Kept.antt =====
-- Every command keeps the stores well-formed.
use valkeydb.Base.{
  Bool, true, false, List, [], ◌∷◌, Option-cases, Bool-cases, inl, inr, After, if◌then◌else◌,
}
use valkeydb.Base.Int.{pos, ltb_ℤ}
use valkeydb.Clock.{seconds, unix_milli}
use valkeydb.Decimal.{parse_int}
use valkeydb.Dict
use valkeydb.SetStore
use valkeydb.Resp.{Value, text_of}
use valkeydb.Command.{Db, Env, Handler, log, log_if, texts}
use valkeydb.Command.Strings.{
  cmd_set, cmd_get, cmd_del, cmd_expire, cmd_ttl, cmd_ping, cmd_pexpireat, set_ttl,
}
use valkeydb.Command.Sets.{
  cmd_sadd, cmd_srem, cmd_smembers, cmd_sismember, cmd_scard, cmd_sexpire, cmd_sttl,
}
use valkeydb.Command.WellformedSets.{
  sadd-AreSets, srem-AreSets, smembers-AreSets, sismember-AreSets, scard-AreSets, sttl-AreSets,
  sexpire-AreSets,
}
use valkeydb.Command.Wellformed.{
  IsWell, with_dict, with_set, set-IsMap, lookup-IsMap, delete_all-IsMap, expire-IsMap,
  expire_at-IsMap, ttl-IsMap,
}

-- A handler that leaves well-formed stores well-formed, where it does not panic.
abbrev pub Keeps : Handler → Type 0
Keeps h = (args : List Value) (db : Db) → IsWell db → After (λ (reply, db'). IsWell db') (h args db)

-- One of two results.
either : (b : Bool) (r r' : Value × Db) → IsWell r.1 → IsWell r'.1 → IsWell (if b then r else r').1
either true r r' w w' = w
either false r r' w w' = w'

either_db : (b : Bool) (db db' : Db) → IsWell db → IsWell db' → IsWell (if b then db else db')
either_db true db db' w w' = w
either_db false db db' w w' = w'

pub del-Keeps : Keeps cmd_del
unfolding cmd_del log
del-Keeps [] db w = w
del-Keeps (a ∷ args) db w = with_dict w _ (delete_all-IsMap (texts (a ∷ args)) db.dict w.dict)

pub ping-Keeps : Keeps cmd_ping
unfolding cmd_ping
ping-Keeps [] db w = w
ping-Keeps (a ∷ args) db w = w

module _ (env : Env) where
  pub set-Keeps : Keeps (cmd_set env)
  unfolding cmd_set log
  set-Keeps [] db w = w
  set-Keeps (key ∷ []) db w = w
  set-Keeps (key ∷ val ∷ rest) db w =
      let stored =
        with_dict w _
          (set-IsMap (text_of key) (text_of val) (set_ttl rest) (env.clock 0) db.dict w.dict) in
      either_db (ltb_ℤ (pos 0) (set_ttl rest)) _ _ stored stored

  pub get-Keeps : Keeps (cmd_get env)
  unfolding cmd_get
  get-Keeps [] db w = w
  get-Keeps (key ∷ rest) db w =
      with_dict w _ (lookup-IsMap (text_of key) (env.clock 0) db.dict w.dict)

  pub expire-Keeps : Keeps (cmd_expire env)
  unfolding cmd_expire log
  expire-Keeps [] db w = w
  expire-Keeps (key ∷ []) db w = w
  expire-Keeps (key ∷ time ∷ []) db w = elim (Option-cases (parse_int (text_of time))) [
    | inl e ↦ rw (e, cmd_expire) w
    | inr (n, e) ↦
        let left =
          with_dict w _ (expire-IsMap (text_of key) (seconds n) (env.clock 0) db.dict w.dict) in
        elim (Bool-cases (Dict.expire (text_of key) (seconds n) (env.clock 0) db.dict).0) [
          | inl f ↦ rw (e, f, cmd_expire) left
          | inr f ↦ rw (e, f, cmd_expire) left
        ]
  ]
  expire-Keeps (key ∷ time ∷ x ∷ rest) db w = w

  pub pexpireat-Keeps : Keeps (cmd_pexpireat env)
  unfolding cmd_pexpireat
  pexpireat-Keeps [] db w = w
  pexpireat-Keeps (key ∷ []) db w = w
  pexpireat-Keeps (key ∷ time ∷ []) db w = elim (Option-cases (parse_int (text_of time))) [
    | inl e ↦ rw (e, cmd_pexpireat) w
    | inr (n, e) ↦
        rw (e, cmd_pexpireat)
          (with_dict w _
            (expire_at-IsMap (text_of key) (unix_milli n) (env.clock 0) db.dict w.dict))
  ]
  pexpireat-Keeps (key ∷ time ∷ x ∷ rest) db w = w

  pub ttl-Keeps : Keeps (cmd_ttl env)
  unfolding cmd_ttl
  ttl-Keeps [] db w = w
  ttl-Keeps (key ∷ []) db w = with_dict w _ (ttl-IsMap (text_of key) (env.clock 0) db.dict w.dict)
  ttl-Keeps (key ∷ x ∷ rest) db w = w

  pub smembers-Keeps : Keeps (cmd_smembers env)
  unfolding cmd_smembers
  smembers-Keeps [] db w = w
  smembers-Keeps (key ∷ []) db w =
      with_set w _ (smembers-AreSets (text_of key) (env.clock 0) db.set (w.set, w.members))
  smembers-Keeps (key ∷ x ∷ rest) db w = w

  pub sismember-Keeps : Keeps (cmd_sismember env)
  unfolding cmd_sismember
  sismember-Keeps [] db w = w
  sismember-Keeps (key ∷ []) db w = w
  sismember-Keeps (key ∷ m ∷ []) db w =
      with_set w _
        (sismember-AreSets (text_of key) (text_of m) (env.clock 0) db.set (w.set, w.members))
  sismember-Keeps (key ∷ m ∷ x ∷ rest) db w = w

  pub scard-Keeps : Keeps (cmd_scard env)
  unfolding cmd_scard
  scard-Keeps [] db w = w
  scard-Keeps (key ∷ []) db w =
      with_set w _ (scard-AreSets (text_of key) (env.clock 0) db.set (w.set, w.members))
  scard-Keeps (key ∷ x ∷ rest) db w = w

  pub sttl-Keeps : Keeps (cmd_sttl env)
  unfolding cmd_sttl
  sttl-Keeps [] db w = w
  sttl-Keeps (key ∷ []) db w =
      with_set w _ (sttl-AreSets (text_of key) (env.clock 0) db.set (w.set, w.members))
  sttl-Keeps (key ∷ x ∷ rest) db w = w

  pub sexpire-Keeps : Keeps (cmd_sexpire env)
  unfolding cmd_sexpire log
  sexpire-Keeps [] db w = w
  sexpire-Keeps (key ∷ []) db w = w
  sexpire-Keeps (key ∷ time ∷ []) db w = elim (Option-cases (parse_int (text_of time))) [
    | inl e ↦ rw (e, cmd_sexpire) w
    | inr (n, e) ↦
        let left =
          with_set w _
            (sexpire-AreSets (text_of key) (seconds n) (env.clock 0) db.set (w.set, w.members)) in
        elim (Bool-cases (SetStore.expire (text_of key) (seconds n) (env.clock 0) db.set).0) [
          | inl f ↦ rw (e, f, cmd_sexpire) left
          | inr f ↦ rw (e, f, cmd_sexpire) left
        ]
  ]
  sexpire-Keeps (key ∷ time ∷ x ∷ rest) db w = w

pub sadd-Keeps : Keeps cmd_sadd
unfolding cmd_sadd log_if
sadd-Keeps [] db w = w
sadd-Keeps (key ∷ []) db w = w
sadd-Keeps (key ∷ m ∷ args) db w =
    with_set w _ (sadd-AreSets (text_of key) (texts (m ∷ args)) db.set (w.set, w.members))

pub srem-Keeps : Keeps cmd_srem
unfolding cmd_srem log_if
srem-Keeps [] db w = w
srem-Keeps (key ∷ []) db w = w
srem-Keeps (key ∷ m ∷ args) db w =
    with_set w _ (srem-AreSets (text_of key) (texts (m ∷ args)) db.set (w.set, w.members))
