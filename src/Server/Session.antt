-- ===== src/Server/Session.antt =====
-- What a client reads of what a client has written, by the name of the command.
pub mod Later
mod Tests
use valkeydb.Base.{
  ◌≡◌, refl, ap, ◌∙◌, Bool, true, false, Option, none, some, List, [], ◌∷◌, Str, codes, arith,
  eq_str, to_upper, ◌&&◌, if◌then◌else◌, Bool-cases, inl, inr,
}
use valkeydb.Base.Int.{pos, ltb_ℤ, ◌+ℤ◌, ◌≤ℤ◌}
use valkeydb.Base.Map.{get, put}
use mathlib.Core.Option
use valkeydb.Dict
use valkeydb.Dict.{lookup}
use valkeydb.Dict.View.{view, lookup_lem, view-set}
use valkeydb.Resp.{Value, simple, bulk, nil_bulk, type_of, text_of, items_of, to_list}
use valkeydb.Aof.{is_array, entry, pexpireat}
use valkeydb.Command.{Db, Env, log}
use valkeydb.Command.Strings.{cmd_set, cmd_get, set_ttl}
use valkeydb.Command.Registry.{
  find, init, register, register_all, dict_commands, set_commands, list_commands, system_commands,
  pubsub_commands, hash_commands,
}
use valkeydb.Server.{dispatch_command}
use valkeydb.Server.Dispatch.{dispatch-found}

-- The request is the command `name`, in letters of either case, with these arguments.
pub record Asks (req : Value) (name : Str) (args : List Value) : Type 0 where
  pub command : Value
  pub parts : to_list (items_of req) ≡ command ∷ args
  pub array : is_array (type_of req) ≡ true
  pub named : to_upper (text_of command) ≡ name

-- The reply for a value that is there or not.
abbrev pub reply_of : Option Str → Value
reply_of none = nil_bulk
reply_of (some text) = bulk text

module _ (env : Env) where
  find-set : find (codes "SET") (init env) ≡ some (cmd_set env)
  unfolding find init register register_all dict_commands set_commands list_commands system_commands
      pubsub_commands hash_commands get put to_upper eq_str
  find-set = refl

  find-get : find (codes "GET") (init env) ≡ some (cmd_get env)
  unfolding find init register register_all dict_commands set_commands list_commands system_commands
      pubsub_commands hash_commands get put to_upper eq_str
  find-get = refl

-- SET, at the store and at the reply.
stored : Env → Value → Value → List Value → Db → Db
stored env key val rest db =
    log (entry (codes "SET" ∷ text_of key ∷ text_of val ∷ [])) (record db {
      dict = Dict.set (text_of key) (text_of val) (set_ttl rest) (env.clock 0) db.dict;
    })

cmd_set-eq :
    (env : Env) (key val : Value) (rest : List Value) (db : Db)
    → (db' : Db) × (cmd_set env (key ∷ val ∷ rest) db ≡ some (simple (codes "OK"), db'))
      × (db'.dict ≡ Dict.set (text_of key) (text_of val) (set_ttl rest) (env.clock 0) db.dict)
unfolding cmd_set log stored
cmd_set-eq env key val rest db = elim (Bool-cases (ltb_ℤ (pos 0) (set_ttl rest))) [
  | inl e ↦ (
    log (pexpireat (text_of key) (env.clock 1 +ℤ set_ttl rest)) (stored env key val rest db),
    rw (e, cmd_set) refl,
    refl,
  )
  | inr e ↦ (stored env key val rest db, rw (e, cmd_set) refl, refl)
]

-- GET, by what is in view.
cmd_get-eq :
    (env : Env) (key : Value) (more : List Value) (db : Db)
    → Option.map (λ r. r.0) (cmd_get env (key ∷ more) db)
      ≡ some (reply_of (Option.map (λ item. item.value) (view (env.clock 0) (text_of key) db.dict)))
unfolding cmd_get
cmd_get-eq env key more db = rw (lookup_lem (text_of key) (env.clock 0) db.dict).0 refl

-- The reply of a request alone; `none` is a panic.
abbrev pub reply : Env → Value → Db → Option Value
reply env req db = Option.map (λ r. r.0) (dispatch_command env req db)

pub reply-get :
    (env : Env) (req key : Value) (more : List Value) (db : Db)
    → Asks req (codes "GET") (key ∷ more)
    → reply env req db
      ≡ some (reply_of (Option.map (λ item. item.value) (view (env.clock 0) (text_of key) db.dict)))
reply-get env req key more db a =
    ap (Option.map (λ r. r.0)) (
      dispatch-found env req a.command (key ∷ more) (cmd_get env) db a.parts a.array
        (rw a.named (find-get env)))
    ∙ cmd_get-eq env key more db

reply_of-if :
    (b c : Bool) (v : Str) (o : Option Str)
    → some (reply_of (if b then (if c then none else some v) else o))
      ≡ (if b then some (if c then nil_bulk else bulk v) else some (reply_of o))
reply_of-if true true v o = refl
reply_of-if true false v o = refl
reply_of-if false c v o = refl

-- SET with a key, a value and whatever else, from the epoch on, answers OK, and a GET with the same
-- key and no request in between is answered with the value, unless SET had a positive time to live
-- and it is over: then the reply is the null string. A GET with another key is answered as if there
-- had been no SET.
pub get-set :
    (env later : Env) (set_req get_req key val k : Value) (rest more : List Value) (db : Db)
    → Asks set_req (codes "SET") (key ∷ val ∷ rest)
    → Asks get_req (codes "GET") (k ∷ more)
    → pos 0 ≤ℤ env.clock 0
    → (db' : Db) × (dispatch_command env set_req db ≡ some (simple (codes "OK"), db'))
      × (reply later get_req db' ≡ (
          if eq_str (text_of key) (text_of k)
          then some (
              if ltb_ℤ (pos 0) (set_ttl rest) && ltb_ℤ (env.clock 0 +ℤ set_ttl rest) (later.clock 0)
              then nil_bulk
              else bulk (text_of val))
          else reply later get_req db))
get-set env later set_req get_req key val k rest more db s g h =
    let (db', e, d) = cmd_set-eq env key val rest db in
    (
      db',
      dispatch-found env set_req s.command (key ∷ val ∷ rest) (cmd_set env) db s.parts s.array
            (rw s.named (find-set env))
          ∙ e,
      reply-get later get_req k more db' g
          ∙ rw
              (
                d,
                view-set (text_of key) (text_of val) (set_ttl rest) (env.clock 0) (later.clock 0)
                    (text_of k) db.dict h,
                reply-get later get_req k more db g,
              )
              (reply_of-if _ _ (text_of val) _),
    )
