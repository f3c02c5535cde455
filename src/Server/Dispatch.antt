-- ===== src/Server/Dispatch.antt =====
-- Requests that reach a handler.
use valkeydb.Base.{
  ℕ, ◌≡◌, refl, inl, inr, true, none, some, List, ◌∷◌, Str, codes, arith, eq_str, to_upper,
  List-cases,
}
use valkeydb.Base.Map.{get, put}
use valkeydb.Resp.{Value, error_value, type_of, text_of, items_of, to_list}
use valkeydb.Aof.{is_array}
use valkeydb.Command.{Db, Env, Handler}
use valkeydb.Command.Strings.{cmd_ping}
use valkeydb.Command.System.{cmd_auth}
use valkeydb.Command.Registry.{
  find, init, register, register_all, dict_commands, set_commands, list_commands, system_commands,
  pubsub_commands, hash_commands,
}
use valkeydb.Server.{command_name, dispatch_command}

module _ (env : Env) where
  pub find-auth : find (codes "AUTH") (init env) ≡ some (cmd_auth env)
  unfolding find init register register_all dict_commands set_commands list_commands system_commands
      pubsub_commands hash_commands get put to_upper eq_str
  find-auth = refl

  pub find-ping : find (codes "PING") (init env) ≡ some cmd_ping
  unfolding find init register register_all dict_commands set_commands list_commands system_commands
      pubsub_commands hash_commands get put to_upper eq_str
  find-ping = refl

  pub find-quit : find (codes "QUIT") (init env) ≡ none
  unfolding find init register register_all dict_commands set_commands list_commands system_commands
      pubsub_commands hash_commands get put to_upper eq_str
  find-quit = refl

-- A request that is a command has its name at the front.
pub command_name-cons :
    (req : Value) (b : ℕ) (name : Str)
    → command_name req ≡ b ∷ name
    → (c : Value) × (args : List Value) × (to_list (items_of req) ≡ c ∷ args)
      × (is_array (type_of req) ≡ true)
      × (to_upper (text_of c) ≡ b ∷ name)
unfolding command_name
command_name-cons req b name h = elim (List-cases (to_list (items_of req))) [
  | inl e ↦ absurd (ground (arith, e))
  | inr (c, args, e) ↦ (c, args, e, ground (arith, e), ground (arith, e))
]

pub command_name-eq :
    (req c : Value) (args : List Value)
    → to_list (items_of req) ≡ c ∷ args
    → is_array (type_of req) ≡ true
    → command_name req ≡ to_upper (text_of c)
unfolding command_name
command_name-eq req c args e t = ground (arith, e, t)

module _ (env : Env) where
  pub dispatch-found :
      (req c : Value) (args : List Value) (h : Handler) (db : Db)
      → to_list (items_of req) ≡ c ∷ args
      → is_array (type_of req) ≡ true
      → find (to_upper (text_of c)) (init env) ≡ some h
      → dispatch_command env req db ≡ h args db
  unfolding dispatch_command
  dispatch-found req c args h db e t f = rw (e, t, f, dispatch_command) refl

  pub dispatch-unknown :
      (req c : Value) (args : List Value) (db : Db)
      → to_list (items_of req) ≡ c ∷ args
      → is_array (type_of req) ≡ true
      → find (to_upper (text_of c)) (init env) ≡ none
      → dispatch_command env req db ≡ some (error_value (codes "ERR unknown command"), db)
  unfolding dispatch_command
  dispatch-unknown req c args db e t f = rw (e, t, f, dispatch_command) refl
