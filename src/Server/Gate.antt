-- ===== src/Server/Gate.antt =====
-- Connections of clients that have not authenticated.
use valkeydb.Base.{
  suc, ◌≡◌, refl, ◌≢◌, ◌∙◌, ap, Bool, true, false, none, some, List, [], ◌∷◌, codes, arith, eq_str,
  eq_str_iff, eq_str_refl, to_upper, length,
}
use valkeydb.Resp.{Value, type_of, text_of, items_of, to_list}
use valkeydb.Aof.{is_array}
use valkeydb.Command.{Db, Env}
use valkeydb.Command.System.{cmd_auth}
use valkeydb.Server.{
  Server, Served, command_name, dispatch_command, serve_guest, handle_request, handle_conn,
  open_conn, command_mode,
}
use valkeydb.Server.Dispatch.{find-auth, command_name-eq, dispatch-found}
use valkeydb.Server.Guest.{AllGuesses, serve_guest-out}

module _ (env : Env) where
  handle_conn-step :
      (authed after : Bool) (req : Value) (rest replies : List Value) (s s' : Server) (r : Served)
      → handle_request env authed req s ≡ some r
      → r.mode ≡ command_mode
      → handle_conn env r.authed rest r.server ≡ some (replies, after, s')
      → handle_conn env authed (req ∷ rest) s ≡ some (r.reply ∷ replies, after, s')
  unfolding handle_conn
  handle_conn-step authed after req rest replies s s' r h m e = ground (arith, h, m, e)

  guests :
      (requests : List Value) (s : Server)
      → AllGuesses env.auth requests
      → (replies : List Value) × (s' : Server) × (handle_conn env false requests s
          ≡ some (replies, false, s'))
        × (length replies ≡ length requests)
        × (s'.db ≡ s.db)
  unfolding handle_conn handle_request
  guests [] s g = ([], s, refl, refl, refl)
  guests (req ∷ rest) s g =
      let (r, e, a, m, d) = serve_guest-out env req s g.0 in
      let (replies, s', e', n, d') = guests rest r.server g.1 in
      (
        r.reply ∷ replies,
        s',
        handle_conn-step false false req rest replies s s' r e m (rw a e'),
        ap suc n,
        d' ∙ d,
      )

  -- Where the configuration has a password: while a client has sent only requests other than
  -- AUTH, and AUTHs with arguments that are refused (one that is not the password, or more than
  -- one), the server answers every one of its requests without a panic, the client has not
  -- authenticated, and the stores and the log are as they were.
  pub open_conn-guest :
      (requests : List Value) (s : Server)
      → env.auth ≢ []
      → AllGuesses env.auth requests
      → (replies : List Value) × (s' : Server) × (open_conn env requests s
          ≡ some (replies, false, s'))
        × (length replies ≡ length requests)
        × (s'.db ≡ s.db)
  unfolding open_conn
  open_conn-guest requests s p g =
      let closed : eq_str env.auth [] ≡ false = ground (arith, eq_str_iff env.auth [], p) in
      rw closed (guests requests s g)

  auth-bare : (db : Db) → cmd_auth env [] db ≡ none
  unfolding cmd_auth
  auth-bare db = refl

  bare :
      (req : Value) (rest : List Value) (s : Server)
      → eq_str (command_name req) (codes "AUTH") ≡ true
      → dispatch_command env req s.db ≡ none
      → handle_conn env false (req ∷ rest) s ≡ none
  unfolding handle_conn handle_request serve_guest
  bare req rest s a d = rw (a, d) refl

  -- Where the configuration has a password, an AUTH without an argument as the first request of a
  -- connection panics.
  pub open_conn-bare_auth :
      (req c : Value) (rest : List Value) (s : Server)
      → env.auth ≢ []
      → to_list (items_of req) ≡ c ∷ []
      → is_array (type_of req) ≡ true
      → to_upper (text_of c) ≡ codes "AUTH"
      → open_conn env (req ∷ rest) s ≡ none
  unfolding open_conn
  open_conn-bare_auth req c rest s p e t n =
      let closed : eq_str env.auth [] ≡ false = ground (arith, eq_str_iff env.auth [], p) in
      rw closed (
        bare req rest s (rw (command_name-eq req c [] e t ∙ n) (eq_str_refl (codes "AUTH"))) (
          dispatch-found env req c [] (cmd_auth env) s.db e t (rw n (find-auth env))
          ∙ auth-bare s.db))
