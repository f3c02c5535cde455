-- ===== src/Server/Guest.antt =====
-- One request of a client that has not authenticated.
use valkeydb.Base.{
  ◌≡◌, refl, ◌≢◌, ◌∙◌, inl, inr, true, false, ◌||◌, Option, some, List, [], ◌∷◌, Str, codes, arith,
  eq_str, eq_str_iff, to_upper, Bool-cases,
}
use valkeydb.Resp.{Value, error_value, type_of, text_of, items_of, to_list}
use valkeydb.Aof.{is_array}
use valkeydb.Command.{Db, Env, wrong_number}
use valkeydb.Command.Strings.{cmd_ping}
use valkeydb.Command.System.{cmd_auth, inc_commands}
use valkeydb.Server.{
  Server, Served, command_name, is_ok, dispatch_command, serve, serve_guest, monitor_publish,
  noauth, command_mode,
}
use valkeydb.Server.Dispatch.{
  find-auth, find-ping, find-quit, command_name-cons, dispatch-found, dispatch-unknown,
}

-- The arguments of an AUTH that is refused.
abbrev pub Refused : Str → List Value → Type 0
Refused auth [] = ⊥
Refused auth (a ∷ []) = text_of a ≢ auth
Refused auth (_ ∷ _ ∷ _) = Unit

-- A request that is not an AUTH, or one that is refused.
abbrev pub IsGuess : Str → Value → Type 0
IsGuess auth req =
    (c : Value) (args : List Value)
    → to_list (items_of req) ≡ c ∷ args
    → is_array (type_of req) ≡ true
    → to_upper (text_of c) ≡ codes "AUTH"
    → Refused auth args

abbrev pub AllGuesses : Str → List Value → Type 0
AllGuesses auth [] = Unit
AllGuesses auth (req ∷ rest) = IsGuess auth req × AllGuesses auth rest

module _ (env : Env) where
  -- The reply to an AUTH that is refused is an error.
  auth-Refused :
      (args : List Value) (db : Db)
      → Refused env.auth args
      → (reply : Value) × (cmd_auth env args db ≡ some (reply, db)) × (is_ok reply ≡ false)
  unfolding cmd_auth is_ok
  auth-Refused [] db h = absurd h
  auth-Refused (a ∷ []) db h = (
    error_value (codes "ERR auth is not correct"),
    ground (arith, h, eq_str_iff (text_of a) env.auth),
    refl,
  )
  auth-Refused (a ∷ b ∷ rest) db h = (wrong_number (codes "auth"), refl, refl)

  -- A reply that leaves the stores and the gate as they are.
  abbrev pub StaysOut : Server → Option Served → Type 0
  StaysOut s o =
      (r : Served) × (o ≡ some r)
      × (r.authed ≡ false)
      × (r.mode ≡ command_mode)
      × (r.server.db ≡ s.db)

  -- What becomes of a request that the stores answer without a change.
  abbrev passed : Value → Server → Value → Served
  passed req s reply = record {
    authed = false;
    mode = command_mode;
    reply = reply;
    server = record {
      db = s.db;
      monitors = monitor_publish req s.monitors;
      next_monitor = s.next_monitor;
      stats = inc_commands s.stats;
    };
  }

  serve-out :
      (req : Value) (s : Server) (reply : Value)
      → dispatch_command env req s.db ≡ some (reply, s.db)
      → eq_str (command_name req) (codes "SUBSCRIBE") ≡ false
      → eq_str (command_name req) (codes "MONITOR") ≡ false
      → serve env false req s ≡ some (passed req s reply)
  unfolding serve
  serve-out req s reply d n m = rw (d, n, m) refl

  guest-auth :
      (req : Value) (s : Server) (reply : Value)
      → eq_str (command_name req) (codes "AUTH") ≡ true
      → dispatch_command env req s.db ≡ some (reply, s.db)
      → is_ok reply ≡ false
      → StaysOut s (serve_guest env req s)
  unfolding serve_guest
  guest-auth req s reply a d n = (
    record { authed = false; mode = command_mode; reply = reply; server = s },
    rw (a, d, n) refl,
    refl,
    refl,
    refl,
  )

  guest-served :
      (req : Value) (s : Server) (reply : Value)
      → eq_str (command_name req) (codes "AUTH") ≡ false
      → (eq_str (command_name req) (codes "PING") || eq_str (command_name req) (codes "QUIT"))
        ≡ true
      → serve env false req s ≡ some (passed req s reply)
      → StaysOut s (serve_guest env req s)
  unfolding serve_guest
  guest-served req s reply a p e = (passed req s reply, rw (a, p) e, refl, refl, refl)

  guest-noauth :
      (req : Value) (s : Server)
      → eq_str (command_name req) (codes "AUTH") ≡ false
      → (eq_str (command_name req) (codes "PING") || eq_str (command_name req) (codes "QUIT"))
        ≡ false
      → StaysOut s (serve_guest env req s)
  unfolding serve_guest
  guest-noauth req s a p = (
    record { authed = false; mode = command_mode; reply = noauth; server = s },
    rw (a, p) refl,
    refl,
    refl,
    refl,
  )

  ping-reply :
      (args : List Value) (db : Db) → (reply : Value) × (cmd_ping args db ≡ some (reply, db))
  unfolding cmd_ping
  ping-reply [] db = (_, refl)
  ping-reply (a ∷ args) db = (_, refl)

  pub serve_guest-out :
      (req : Value) (s : Server) → IsGuess env.auth req → StaysOut s (serve_guest env req s)
  unfolding eq_str
  serve_guest-out req s g = elim (Bool-cases (eq_str (command_name req) (codes "AUTH"))) [
    | inl a ↦
        let (c, args, e, t, n) =
          command_name-cons req _ _ ((eq_str_iff (command_name req) (codes "AUTH")).0 a) in
        let (reply, r, bad) = auth-Refused args s.db (g c args e t n) in
        guest-auth req s reply a
          (dispatch-found env req c args (cmd_auth env) s.db e t (rw n (find-auth env)) ∙ r) bad
    | inr a ↦ elim (Bool-cases (eq_str (command_name req) (codes "PING"))) [
      | inl p ↦
          let name = (eq_str_iff (command_name req) (codes "PING")).0 p in
          let (c, args, e, t, n) = command_name-cons req _ _ name in
          let (reply, r) = ping-reply args s.db in
          guest-served req s reply a (rw p refl) (
            serve-out req s reply
              (dispatch-found env req c args cmd_ping s.db e t (rw n (find-ping env)) ∙ r)
              (rw name refl) (rw name refl))
      | inr p ↦ elim (Bool-cases (eq_str (command_name req) (codes "QUIT"))) [
        | inl q ↦
            let name = (eq_str_iff (command_name req) (codes "QUIT")).0 q in
            let (c, args, e, t, n) = command_name-cons req _ _ name in
            guest-served req s (error_value (codes "ERR unknown command")) a (rw (p, q) refl) (
              serve-out req s (error_value (codes "ERR unknown command"))
                (dispatch-unknown env req c args s.db e t (rw n (find-quit env))) (rw name refl)
                (rw name refl))
        | inr q ↦ guest-noauth req s a (rw (p, q) refl)
      ]
    ]
  ]
