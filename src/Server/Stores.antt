-- ===== src/Server/Stores.antt =====
-- Whatever a client sends, the stores stay well-formed.
use valkeydb.Base.{
  ◌≡◌, refl, Bool, true, false, ◌||◌, some, List, [], ◌∷◌, codes, eq_str, to_upper, Option-cases,
  List-cases, Bool-cases, inl, inr, After,
}
use valkeydb.Resp.{Value, type_of, text_of, items_of, to_list}
use valkeydb.Aof.{is_array}
use valkeydb.Command.{Db, Env}
use valkeydb.Command.Registry.{find, init}
use valkeydb.Command.Wellformed.{IsWell}
use valkeydb.Command.Invariant.{find-Keeps}
use valkeydb.Server.{
  Server, Served, Mode, command_mode, pubsub_mode, monitor_mode, command_name, dispatch_command,
  serve, serve_guest, handle_request, handle_conn, open_conn,
}

module _ (env : Env) where
  dispatch_command-IsWell :
      (req : Value) (db : Db) → IsWell db → After (λ r. IsWell r.1) (dispatch_command env req db)
  unfolding dispatch_command
  dispatch_command-IsWell req db w = elim (List-cases (to_list (items_of req))) [
    | inl e ↦ rw (e, dispatch_command) w
    | inr (c, args, e) ↦ elim (Bool-cases (is_array (type_of req))) [
      | inl t ↦ elim (Option-cases (find (to_upper (text_of c)) (init env))) [
        | inl f ↦ rw (e, t, f, dispatch_command) w
        | inr (h, f) ↦
            rw (e, t, f, dispatch_command) (find-Keeps env (to_upper (text_of c)) h f args db w)
      ]
      | inr t ↦ rw (e, t, dispatch_command) w
    ]
  ]

  serve-IsWell :
      (authed : Bool) (req : Value) (s : Server)
      → IsWell s.db
      → After (λ r. IsWell r.server.db) (serve env authed req s)
  unfolding serve
  serve-IsWell authed req s w =
      let kept = dispatch_command-IsWell req s.db w in
      elim (Option-cases (dispatch_command env req s.db)) [
        | inl e ↦ rw (e, serve) tt
        | inr (done, e) ↦ rw (e, serve) (rw e at kept)
      ]

  pub handle_request-IsWell :
      (authed : Bool) (req : Value) (s : Server)
      → IsWell s.db
      → After (λ r. IsWell r.server.db) (handle_request env authed req s)
  unfolding handle_request serve_guest
  handle_request-IsWell true req s w = serve-IsWell true req s w
  handle_request-IsWell false req s w =
      let kept = dispatch_command-IsWell req s.db w in
      elim (Bool-cases (eq_str (command_name req) (codes "AUTH"))) [
        | inl a ↦ elim (Option-cases (dispatch_command env req s.db)) [
          | inl e ↦ rw (a, e, serve_guest) tt
          | inr (done, e) ↦ rw (a, e, serve_guest) (rw e at kept)
        ]
        | inr a ↦
            elim (Bool-cases (
              eq_str (command_name req) (codes "PING")
              || eq_str (command_name req) (codes "QUIT"))) [
                | inl p ↦ rw (a, p, serve_guest) (serve-IsWell false req s w)
                | inr p ↦ rw (a, p, serve_guest) w
              ]
      ]

  handle_conn-IsWell :
      (authed : Bool) (requests : List Value) (s : Server)
      → IsWell s.db
      → After (λ (replies, authed', s'). IsWell s'.db) (handle_conn env authed requests s)
  unfolding handle_conn
  handle_conn-IsWell authed [] s w = w
  handle_conn-IsWell authed (req ∷ rest) s w =
      let kept = handle_request-IsWell authed req s w in
      elim (Option-cases (handle_request env authed req s)) [
        | inl e ↦ rw (e, handle_conn) tt
        | inr (r, e) ↦
            let w' : IsWell r.server.db = rw e at kept in
            let later = handle_conn-IsWell r.authed rest r.server w' in
            modes r e w' later r.mode refl
      ]
    where
      modes :
          (r : Served)
          → handle_request env authed req s ≡ some r
          → IsWell r.server.db
          → After (λ (replies, authed', s'). IsWell s'.db) (handle_conn env r.authed rest r.server)
          → (m : Mode) → r.mode ≡ m
          → After (λ (replies, authed', s'). IsWell s'.db) (handle_conn env authed (req ∷ rest) s)
      modes r e w' later command_mode f =
          elim (Option-cases (handle_conn env r.authed rest r.server)) [
            | inl g ↦ rw (handle_conn, e, f, g) tt
            | inr (done, g) ↦ rw (handle_conn, e, f, g) (rw g at later)
          ]
      modes r e w' later pubsub_mode f = rw (handle_conn, e, f) w'
      modes r e w' later monitor_mode f = rw (handle_conn, e, f) w'

  -- From well-formed stores (strings, sets, lists and hashes have each key once, sets each member
  -- once, hashes are not empty and have each field once, each queue with a subscription is open and has
  -- that one alone), whatever requests a client sends on a connection, with or without a password: where
  -- none of them panics, the stores are well-formed at its end.
  pub open_conn-IsWell :
      (requests : List Value) (s : Server)
      → IsWell s.db
      → After (λ (replies, authed', s'). IsWell s'.db) (open_conn env requests s)
  unfolding open_conn
  open_conn-IsWell requests s w = handle_conn-IsWell (eq_str env.auth []) requests s w
