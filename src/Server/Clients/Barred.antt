-- ===== src/Server/Clients/Barred.antt =====
-- Rounds of clients that have not authenticated.
use valkeydb.Base.{
  After, ℕ, zero, suc, ◌≡◌, refl, subst, Bool, true, false, none, some, List, [], ◌∷◌, ◌++◌, Str,
  arith, get_elem?, set,
}
use valkeydb.Resp.{Value, Decoded, ok, failed, panicked, out_of_fuel, decode}
use valkeydb.Command.{Db, Env}
use valkeydb.Server.{handle_request}
use valkeydb.Server.Guest.{IsGuess, serve_guest-out}
use valkeydb.Server.Clients.{Action, requests, enter, deliver}
use valkeydb.Server.Rounds.{
  System, Conn, Phase, set_conn, close_conn, write_response, next_phase, answer, read_request,
  read_error, env_at, reading, closed, to_pubsub, to_monitor, subscribed, watching,
}

abbrev pub is_outside : Phase → Bool
is_outside reading = true
is_outside closed = true
is_outside _ = false

-- A client that has not got in.
abbrev pub IsOutside : Conn → Type 0
IsOutside c = (c.authed ≡ false) × (is_outside c.phase ≡ true)

abbrev pub AllOutside : List Conn → Type 0
AllOutside [] = Unit
AllOutside (c ∷ conns) = IsOutside c × AllOutside conns

-- What the requests of a client change, and the loops of the server do not.
abbrev pub SameStores : Db → Db → Type 0
SameStores old now = (now.list ≡ old.list) × (now.hash ≡ old.hash) × (now.pubsub ≡ old.pubsub)

abbrev pub Outside : Db → System → Type 0
Outside old s = AllOutside s.conns × SameStores old s.server.db

-- The next request of the connection is no AUTH, or one that is refused.
abbrev pub Guesses : Str → Action → System → Type 0
Guesses auth (requests env i sent) s =
    (c : Conn) (req : Value) (rest : Str)
    → get_elem? s.conns i ≡ some c
    → decode c.input ≡ ok (req, rest)
    → IsGuess auth req
Guesses auth _ s = Unit

pub AllOutside-get :
    (conns : List Conn) (i : ℕ) (c : Conn)
    → AllOutside conns
    → get_elem? conns i ≡ some c
    → IsOutside c
AllOutside-get [] i c h e = absurd (ground (arith, e))
AllOutside-get (x ∷ conns) zero c h e = let same : x ≡ c = cc in subst IsOutside same h.0
AllOutside-get (x ∷ conns) (suc i) c h e = AllOutside-get conns i c h.1 e

pub AllOutside-set :
    (conns : List Conn) (i : ℕ) (c : Conn)
    → AllOutside conns
    → IsOutside c
    → AllOutside (set conns i c)
AllOutside-set [] i c h o = tt
AllOutside-set (x ∷ conns) zero c h o = (o, h.1)
AllOutside-set (x ∷ conns) (suc i) c h o = (h.0, AllOutside-set conns i c h.1 o)

pub AllOutside-append :
    (conns : List Conn) (c : Conn) → AllOutside conns → IsOutside c → AllOutside (conns ++ c ∷ [])
AllOutside-append [] c h o = (o, tt)
AllOutside-append (x ∷ conns) c h o = (h.0, AllOutside-append conns c h.1 o)

pub write_response-Outside :
    (old : Db) (i : ℕ) (c : Conn) (v : Value) (sent : Bool) (s : System)
    → IsOutside c
    → Outside old s
    → Outside old (write_response i c v sent s)
unfolding write_response set_conn close_conn
write_response-Outside old i c v true s o h =
    (AllOutside-set s.conns i (record c { output = c.output ++ _ }) h.0 o, h.1)
write_response-Outside old i c v false s o h =
    (AllOutside-set s.conns i (record c { phase = closed }) h.0 (o.0, refl), h.1)

pub answer-Outside :
    (old : Db) (env : Env) (i : ℕ) (c : Conn) (sent : Bool) (req : Value) (rest : Str) (s : System)
    → IsOutside c
    → IsGuess env.auth req
    → Outside old s
    → After (Outside old) (answer env i c sent req rest s)
unfolding answer handle_request env_at
answer-Outside old env i c sent req rest s o g h =
    let (r, e, a, m, d) = serve_guest-out (env_at env s) req s.server g in
    rw (o.0, e, answer)
      (write_response-Outside old i
        (record c { authed = r.authed; phase = next_phase r.mode; input = rest }) r.reply sent
        (record s { server = r.server }) (a, rw m refl) (h.0, rw d h.1))

pub read_request-Outside :
    (old : Db) (env : Env) (i : ℕ) (c : Conn) (sent : Bool) (s : System)
    → IsOutside c
    → ((req : Value) (rest : Str) → decode c.input ≡ ok (req, rest) → IsGuess env.auth req)
    → Outside old s
    → After (Outside old) (read_request env i c sent s)
unfolding read_request
read_request-Outside old env i c sent s o g h = inputs (decode c.input) refl
  where
    inputs :
        (d : Decoded (Value × Str))
        → decode c.input ≡ d
        → After (Outside old) (read_request env i c sent s)
    inputs (ok (req, rest)) e =
        rw (e, read_request) (answer-Outside old env i c sent req rest s o (g req rest e) h)
    inputs failed e = rw (e, read_request) tt
    inputs panicked e = rw (e, read_request) tt
    inputs out_of_fuel e = rw (e, read_request) tt

pub read_error-Outside :
    (old : Db) (i : ℕ) (c : Conn) (s : System)
    → IsOutside c
    → Outside old s
    → After (Outside old) (read_error i c s)
unfolding read_error close_conn
read_error-Outside old i c s o h =
    elim (decode c.input)
      as (λ d. After (Outside old) (elim d [
        | ok (req, rest) ↦ none
        | failed ↦ some (close_conn i c s)
        | panicked ↦ none
        | out_of_fuel ↦ none
      ])) [
        | ok (req, rest) ↦ tt
        | failed ↦ (AllOutside-set s.conns i (record c { phase = closed }) h.0 (o.0, refl), h.1)
        | panicked ↦ tt
        | out_of_fuel ↦ tt
      ]

pub enter-Outside :
    (old : Db) (i : ℕ) (c : Conn) (s : System) → IsOutside c → After (Outside old) (enter i c s)
unfolding enter
enter-Outside old i c s o = phases c.phase refl
  where
    phases : (p : Phase) → c.phase ≡ p → After (Outside old) (enter i c s)
    phases to_pubsub e = absurd (ground (arith, rw e at o.1))
    phases to_monitor e = absurd (ground (arith, rw e at o.1))
    phases reading e = rw (e, enter) tt
    phases closed e = rw (e, enter) tt
    phases (subscribed ch) e = rw (e, enter) tt
    phases (watching ch) e = rw (e, enter) tt

pub deliver-Outside :
    (old : Db) (i : ℕ) (sent : Bool) (c : Conn) (s : System)
    → IsOutside c
    → After (Outside old) (deliver i sent c s)
unfolding deliver
deliver-Outside old i sent c s o = phases c.phase refl
  where
    phases : (p : Phase) → c.phase ≡ p → After (Outside old) (deliver i sent c s)
    phases (subscribed ch) e = absurd (ground (arith, rw e at o.1))
    phases (watching ch) e = absurd (ground (arith, rw e at o.1))
    phases to_pubsub e = rw (e, deliver) tt
    phases to_monitor e = rw (e, deliver) tt
    phases reading e = rw (e, deliver) tt
    phases closed e = rw (e, deliver) tt
