-- ===== src/Server/Clients/Sound.antt =====
-- What holds of the counters and the buffers of a server that runs.
use valkeydb.Base.{
  ℕ, zero, suc, ◌+◌, ◌^◌, ◌<◌, ◌≡◌, refl, ◌⊎◌, inl, inr, sym, subst, Bool, true, false, some, List,
  [], ◌∷◌, ◌++◌, Str, arith, eq_str, codes, get_elem?, set, Option-cases, Bool-cases, ◌||◌,
}
use valkeydb.Resp.{Value}
use valkeydb.Command.{Db, Env}
use valkeydb.Command.System.{inc_commands, inc_connections}
use valkeydb.Server.{
  Server, Served, Mode, command_mode, pubsub_mode, monitor_mode, handle_request, serve, serve_guest,
  dispatch_command, monitor_publish, command_name,
}
use valkeydb.Server.Rounds.{System, Conn, Phase, accept_conn, next_phase, reading, closed}
use valkeydb.Server.Clients.Buffers.{AreShort, monitor_publish-AreShort}

abbrev pub is_open : Phase → ℕ
is_open closed = 0
is_open _ = 1

abbrev pub open_count : List Conn → ℕ
open_count [] = 0
open_count (c ∷ conns) = is_open c.phase + open_count conns

-- With `n` connections open: they are what the counter says, the counters are in uint64, and no
-- buffer of a monitor is over its capacity.
pub record IsSound (n : ℕ) (s : Server) : Type 0 where
  pub counted : s.stats.current_conns ≡ n
  pub cmds : s.stats.total_cmds < 2 ^ 64
  pub conns : s.stats.total_conns < 2 ^ 64
  pub short : AreShort s.monitors

pub open_count-set :
    (conns : List Conn) (i : ℕ) (c c' : Conn)
    → get_elem? conns i ≡ some c
    → open_count (set conns i c') + is_open c.phase ≡ open_count conns + is_open c'.phase
open_count-set [] i c c' e = absurd (ground (arith, e))
open_count-set (x ∷ conns) zero c c' e = let same : x ≡ c = cc in rw (← same) (omega arith)
open_count-set (x ∷ conns) (suc i) c c' e = omega (arith, open_count-set conns i c c' e)

pub open_count-append :
    (conns : List Conn) (c : Conn)
    → open_count (conns ++ c ∷ []) ≡ open_count conns + is_open c.phase
open_count-append [] c = omega arith
open_count-append (x ∷ conns) c = omega (arith, open_count-append conns c)

-- A server after a request: with other stores, or with a command counted and shown to the monitors
-- besides.
abbrev pub counted_command : Value → Db → Server → Server
counted_command req db s = record s {
  db = db;
  monitors = monitor_publish req s.monitors;
  stats = inc_commands s.stats;
}

module _ (env : Env) where
  pub serve-after :
      (authed : Bool) (req : Value) (s : Server) (r : Served)
      → serve env authed req s ≡ some r
      → (db : Db) × (r.server ≡ counted_command req db s)
  unfolding serve
  serve-after authed req s r e = elim (Option-cases (dispatch_command env req s.db)) [
    | inl d ↦ absurd (ground (arith, d, e))
    | inr (done, d) ↦ (done.1, ground (arith, d, e))
  ]

  pub handle_request-after :
      (authed : Bool) (req : Value) (s : Server) (r : Served)
      → handle_request env authed req s ≡ some r
      → (db : Db) × ((r.server ≡ record s { db = db }) ⊎ (r.server ≡ counted_command req db s))
  unfolding handle_request serve_guest
  handle_request-after true req s r e = let (db, x) = serve-after true req s r e in (db, inr x)
  handle_request-after false req s r e =
      elim (Bool-cases (eq_str (command_name req) (codes "AUTH"))) [
        | inl a ↦ elim (Option-cases (dispatch_command env req s.db)) [
          | inl d ↦ absurd (ground (arith, rw (a, d) at e))
          | inr (done, d) ↦ (done.1, inl (ground (arith, rw (a, d) at e)))
        ]
        | inr a ↦
            elim (Bool-cases (
              eq_str (command_name req) (codes "PING")
              || eq_str (command_name req) (codes "QUIT"))) [
                | inl p ↦ let (db, x) = serve-after false req s r (rw (a, p) at e) in (db, inr x)
                | inr p ↦ (s.db, inl (ground (arith, rw (a, p) at e)))
              ]
      ]

pub next_phase-open : (m : Mode) → is_open (next_phase m) ≡ 1
next_phase-open command_mode = refl
next_phase-open pubsub_mode = refl
next_phase-open monitor_mode = refl

abbrev pub Inv : System → Type 0
Inv s = IsSound (open_count s.conns) s.server

-- The same server with other stores.
pub db-IsSound : (n : ℕ) (s : Server) (db : Db) → IsSound n s → IsSound n (record s { db = db })
db-IsSound n s db h = record {
  counted = h.counted;
  cmds = h.cmds;
  conns = h.conns;
  short = h.short;
}

pub counted_command-IsSound :
    (n : ℕ) (s : Server) (req : Value) (db : Db)
    → IsSound n s
    → IsSound n (counted_command req db s)
unfolding inc_commands
counted_command-IsSound n s req db h = record {
  counted = h.counted;
  cmds = omega arith;
  conns = h.conns;
  short = monitor_publish-AreShort req s.monitors h.short;
}

pub handle_request-IsSound :
    (n : ℕ) (env : Env) (authed : Bool) (req : Value) (s : Server) (r : Served)
    → handle_request env authed req s ≡ some r
    → IsSound n s
    → IsSound n r.server
handle_request-IsSound n env authed req s r e h =
    let (db, after) = handle_request-after env authed req s r e in
    elim after [
      | inl same ↦ subst (IsSound n) (sym same) (db-IsSound n s db h)
      | inr same ↦ subst (IsSound n) (sym same) (counted_command-IsSound n s req db h)
    ]

pub accept_conn-Inv : (auth : Str) (s : System) → Inv s → Inv (accept_conn auth s)
unfolding accept_conn inc_connections
accept_conn-Inv auth s h = record {
  counted = omega (
    arith,
    h.counted,
    open_count-append s.conns
        (record { authed = eq_str auth []; phase = reading; input = []; output = [] }),
  );
  cmds = h.cmds;
  conns = omega arith;
  short = h.short;
}
