-- ===== src/Server.antt =====
-- internal/server/server.go: what a connection does with a request, and the replay of the log. A
-- request is a step of the server's state.
pub mod Dispatch
pub mod Guest
pub mod Gate
pub mod Persist
pub mod Stores
pub mod Restore
pub mod Lifecycle
pub mod Dumped
pub mod Restart
pub mod Redo
pub mod Relog
pub mod Relogged
pub mod Rewritten
pub mod Rounds
pub mod Clients
pub mod Session
pub mod Pops
mod Tests
use valkeydb.Base.{
  ℕ, zero, suc, ◌+◌, ◌%◌, ◌^◌, Bool, true, false, not, ◌||◌, ◌&&◌, Option, none, some, List, [],
  ◌∷◌, ◌++◌, map, Str, codes, eq_str, to_upper, ltb, ◌==◌, length, if◌then◌else◌, ◌>>=◌,
}
use valkeydb.Base.Map.{Map, keys}
use valkeydb.Base.Int.{pos}
use valkeydb.Clock.{Time, is_zero}
use valkeydb.Item.{Item}
use valkeydb.Resp.{
  RespType, simple_string, Value, error_value, bulk, type_of, text_of, items_of, to_list, Decoded,
  ok, bind,
}
use valkeydb.Dict
use valkeydb.Dict.{Dict}
use valkeydb.SetStore
use valkeydb.SetStore.{Set, sadd}
use valkeydb.ListStore
use valkeydb.ListStore.{Lists, rpush}
use valkeydb.HashStore
use valkeydb.HashStore.{HashMap, hset}
use valkeydb.Aof
use valkeydb.Aof.{Aof, is_array, values_of, load}
use valkeydb.Command.{Db, Env, Stats, set_replaying}
use valkeydb.Command.System.{inc_commands}
use valkeydb.Command.Registry.{init, find, replay}

-- `monitors` are the channels of `monSubs` with their buffers, by the order in which they were made;
-- `next_monitor` is the number of the next.
pub record Server : Type 0 where
  pub db : Db
  pub monitors : List (ℕ × List Value)
  pub next_monitor : ℕ
  pub stats : Stats

-- `cmd` in `handleConn`: the empty string for a request that is no command.
unfoldable pub command_name : Value → Str
command_name req = elim (to_list (items_of req)) [
  | [] ↦ []
  | c ∷ args ↦ if is_array (type_of req) then to_upper (text_of c) else []
]

-- `buildMonitorLine`
unfoldable pub monitor_line : Str → List Value → Str
monitor_line line [] = line
monitor_line line (a ∷ args) = monitor_line (line ++ (codes " " ++ text_of a)) args

-- A client whose buffer of 128 is full misses the line.
unfoldable pub monitor_send : Value → List Value → List Value
monitor_send v buffer = if ltb (length buffer) 128 then buffer ++ v ∷ [] else buffer

unfoldable pub send_each : Value → List (ℕ × List Value) → List (ℕ × List Value)
send_each v [] = []
send_each v ((ch, buffer) ∷ monitors) = (ch, monitor_send v buffer) ∷ send_each v monitors

unfoldable pub monitor_publish : Value → List (ℕ × List Value) → List (ℕ × List Value)
monitor_publish req monitors = elim (to_list (items_of req)) [
  | [] ↦ monitors
  | c ∷ args ↦
      if is_array (type_of req)
      then send_each (bulk (monitor_line (to_upper (text_of c)) args)) monitors
      else monitors
]

unfoldable pub monitor_subscribe : Server → ℕ × Server
monitor_subscribe s = (
  s.next_monitor,
  record s {
    monitors = s.monitors ++ (s.next_monitor, []) ∷ [];
    next_monitor = s.next_monitor + 1;
  },
)

unfoldable pub remove_monitor : ℕ → List (ℕ × List Value) → List (ℕ × List Value)
remove_monitor ch [] = []
remove_monitor ch ((i, buffer) ∷ monitors) =
    let rest = remove_monitor ch monitors in if i == ch then rest else (i, buffer) ∷ rest

unfoldable pub monitor_unsubscribe : ℕ → Server → Server
monitor_unsubscribe ch s = record s { monitors = remove_monitor ch s.monitors }

unfoldable pub is_ok : Value → Bool
is_ok v = elim (type_of v) [ simple_string ↦ eq_str (text_of v) (codes "OK") | _ ↦ false ]

-- What the connection does after a reply.
pub data Mode : Type 0 where
  command_mode pubsub_mode monitor_mode : Mode

-- After a request: whether the client has authenticated, the mode, the reply, and the server.
pub record Served : Type 0 where
  pub authed : Bool
  pub mode : Mode
  pub reply : Value
  pub server : Server

abbrev pub noauth : Value
noauth = error_value (codes "NOAUTH Authentication required.")

module _ (env : Env) where
  unfoldable pub dispatch_command : Value → Db → Option (Value × Db)
  dispatch_command req db = elim (to_list (items_of req)) [
    | [] ↦ some (error_value (codes "ERR protocol error"), db)
    | c ∷ args ↦
        if is_array (type_of req)
        then elim (find (to_upper (text_of c)) (init env)) [
          | none ↦ some (error_value (codes "ERR unknown command"), db)
          | some handler ↦ handler args db
        ]
        else some (error_value (codes "ERR protocol error"), db)
  ]

  -- The part of the loop for a client that may run commands.
  unfoldable pub serve : Bool → Value → Server → Option Served
  serve authed req s = do
    done ← dispatch_command req s.db
    some (record {
      authed = authed;
      mode =
          if eq_str (command_name req) (codes "SUBSCRIBE")
          then pubsub_mode
          else if eq_str (command_name req) (codes "MONITOR")
          then monitor_mode
          else command_mode;
      reply = done.0;
      server = record {
        db = done.1;
        monitors = monitor_publish req s.monitors;
        next_monitor = s.next_monitor;
        stats = inc_commands s.stats;
      };
    })

  -- The round of the loop for a client that has not authenticated yet.
  unfoldable pub serve_guest : Value → Server → Option Served
  serve_guest req s =
      if eq_str (command_name req) (codes "AUTH")
      then (dispatch_command req s.db >>= λ done. some (record {
        authed = is_ok done.0;
        mode = command_mode;
        reply = done.0;
        server = record s { db = done.1 };
      }))
      else if eq_str (command_name req) (codes "PING") || eq_str (command_name req) (codes "QUIT")
      then serve false req s
      else some (record { authed = false; mode = command_mode; reply = noauth; server = s })

  unfoldable pub handle_request : Bool → Value → Server → Option Served
  handle_request authed req s = if authed then serve true req s else serve_guest req s

  -- The loop over the requests of a connection, which ends where the mode changes: the replies, and
  -- how it stands then.
  unfoldable pub handle_conn : Bool → List Value → Server → Option (List Value × Bool × Server)
  handle_conn authed [] s = some ([], authed, s)
  handle_conn authed (req ∷ rest) s = handle_request authed req s >>= λ r. elim r.mode [
    | command_mode ↦ handle_conn r.authed rest r.server >>= λ (replies, authed', s').
        some (r.reply ∷ replies, authed', s')
    | pubsub_mode ↦ some (r.reply ∷ [], r.authed, r.server)
    | monitor_mode ↦ some (r.reply ∷ [], r.authed, r.server)
  ]

  -- A connection from its start: the gate is open where no password is configured.
  unfoldable pub open_conn : List Value → Server → Option (List Value × Bool × Server)
  open_conn requests s = handle_conn (eq_str env.auth []) requests s

-- `envs n` is what the `n`-th command of the file takes from elsewhere: each reads the clock anew.
module _ (envs : ℕ → Env) where
  -- The callback of `loadAOF`, which counts the commands.
  unfoldable pub replay_next : Str → List Value → ℕ × Db → Option (ℕ × Db)
  replay_next name args (n, db) = replay (envs n) name args db >>= λ db'. some (n + 1, db')

  -- `loadAOF`. The flag `replaying` is on while the file is replayed.
  unfoldable pub load_aof : Db → Decoded Db
  load_aof db = elim db.aof [
    | none ↦ ok db
    | some a ↦
        bind (load replay_next a (0, set_replaying true db))
          λ (n, db'). ok (set_replaying false db')
  ]
