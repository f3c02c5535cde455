-- ===== src/Server/Rounds.antt =====
-- internal/server/server.go: the rounds of a connection, side by side with the other ones:
-- handleConn, pubsubMode and monitorMode, from one operation that is shared to the next.
use valkeydb.Base.{
  ℕ, Bool, Option, none, some, List, [], ◌∷◌, ◌++◌, Str, eq_str, ◌==◌, get_elem?, set,
  if◌then◌else◌, ◌>>=◌,
}
use valkeydb.Pubsub.{Queue}
use valkeydb.Resp.{Value, ok, failed, panicked, out_of_fuel, encode, decode}
use valkeydb.Rdb.{Snapshot, Disk, Rdb}
use valkeydb.Command.{Env}
use valkeydb.Command.System.{inc_connections, dec_connections}
use valkeydb.Server.{
  Server, Mode, command_mode, pubsub_mode, monitor_mode, handle_request, monitor_subscribe,
  monitor_unsubscribe,
}

-- Where a connection stands: in the loop of `handleConn`, at the call of `pubsubMode` or of
-- `monitorMode`, in the loop of one of these, or at its end.
pub data Phase : Type 0 where
  reading to_pubsub to_monitor closed : Phase
  subscribed watching : ℕ → Phase

-- `input` is what the client has sent and the server has not read, `output` what the server has
-- written.
pub record Conn : Type 0 where
  pub authed : Bool
  pub phase : Phase
  pub input : Str
  pub output : Str

-- `running` are the goroutines of BGSAVE that have taken their snapshot, with the file each one
-- writes; `saving` is `bgsaveInProg`.
pub record System : Type 0 where
  pub server : Server
  pub conns : List Conn
  pub running : List (Str × Snapshot)
  pub saving : ℕ
  pub rdb : Rdb
  pub disk : Disk

-- What INFO reads of the counters is what they are.
unfoldable pub env_at : Env → System → Env
env_at env s = record env {
  runtime = record env.runtime { stats = s.server.stats; bgsave_in_prog = s.saving };
}

-- `acceptLoop`: a connection is counted, and starts.
unfoldable pub accept_conn : Str → System → System
accept_conn auth s = record s {
  server = record s.server { stats = inc_connections s.server.stats };
  conns =
      s.conns ++ record { authed = eq_str auth []; phase = reading; input = []; output = [] } ∷ [];
}

unfoldable pub set_conn : ℕ → Conn → System → System
set_conn i c s = record s { conns = set s.conns i c }

-- The end of a connection.
unfoldable pub close_conn : ℕ → Conn → System → System
close_conn i c s = record s {
  server = record s.server { stats = dec_connections s.server.stats };
  conns = set s.conns i (record c { phase = closed });
}

-- A value is written, or the connection ends.
unfoldable pub write_response : ℕ → Conn → Value → Bool → System → System
write_response i c v sent s =
    if sent then set_conn i (record c { output = c.output ++ encode v }) s else close_conn i c s

abbrev pub next_phase : Mode → Phase
next_phase command_mode = reading
next_phase pubsub_mode = to_pubsub
next_phase monitor_mode = to_monitor

-- A round of `handleConn`, from a request that has come in. `none` is a panic, which ends the
-- program.
unfoldable pub answer : Env → ℕ → Conn → Bool → Value → Str → System → Option System
answer env i c sent req rest s = do
  r ← handle_request (env_at env s) c.authed req s.server
  some (
      write_response i (record c { authed = r.authed; phase = next_phase r.mode; input = rest })
        r.reply sent (record s { server = r.server }))

-- The read of the next request: `none` also where it has to wait.
unfoldable pub read_request : Env → ℕ → Conn → Bool → System → Option System
read_request env i c sent s = elim (decode c.input) [
  | ok (req, rest) ↦ answer env i c sent req rest s
  | failed ↦ none
  | panicked ↦ none
  | out_of_fuel ↦ none
]

-- The read fails: the input is no request, or it ends too early and the client is gone or too slow.
unfoldable pub read_error : ℕ → Conn → System → Option System
read_error i c s = elim (decode c.input) [
  | ok (req, rest) ↦ none
  | failed ↦ some (close_conn i c s)
  | panicked ↦ none
  | out_of_fuel ↦ none
]

-- `GetSubChannel`, at the start of `pubsubMode`.
unfoldable pub enter_pubsub : ℕ → Conn → System → System
enter_pubsub i c s = elim s.server.db.sub_chan [
  | none ↦ close_conn i c s
  | some ch ↦ set_conn i (record c { phase = subscribed ch }) s
]

unfoldable pub enter_monitor : ℕ → Conn → System → System
enter_monitor i c s =
    let (ch, server) = monitor_subscribe s.server in
    set_conn i (record c { phase = watching ch }) (record s { server = server })

abbrev pub with_queues : List Queue → Server → Server
with_queues queues s = record s {
  db = record s.db { pubsub = record s.db.pubsub { queues = queues } };
}

-- A receive from the channel: `none` where it has to wait. The loop ends where it is closed and
-- empty.
unfoldable pub receive_message : ℕ → Conn → ℕ → Bool → System → Option System
receive_message i c ch sent s = get_elem? s.server.db.pubsub.queues ch >>= λ q. elim q.buffer [
  | [] ↦ if q.closed then some (close_conn i c s) else none
  | msg ∷ rest ↦ some (
      write_response i c msg sent (record s {
        server =
            with_queues (set s.server.db.pubsub.queues ch (record q { buffer = rest })) s.server;
      }))
]

unfoldable pub head_line :
    ℕ → List Value → List (ℕ × List Value) → Option (Value × List (ℕ × List Value))
head_line i [] monitors = none
head_line i (line ∷ buffer) monitors = some (line, (i, buffer) ∷ monitors)

-- The first line of a monitor's buffer, and the buffers without it.
unfoldable pub take_line : ℕ → List (ℕ × List Value) → Option (Value × List (ℕ × List Value))
take_line ch [] = none
take_line ch ((i, buffer) ∷ monitors) =
    let rest = take_line ch monitors in
    if i == ch
    then head_line i buffer monitors
    else elim rest [ none ↦ none | some (line, monitors') ↦ some (line, (i, buffer) ∷ monitors') ]

-- A receive in `monitorMode`. Where the write fails the channel is removed.
unfoldable pub receive_line : ℕ → Conn → ℕ → Bool → System → Option System
receive_line i c ch sent s = take_line ch s.server.monitors >>= λ (line, monitors).
    let server = record s.server { monitors = monitors } in
    some (
      write_response i c line sent
        (record s { server = if sent then server else monitor_unsubscribe ch server }))
