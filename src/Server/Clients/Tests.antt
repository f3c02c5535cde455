-- ===== src/Server/Clients/Tests.antt =====
-- Two connections to a server with a password.
use valkeydb.Base.{
  List, ◌≡◌, refl, ap, ◌∙◌, append_assoc, subst, ◌≢◌, true, false, some, [], ◌∷◌, ◌++◌, Str, codes,
  arith, eq_str, to_upper,
}
use valkeydb.Base.Map.{get, put}
use valkeydb.Resp.{
  Value, simple, decode, ok, bulk, array_value, nil, cons, encode, to_list, text_of, count_items,
}
use valkeydb.Resp.RoundTrip.{decode-encode, IsWire, array_wire, bulk_wire, none_wire, next_wire}
use valkeydb.Aof.{is_array, encode_entries, open_aof}
use valkeydb.Rdb.{in_use}
use valkeydb.Command.Strings.{cmd_ping}
use valkeydb.Base.Int.{pos}
use valkeydb.Command.{Env}
use valkeydb.Command.Tests.{env}
use valkeydb.Command.Registry.{
  find, init, register, register_all, dict_commands, set_commands, list_commands, system_commands,
  pubsub_commands, hash_commands,
}
use valkeydb.Server.{
  Server, Served, command_mode, command_name, handle_request, serve, serve_guest, dispatch_command,
  monitor_publish,
}
use valkeydb.Server.Guest.{IsGuess}
use valkeydb.Command.System.{inc_commands}
use valkeydb.Server.Lifecycle.{new_db}
use valkeydb.Server.Clients.{Reach, Any, requests, accepts, act, acts, start, later}
use valkeydb.Server.Rounds.{System, Conn, env_at, accept_conn, reading}
use valkeydb.Server.Clients.Sound.{Inv}
use valkeydb.Server.Clients.Counts.{Reach-Inv}
use valkeydb.Server.Clients.Guests.{Reach-Outside}
use valkeydb.Server.Clients.Barred.{AllOutside, SameStores, Guesses}
use valkeydb.Server.Clients.Stores.{Reach-Well}
use valkeydb.Server.Clients.Upkeep.{Well}
use valkeydb.Pubsub.Run.{new_pubsub-IsSound}
use valkeydb.Server.Clients.Answers.{act-request, answer_all, with_conn, grown, requests-Reach}

abbrev ping : Value
ping = array_value (cons (bulk (codes "PING")) nil)

abbrev quiet : Conn
quiet = record { authed = false; phase = reading; input = []; output = [] }

abbrev sending : Conn
sending = record quiet { input = encode_entries (ping ∷ ping ∷ []) ++ codes "*1" }

abbrev system : System
system = record {
  server = record {
    db = new_db (open_aof [] true);
    monitors = (0, ping ∷ []) ∷ [];
    next_monitor = 1;
    stats = record { total_cmds = 0; total_conns = 2; current_conns = 2 };
  };
  conns = quiet ∷ sending ∷ [];
  running = [];
  saving = 0;
  rdb = record { file = in_use; enabled = true };
  disk = [];
}

system-Inv : Inv system
system-Inv = record {
  counted = refl;
  cmds = omega arith;
  conns = omega arith;
  short = (omega arith, tt);
}

accepted : act (codes "s") accepts system ≡ some (accept_conn (codes "s") system)
unfolding act
accepted = refl

Reach-Inv_example : Inv (accept_conn (codes "s") system)
Reach-Inv_example =
    Reach-Inv (codes "s") system (accept_conn (codes "s") system) system-Inv
      (later start (acts accepts tt accepted))

secret : codes "s" ≢ []
secret e = cc

ping-IsWire : IsWire ping
unfolding count_items
ping-IsWire =
    array_wire _ (omega arith) (next_wire _ _ (bulk_wire (codes "PING") (omega arith)) none_wire)

abbrev ponged : Served
ponged = record {
  authed = false;
  mode = command_mode;
  reply = simple (codes "PONG");
  server = record system.server {
    monitors = monitor_publish ping system.server.monitors;
    stats = inc_commands system.server.stats;
  };
}

served :
    handle_request (env_at (record env { auth = codes "s" }) system) false ping system.server
    ≡ some ponged
unfolding handle_request serve serve_guest dispatch_command command_name find init register
    register_all dict_commands set_commands list_commands system_commands pubsub_commands
    hash_commands get put to_upper eq_str cmd_ping to_list is_array
served = refl

abbrev later_input : Str
later_input = encode_entries (ping ∷ []) ++ codes "*1"

first_ping : decode sending.input ≡ ok (ping, later_input)
unfolding encode_entries
first_ping =
    rw (append_assoc (encode ping) (encode_entries (ping ∷ [])) (codes "*1"))
      (decode-encode ping later_input ping-IsWire)

-- The second connection after its first request.
abbrev answered : System
answered = record system {
  server = ponged.server;
  conns =
      quiet ∷ record sending { input = later_input; output = encode (simple (codes "PONG")) } ∷ [];
}

answers : act (codes "s") (requests env 1 true) system ≡ some answered
answers =
    act-request (codes "s") env 1 system sending ping later_input ponged refl refl first_ping served
      refl

ping-named : (c : Value) → bulk (codes "PING") ≡ c → to_upper (text_of c) ≢ codes "AUTH"
unfolding to_upper
ping-named c e = rw (← e) (λ n. ground arith)

ping-IsGuess : IsGuess (codes "s") ping
unfolding to_list
ping-IsGuess c args e t n = let p : bulk (codes "PING") ≡ c = cc in absurd (ping-named c p n)

guesses : Guesses (codes "s") (requests env 1 true) system
guesses c req rest e d =
    let same : sending ≡ c = ground (arith, e) in
    let read : decode sending.input ≡ ok (req, rest) = ap (λ x. decode x.input) same ∙ d in
    let found : ping ≡ req = cc (read, first_ping) in subst (IsGuess (codes "s")) found ping-IsGuess

Reach-Outside_example : AllOutside answered.conns × SameStores system.server.db answered.server.db
Reach-Outside_example =
    Reach-Outside (codes "s") system answered secret ((refl, refl), ((refl, refl), tt))
      (later start (acts (requests env 1 true) guesses answers))

abbrev pong : Value
pong = simple (codes "PONG")

abbrev twice : Server
twice = record ponged.server {
  monitors = monitor_publish ping ponged.server.monitors;
  stats = inc_commands ponged.server.stats;
}

abbrev pings : List (Env × Value)
pings = (env, ping) ∷ (record env { clock = λ n. pos 9 }, ping) ∷ []

all_served :
    answer_all (codes "s") system.saving false pings system.server
    ≡ some (pong ∷ pong ∷ [], false, twice)
unfolding answer_all handle_request serve serve_guest dispatch_command command_name find init
    register register_all dict_commands set_commands list_commands system_commands pubsub_commands
    hash_commands get put to_upper eq_str cmd_ping to_list is_array
all_served = refl

requests-Reach_example :
    Reach
      (codes "s")
      Any
      system
      (with_conn 1 (grown sending (codes "*1") (pong ∷ pong ∷ []) false) twice system)
requests-Reach_example =
    requests-Reach (codes "s") 1 pings (codes "*1") system sending (pong ∷ pong ∷ []) false twice
      refl refl refl (ping-IsWire, (ping-IsWire, tt)) all_served

well : Well system
unfolding get
well = record {
  dict = tt;
  set = tt;
  members = λ key item e. absurd (ground (arith, e));
  list = tt;
  hash = record { keys_once = tt; hashes = λ key hash e. absurd (ground (arith, e)) };
  pubsub = new_pubsub-IsSound;
}

Reach-Well_example : Well answered
Reach-Well_example =
    Reach-Well (codes "s") system answered well
      (later start (acts (requests env 1 true) tt answers))
