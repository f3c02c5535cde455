-- ===== src/Server/Clients.antt =====
-- internal/server/server.go: the server with its connections and goroutines. What one of them does
-- between two operations that it shares with the others is an action; the order of the actions is
-- open. The rounds of a connection are in Server.Rounds.
pub mod Buffers
pub mod Sound
pub mod Moves
pub mod Counts
pub mod Barred
pub mod Guests
pub mod Answers
pub mod Expiry
pub mod Upkeep
pub mod Stores
mod Tests
use valkeydb.Base.{
  ℕ, zero, suc, ◌+◌, ◌<◌, ◌≡◌, Bool, true, false, Option, none, some, List, [], ◌∷◌, ◌++◌, Str,
  eq_str, ◌==◌, length, get_elem?, set, if◌then◌else◌, ◌>>=◌,
}
use valkeydb.Clock.{Time}
use valkeydb.Config.{ExpirationConfig}
use valkeydb.Dict
use valkeydb.Dict.{Samples}
use valkeydb.SetStore
use valkeydb.Pubsub.{Pubsub, Queue}
use valkeydb.Resp.{Value, Decoded, ok, failed, panicked, out_of_fuel, encode, decode}
use valkeydb.Rdb.{Snapshot, Disk, Rdb, Storage, save}
use valkeydb.Command.{Db, Env, Stats}
use valkeydb.Command.System.{inc_connections, dec_connections}
use valkeydb.Server.{
  Server, Served, Mode, command_mode, pubsub_mode, monitor_mode, handle_request, monitor_subscribe,
  monitor_unsubscribe,
}
use valkeydb.Server.Persist.{take_snapshot, rewrite_aof}
use valkeydb.Server.Rounds.{
  reading, to_pubsub, to_monitor, closed, subscribed, watching, Phase, Conn, System, env_at,
  accept_conn, set_conn, close_conn, write_response, next_phase, answer, read_request, read_error,
  enter_pubsub, enter_monitor, with_queues, receive_message, head_line, take_line, receive_line,
}

-- A goroutine of BGSAVE, the `k`-th of those that have not run: the flag goes up, and the stores are
-- copied.
unfoldable pub remove_at {ℓ} : {A : Type ℓ} → ℕ → List A → List A
remove_at k [] = []
remove_at zero (x ∷ xs) = xs
remove_at (suc k) (x ∷ xs) = x ∷ remove_at k xs

unfoldable pub begin_save : (ℕ → Time) → (ℕ → Time) → ℕ → System → Option System
begin_save dict_clock set_clock k s = do
  filename ← get_elem? s.server.db.saves k
  snapshot ← take_snapshot dict_clock set_clock s.server.db
  some (record s {
    server = record s.server { db = record s.server.db { saves = remove_at k s.server.db.saves } };
    running = s.running ++ (filename, snapshot) ∷ [];
    saving = 1;
  })

-- The end of one: the snapshot is saved, an error is reported, and the flag goes down.
unfoldable pub end_save : Storage → ℕ → System → Option System
end_save storage k s = do
  job ← get_elem? s.running k
  some (record s {
    running = remove_at k s.running;
    saving = 0;
    disk = (save storage s.rdb job.1 job.0 s.disk).1;
  })

unfoldable pub rewrite_log : (ℕ → Time) → (ℕ → Time) → System → Option System
rewrite_log dict_clock set_clock s = do
  db ← rewrite_aof dict_clock set_clock s.server.db
  some (record s { server = record s.server { db = db } })

-- The ticks of the two loops of active expiration.
unfoldable pub expire_dict : Option ExpirationConfig → Samples → System → System
expire_dict config r s = record s {
  server = record s.server {
    db = record s.server.db { dict = Dict.active_expire config r s.server.db.dict };
  };
}

unfoldable pub expire_set : Option ExpirationConfig → Samples → System → System
expire_set config r s = record s {
  server = record s.server {
    db = record s.server.db { set = SetStore.active_expire config r s.server.db.set };
  };
}

-- An action, with what it takes from elsewhere. `sent` is whether the write of a reply succeeds.
pub data Action : Type 1 where
  accepts : Action
  receives : (i : ℕ) (bytes : Str) → Action
  requests : (env : Env) (i : ℕ) (sent : Bool) → Action
  ends : (i : ℕ) → Action
  enters : (i : ℕ) → Action
  delivers : (i : ℕ) (sent : Bool) → Action
  begins_save : (dict_clock set_clock : ℕ → Time) (k : ℕ) → Action
  ends_save : (storage : Storage) (k : ℕ) → Action
  rewrites : (dict_clock set_clock : ℕ → Time) → Action
  expires_dict expires_set : (config : Option ExpirationConfig) (r : Samples) → Action

-- What a connection does next, by where it stands.
unfoldable pub enter : ℕ → Conn → System → Option System
enter i c s = elim c.phase [
  | to_pubsub ↦ some (enter_pubsub i c s)
  | to_monitor ↦ some (enter_monitor i c s)
  | _ ↦ none
]

unfoldable pub deliver : ℕ → Bool → Conn → System → Option System
deliver i sent c s = elim c.phase [
  | subscribed ch ↦ receive_message i c ch sent s
  | watching ch ↦ receive_line i c ch sent s
  | _ ↦ none
]

abbrev pub is_reading : Phase → Bool
is_reading reading = true
is_reading _ = false

-- `none` where the action is not open, and where it panics.
unfoldable pub act : Str → Action → System → Option System
act auth accepts s = some (accept_conn auth s)
act auth (receives i bytes) s =
    get_elem? s.conns i >>= λ c. some (set_conn i (record c { input = c.input ++ bytes }) s)
act auth (requests env i sent) s = get_elem? s.conns i >>= λ c.
    if is_reading c.phase then read_request (record env { auth = auth }) i c sent s else none
act auth (ends i) s =
    get_elem? s.conns i >>= λ c. if is_reading c.phase then read_error i c s else none
act auth (enters i) s = get_elem? s.conns i >>= λ c. enter i c s
act auth (delivers i sent) s = get_elem? s.conns i >>= λ c. deliver i sent c s
act auth (begins_save dict_clock set_clock k) s = begin_save dict_clock set_clock k s
act auth (ends_save storage k) s = end_save storage k s
act auth (rewrites dict_clock set_clock) s = rewrite_log dict_clock set_clock s
act auth (expires_dict config r) s = some (expire_dict config r s)
act auth (expires_set config r) s = some (expire_set config r s)

-- One action of any connection or goroutine, under a condition on the actions.
pub data Step (auth : Str) (P : Action → System → Type 0) (s t : System) : Type 1 where
  acts : (a : Action) → P a s → act auth a s ≡ some t → Step auth P s t

-- The systems that come of `s`.
pub data Reach (auth : Str) (P : Action → System → Type 0) (s : System) : System → Type 1 where
  start : Reach auth P s s
  later : {t u : System} → Reach auth P s t → Step auth P t u → Reach auth P s u

-- No condition.
abbrev pub Any : Action → System → Type 0
Any a s = Unit
