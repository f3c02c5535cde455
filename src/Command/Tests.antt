-- ===== src/Command/Tests.antt =====
-- The commands at a server with a string, a set, a hash and a list.
use valkeydb.Base.{
  ℕ, ◌≡◌, refl, ◌⊎◌, ◌++◌, none, some, List, [], ◌∷◌, arith, codes, true, false, ltb, eq_str,
}
use valkeydb.Base.Int.{pos, IsInt64, ◌+ℤ◌, scale, wrap64}
use valkeydb.Base.Map.{get, put, has}
use valkeydb.Clock.{seconds, unix_milli, to_unix_milli}
use valkeydb.Decimal.{parse_int, positive, unsigned, scan}
use valkeydb.Item.{zero_item, value_item}
use valkeydb.Dict.{expire_at}
use valkeydb.SetStore
use valkeydb.SetStore.{Set}
use valkeydb.ListStore.{Floats}
use valkeydb.HashStore.{fields_of, hget}
use valkeydb.Pubsub.{new_pubsub}
use valkeydb.Resp.{Value, bulk, number, text_of, encode}
use valkeydb.Aof.Load.{IsOpen}
use valkeydb.Aof.{Aof, append, entry, load_value, pexpireat}
use valkeydb.Command.{Db, Env, Runtime, append_if, log_if, log, texts, set_replaying}
use valkeydb.Command.Hashes.{cmd_hset}
use valkeydb.Command.Sets.{cmd_sexpire, cmd_sadd}
use valkeydb.Command.Registry.{replay}
use valkeydb.Command.Replay.{sadd, name_of, handler_of, with_file}
use valkeydb.Command.Logged.{Unlogged, replay-logged}
use valkeydb.Command.Unlogged.{cmd_hset-overwrite, cmd_sexpire-replay}

abbrev floats : Floats
floats = record { Float = ℕ; parse_float = λ s. none; less = ltb }

abbrev quiet : Runtime
quiet = record {
  started_at = pos 0;
  alloc = 4096;
  stats = record { total_cmds = 0; total_conns = 0; current_conns = 0 };
  aof_enabled = false;
  rdb_enabled = false;
  bgsave_in_prog = 0;
}

abbrev pub env : Env
env = record {
  clock = λ n. pos 1_000_000_000;
  auth = codes "secret";
  matches = λ p n. eq_str p n;
  floats = floats;
  sort_slice = λ less xs. xs;
  runtime = quiet;
}

abbrev file : Aof
file = record { file = []; unlinked = none; enabled = true; replaying = false }

abbrev pub db : Db
db = record {
  dict = (codes "k", value_item (codes "v")) ∷ [];
  set = (codes "k", record zero_item { members = (codes "a", tt) ∷ [] }) ∷ [];
  list = [];
  hash = (codes "h", (codes "f", codes "1") ∷ []) ∷ [];
  pubsub = new_pubsub;
  sub_chan = none;
  sub_name = [];
  saves = [];
  aof = some file;
}

abbrev args : List Value
args = bulk (codes "k") ∷ bulk (codes "b") ∷ bulk (codes "a") ∷ []

abbrev sadd_entry : Value
sadd_entry = entry (name_of sadd ∷ texts args)

abbrev added : Db
added = record db {
  set = (codes "k", record zero_item { members = (codes "a", tt) ∷ (codes "b", tt) ∷ [] }) ∷ [];
  aof = some (append sadd_entry file);
}

ran : handler_of sadd args db ≡ some (number (pos 1), added)
unfolding cmd_sadd log_if append_if texts SetStore.sadd SetStore.add_members SetStore.item_or_new
    put get eq_str
ran = refl

file-IsOpen : IsOpen file
file-IsOpen = record { on = refl; writing = refl; linked = refl }

replay-logged_example :
    Unlogged db (number (pos 1), added)
    ⊎ ((v : Value) × (added.aof ≡ some (record file { file = [] ++ encode v }))
        × (with_file (some file) (load_value (replay env) v (set_replaying true db))
            ≡ some (record added { aof = some file })))
replay-logged_example =
    replay-logged env sadd args db added (number (pos 1)) file refl file-IsOpen ran

has-f :
    has (text_of (bulk (codes "f"))) (fields_of (get (text_of (bulk (codes "h"))) db.hash)) ≡ true
unfolding fields_of get eq_str
has-f = refl

cmd_hset-overwrite_example :
    (db' : Db) × (cmd_hset (bulk (codes "h") ∷ bulk (codes "f") ∷ bulk (codes "2") ∷ []) db
      ≡ some (number (pos 0), db'))
    × (hget (codes "h") (codes "f") db'.hash ≡ some (codes "2"))
    × (db'.aof ≡ db.aof)
cmd_hset-overwrite_example =
    cmd_hset-overwrite (bulk (codes "h")) (bulk (codes "f")) (bulk (codes "2")) db has-f

parse-7 : parse_int (text_of (bulk (codes "7"))) ≡ some (pos 7)
unfolding parse_int positive unsigned scan
parse-7 = refl

has-k : has (text_of (bulk (codes "k"))) db.set ≡ true
unfolding get eq_str
has-k = refl

milli-IsInt64 : IsInt64 (to_unix_milli (env.clock 1 +ℤ seconds (pos 7)))
unfolding to_unix_milli ◌+ℤ◌ seconds wrap64 scale
milli-IsInt64 = (omega arith, omega arith)

cmd_sexpire-replay_example :
    let entry = pexpireat (codes "k") (env.clock 1 +ℤ seconds (pos 7)) in
    let at = unix_milli (to_unix_milli (env.clock 1 +ℤ seconds (pos 7))) in
    ((s : Set) × (cmd_sexpire env (bulk (codes "k") ∷ bulk (codes "7") ∷ []) db
        ≡ some (number (pos 1), log entry (record db { set = s }))))
    × (load_value (replay env) entry db
        ≡ some (record db { dict = (expire_at (codes "k") at (env.clock 0) db.dict).1 }))
cmd_sexpire-replay_example =
    cmd_sexpire-replay env (bulk (codes "k")) (bulk (codes "7")) (pos 7) db db parse-7 has-k
      milli-IsInt64
