-- ===== src/Server/Tests.antt =====
-- A connection at a server with a password.
use valkeydb.Base.{ℕ, ◌≡◌, refl, ◌≢◌, none, [], ◌∷◌, codes, true, false, ltb, eq_str, to_upper}
use valkeydb.Base.Int.{pos}
use valkeydb.Clock.{Time}
use valkeydb.ListStore.{Floats}
use valkeydb.Pubsub.{new_pubsub}
use valkeydb.Resp.{Value, bulk, array_value, cons, nil, to_list, items_of, type_of, text_of}
use valkeydb.Aof.{is_array}
use valkeydb.Command.{Env, Runtime}
use valkeydb.Server.{Server, open_conn}
use valkeydb.Server.Gate.{open_conn-bare_auth}

abbrev floats : Floats
floats = record { Float = ℕ; parse_float = λ s. none; less = ltb }

abbrev quiet : Runtime
quiet = record {
  started_at = pos 0;
  alloc = 4096;
  stats = record { total_cmds = 0; total_conns = 0; current_conns = 0 };
  aof_enabled = false;
  rdb_enabled = false;
  bgsave_in_prog = 0;
}

abbrev env : Env
env = record {
  clock = λ n. pos 1_000_000_000;
  auth = codes "s";
  matches = λ p n. eq_str p n;
  floats = floats;
  sort_slice = λ less xs. xs;
  runtime = quiet;
}

abbrev server : Server
server = record {
  db = record {
    dict = [];
    set = [];
    list = [];
    hash = [];
    pubsub = new_pubsub;
    sub_chan = none;
    sub_name = [];
    saves = [];
    aof = none;
  };
  monitors = [];
  next_monitor = 0;
  stats = record { total_cmds = 0; total_conns = 0; current_conns = 0 };
}

secret : env.auth ≢ []
secret = λ e. cc

abbrev bare : Value
bare = array_value (cons (bulk (codes "AUTH")) nil)

bare-items : to_list (items_of bare) ≡ bulk (codes "AUTH") ∷ []
unfolding to_list
bare-items = refl

bare-array : is_array (type_of bare) ≡ true
unfolding is_array
bare-array = refl

bare-name : to_upper (text_of (bulk (codes "AUTH"))) ≡ codes "AUTH"
unfolding to_upper
bare-name = refl

open_conn-bare_auth_example : open_conn env (bare ∷ []) server ≡ none
open_conn-bare_auth_example =
    open_conn-bare_auth env bare (bulk (codes "AUTH")) [] server secret bare-items bare-array
      bare-name

abbrev clock : ℕ → Time
clock n = pos 1_000_000_000
