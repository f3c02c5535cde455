-- ===== src/Server/Pops/Tests.antt =====
-- A pop of 2^43 items from a list of three.
use valkeydb.Base.{◌≡◌, refl, ◌≢◌, none, some, [], ◌∷◌, codes, arith, eq_str, to_upper, true}
use valkeydb.Base.Int.{pos}
use valkeydb.Decimal.{parse_int, positive, unsigned, scan}
use valkeydb.ListStore.Tests.{store, lists, store-Stands}
use valkeydb.Resp.{Value, bulk, array_value, cons, nil, to_list, text_of}
use valkeydb.Aof.{is_array}
use valkeydb.Command.Tests.{env, db}
use valkeydb.Server.{Server, handle_conn}
use valkeydb.Server.Session.{Asks}
use valkeydb.Server.Pops.{right, pop_name, handle_conn-unfit_pop}

abbrev key : Value
key = bulk (codes "k")

abbrev count : Value
count = bulk (codes "8796093022208")

abbrev req : Value
req = array_value (cons (bulk (codes "rpop")) (cons key (cons count nil)))

req-Asks : Asks req (pop_name right) (key ∷ count ∷ [])
unfolding to_list is_array to_upper
req-Asks = record { command = bulk (codes "rpop"); parts = refl; array = refl; named = refl }

count-parsed : parse_int (text_of count) ≡ some (pos 8_796_093_022_208)
unfolding parse_int positive unsigned scan
count-parsed = refl

abbrev server : Server
server = record {
  db = record db { list = store };
  monitors = [];
  next_monitor = 0;
  stats = record { total_cmds = 0; total_conns = 1; current_conns = 1 };
}

k-full : lists (text_of key) ≢ []
unfolding eq_str
k-full e = cc

handle_conn-unfit_pop_example : handle_conn env true (req ∷ []) server ≡ none
handle_conn-unfit_pop_example =
    handle_conn-unfit_pop env right req key count (pos 8_796_093_022_208) [] server lists req-Asks
      count-parsed (omega arith) store-Stands.holds k-full
