-- ===== src/Server/Session/Tests.antt =====
-- A key that is set for ten seconds and read by another client.
use valkeydb.Base.{
  none, ◌≡◌, refl, some, List, [], ◌∷◌, codes, arith, eq_str, ◌&&◌, if◌then◌else◌, to_upper,
}
use valkeydb.Base.Int.{wrap64, scale, pos, ltb_ℤ, ◌+ℤ◌}
use valkeydb.Resp.{Value, simple, bulk, nil_bulk, array_value, cons, nil, to_list, text_of}
use valkeydb.Aof.{is_array}
use valkeydb.Command.{Db, Env, log, append_if}
use valkeydb.Command.Strings.{cmd_set, set_ttl}
use valkeydb.Command.Tests.{env, db}
use valkeydb.Base.Map.{contains, get, put}
use valkeydb.Dict
use valkeydb.Decimal.{parse_int, positive, unsigned, scan}
use valkeydb.Clock.{seconds}
use valkeydb.Command.Registry.{
  find, init, register_all, register, dict_commands, set_commands, list_commands, system_commands,
  pubsub_commands, hash_commands,
}
use valkeydb.Command.Sequences.{cmd_llen}
use valkeydb.Server.{command_name, dispatch_command}
use valkeydb.Item.{value_item}
use valkeydb.Server.Session.{Asks, reply}
use valkeydb.Server.Session.Later.{AllElsewhere, run_requests, get-set_later}

-- Twelve seconds after the epoch.
abbrev later : Env
later = record env { clock = λ n. pos 12_000_000_000 }

abbrev key : Value
key = bulk (codes "k")

abbrev val : Value
val = bulk (codes "v")

abbrev rest : List Value
rest = bulk (codes "10") ∷ []

abbrev set_req : Value
set_req =
    array_value (cons (bulk (codes "set")) (cons key (cons val (cons (bulk (codes "10")) nil))))

abbrev get_req : Value
get_req = array_value (cons (bulk (codes "Get")) (cons key nil))

set_req-Asks : Asks set_req (codes "SET") (key ∷ val ∷ rest)
unfolding to_list is_array to_upper
set_req-Asks = record { command = bulk (codes "set"); parts = refl; array = refl; named = refl }

get_req-Asks : Asks get_req (codes "GET") (key ∷ [])
unfolding to_list is_array to_upper
get_req-Asks = record { command = bulk (codes "Get"); parts = refl; array = refl; named = refl }

abbrev len_req : Value
len_req = array_value (cons (bulk (codes "llen")) (cons key nil))

-- A server without a log.
abbrev bare : Db
bare = record db { aof = none }

abbrev after_set : Db
after_set = record bare {
  dict = (codes "k", record (value_item (codes "v")) { expired_at = pos 11_000_000_000 }) ∷ [];
}

others-AllElsewhere : AllElsewhere (later.clock 0) ((env, len_req) ∷ [])
unfolding contains command_name to_list is_array to_upper eq_str
others-AllElsewhere = ((refl, omega arith), tt)

ran : run_requests ((env, set_req) ∷ (env, len_req) ∷ []) bare ≡ some after_set
unfolding run_requests dispatch_command to_list is_array find get init register_all hash_commands
    register put pubsub_commands system_commands list_commands set_commands dict_commands eq_str
    to_upper cmd_set cmd_llen log append_if Dict.set set_ttl parse_int positive unsigned scan
    seconds wrap64 scale ◌+ℤ◌
ran = refl

get-set_later_example :
    (reply env set_req bare ≡ some (simple (codes "OK")))
    × (reply later get_req after_set ≡ (
        if eq_str (text_of key) (text_of key)
        then some (
            if ltb_ℤ (pos 0) (set_ttl rest) && ltb_ℤ (env.clock 0 +ℤ set_ttl rest) (later.clock 0)
            then nil_bulk
            else bulk (text_of val))
        else reply later get_req bare))
get-set_later_example =
    get-set_later env later set_req get_req key val key rest [] ((env, len_req) ∷ []) bare after_set
      set_req-Asks get_req-Asks (omega arith) others-AllElsewhere ran
