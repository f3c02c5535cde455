-- ===== src/Command/System.antt =====
-- internal/command/system_command.go: the handlers and the counters.
use valkeydb.Base.{
  ℕ, suc, ◌+◌, ◌-◌, ◌%◌, ◌^◌, Bool, true, false, ◌||◌, none, some, List, [], ◌∷◌, ◌++◌, Str, codes,
  eq_str, to_lower, length, if◌then◌else◌, ◌>>=◌,
}
use valkeydb.Base.Int.{ℤ, pos, negsuc, ◌-ℤ◌}
use valkeydb.Base.Map.{keys}
use valkeydb.Decimal.{format_int}
use valkeydb.Clock.{Time, Duration, whole_seconds, until}
use valkeydb.Dict
use valkeydb.SetStore
use valkeydb.HashStore
use valkeydb.ListStore
use valkeydb.Resp.{Value, simple, error_value, bulk, array_value, type_of, text_of}
use valkeydb.Aof.{bulks, is_text}
use valkeydb.Command.{Env, Handler, Stats, Runtime, wrong_number}

-- The names that the pattern matches.
unfoldable pub matching : (Str → Bool) → List Str → List Str
matching test [] = []
matching test (name ∷ names) =
    let rest = matching test names in if test name then name ∷ rest else rest

unfoldable pub bool_to_int : Bool → Str
bool_to_int true = codes "1"
bool_to_int false = codes "0"

unfoldable pub inc_commands : Stats → Stats
inc_commands stats = record stats { total_cmds = (stats.total_cmds + 1) % 2 ^ 64 }

unfoldable pub inc_connections : Stats → Stats
inc_connections stats = record stats {
  total_conns = (stats.total_conns + 1) % 2 ^ 64;
  current_conns = stats.current_conns + 1;
}

unfoldable pub dec_connections : Stats → Stats
dec_connections stats = record stats { current_conns = stats.current_conns - 1 }

-- `int(d.Seconds())`, towards zero.
unfoldable pub int_seconds : Duration → ℤ
int_seconds (pos d) = pos (whole_seconds d)
int_seconds (negsuc d) = pos 0 -ℤ pos (whole_seconds (suc d))

-- The lines of a section, each with its line end.
unfoldable pub write_lines : List Str → Str
write_lines [] = []
write_lines (line ∷ lines) = line ++ (b'\n' ∷ write_lines lines)

unfoldable pub append_section : Str → Str → List Str → Str → Str
append_section section name kv b =
    if eq_str section (codes "all") || eq_str section name then b ++ write_lines kv else b

abbrev pub count : ℕ → Str
count n = format_int (pos n)

-- The section that is asked for.
unfoldable pub section_of : List Value → Str
section_of [] = codes "all"
section_of (section ∷ _) = to_lower (text_of section)

-- What INFO writes: `now` is its first reading of the clock, and the sizes are those of the dumps of
-- the dictionary, the sets, the lists and the hashes.
unfoldable pub info_text : Str → Runtime → Time → ℕ → ℕ → ℕ → ℕ → Str
info_text section runtime now dict_count set_count list_count hash_count =
    append_section section (codes "keyspace")
      ((codes "db0:dict="
          ++ (count dict_count
              ++ (codes ",set="
                  ++ (count set_count
                      ++ (codes ",list="
                          ++ (count list_count ++ (codes ",hash=" ++ count hash_count)))))))
        ∷ [])
      (append_section section (codes "stats")
        ((codes "total_commands_processed:" ++ count runtime.stats.total_cmds) ∷ [])
        (append_section section (codes "persistence")
          ((codes "aof_enabled:" ++ bool_to_int runtime.aof_enabled)
            ∷ (codes "rdb_enabled:" ++ bool_to_int runtime.rdb_enabled)
            ∷ (codes "bgsave_in_progress:" ++ count runtime.bgsave_in_prog)
            ∷ [])
          (append_section section (codes "memory")
            ((codes "used_memory:" ++ count runtime.alloc) ∷ [])
            (append_section section (codes "clients")
              ((codes "connected_clients:" ++ count runtime.stats.current_conns)
                ∷ (codes "total_connections_received:" ++ count runtime.stats.total_conns)
                ∷ [])
              (append_section section (codes "server")
                ((codes "uptime_in_seconds:"
                    ++ format_int (int_seconds (until now runtime.started_at)))
                  ∷ [])
                [])))))

-- Nothing comes of an empty `args`: `args[0]` panics.
module _ (env : Env) where
  unfoldable pub cmd_auth : Handler
  cmd_auth [] db = none
  cmd_auth (auth ∷ []) db =
      if eq_str (text_of auth) env.auth
      then some (simple (codes "OK"), db)
      else some (error_value (codes "ERR auth is not correct"), db)
  cmd_auth (_ ∷ _ ∷ _) db = some (wrong_number (codes "auth"), db)

  unfoldable pub cmd_info : Handler
  cmd_info args db = do
    lists ← ListStore.dump db.list
    some (
      bulk (
          info_text (section_of args) env.runtime (env.clock 0)
            (length (Dict.dump (λ n. env.clock (1 + n)) db.dict))
            (length (SetStore.dump (λ n. env.clock (1 + length db.dict + n)) db.set)) (length lists)
            (length (HashStore.dump db.hash))),
      db,
    )

  unfoldable pub cmd_keys : Handler
  cmd_keys [] db = some (wrong_number (codes "keys"), db)
  cmd_keys (pattern_value ∷ _) db = do
    let test = env.matches (text_of pattern_value)
    let later : ℕ → Time = λ n. env.clock (length db.dict + n)
    lists ← ListStore.dump db.list
    some (
      array_value (
          bulks (
            matching test (keys (Dict.dump env.clock db.dict))
            ++ (matching test (keys (SetStore.dump later db.set))
                ++ (matching test (keys lists) ++ matching test (keys (HashStore.dump db.hash)))))),
      db,
    )

unfoldable pub cmd_monitor : Handler
cmd_monitor args db = some (simple (codes "OK"), db)

-- The file that BGSAVE writes.
unfoldable pub bgsave_filename : List Value → Str
bgsave_filename [] = codes "dump.rdb"
bgsave_filename (a ∷ _) = if is_text (type_of a) then text_of a else codes "dump.rdb"

-- The goroutine is started, and runs at some later time.
unfoldable pub cmd_bgsave : Handler
cmd_bgsave args db = some (
  simple (codes "Background saving started"),
  record db { saves = db.saves ++ bgsave_filename args ∷ [] },
)
