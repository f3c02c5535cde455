-- ===== src/Aof/Io.antt =====
-- internal/persistence/aof.go: the calls that the system may refuse.
use valkeydb.Base.{
  ℕ, Bool, true, false, not, ◌||◌, none, some, List, ◌++◌, Str, take, if◌then◌else◌,
}
use valkeydb.Base.Map.{Map}
use valkeydb.Item.{Item}
use valkeydb.Resp.{Value, encode}
use valkeydb.Aof.{Aof, append, rewrite}

-- The log, and whether its handle is closed.
pub record Log : Type 0 where
  pub aof : Aof
  pub closed : Bool

-- What comes of an append: all is written and synced, `WriteString` fails behind so many bytes, or
-- `Sync` fails.
pub data Outcome : Type 0 where
  synced : Outcome
  cut_at : ℕ → Outcome
  not_synced : Outcome

-- Bytes written at the end of the file that is open.
unfoldable pub write_bytes : Str → Aof → Aof
write_bytes s a = elim a.unlinked [
  | none ↦ record a { file = a.file ++ s }
  | some old ↦ record a { unlinked = some (old ++ s) }
]

unfoldable pub written : Outcome → Value → Aof → Bool × Aof
written synced v a = (true, append v a)
written (cut_at n) v a = (false, write_bytes (take n (encode v)) a)
written not_synced v a = (false, append v a)

-- `Append`: whether there is no error, and the log afterwards. A handle that is closed takes
-- nothing.
unfoldable pub append_io : Outcome → Value → Log → Bool × Log
append_io o v l =
    if not l.aof.enabled || l.aof.replaying
    then (true, l)
    else if l.closed
    then (false, l)
    else ((written o v l.aof).0, record l { aof = (written o v l.aof).1 })

-- `RewriteWithLists`, where `done` is whether the new file is made, written, synced and put at the
-- path; the old one stays if one of these fails.
unfoldable pub rewrite_io :
    Bool → Map Item → Map Item → Map (List Item) → Map (Map Str) → Log → Bool × Log
rewrite_io done dict_dump set_dump list_dump hash_dump l =
    if not l.aof.enabled
    then (true, l)
    else if done
    then (true, record l { aof = rewrite dict_dump set_dump list_dump hash_dump l.aof })
    else (false, l)

-- `Close`
unfoldable pub close_io : Log → Bool × Log
close_io l =
    if not l.aof.enabled
    then (true, l)
    else if l.closed
    then (false, l)
    else (true, record l { closed = true })
