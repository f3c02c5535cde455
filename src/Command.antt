-- ===== src/Command.antt =====
-- internal/command: what the handlers share. The global contexts are one record, and a handler
-- takes it and gives it back beside its reply; `none` is a run-time panic.
pub mod Strings
pub mod Sets
pub mod Sequences
pub mod Hashes
pub mod Channels
pub mod System
pub mod Registry
pub mod Replay
pub mod Unlogged
pub mod Wellformed
pub mod WellformedSets
pub mod Kept
pub mod KeptHashes
pub mod KeptLists
pub mod Invariant
pub mod Tests
pub mod Frame
pub mod Registered
pub mod Logged
pub mod Readers
use valkeydb.Base.{
  ℕ, ◌+◌, Bool, true, false, Option, none, some, List, [], ◌∷◌, ◌++◌, Str, codes, if◌then◌else◌,
}
use valkeydb.Base.Int.{ℤ, pos}
use valkeydb.Clock.{Time}
use valkeydb.Item.{Item}
use valkeydb.Dict.{Dict}
use valkeydb.SetStore.{Set}
use valkeydb.ListStore.{Lists, Floats}
use valkeydb.HashStore.{HashMap}
use valkeydb.Pubsub.{Pubsub}
use valkeydb.Resp.{Value, error_value, number, text_of}
use valkeydb.Aof
use valkeydb.Aof.{Aof}

-- The stores of `DB`, the append-only file, the variables of pubsub_command.go, and in `saves` the
-- file names of the goroutines of BGSAVE that have not run yet.
pub record Db : Type 0 where
  pub dict : Dict
  pub set : Set
  pub list : Lists
  pub hash : HashMap
  pub pubsub : Pubsub
  pub sub_chan : Option ℕ
  pub sub_name : Str
  pub saves : List Str
  pub aof : Option Aof

-- `totalCmds`, `totalConns` and `currentConns`
pub record Stats : Type 0 where
  pub total_cmds : ℕ
  pub total_conns : ℕ
  pub current_conns : ℕ

-- What INFO reads beside the stores: `startedAt`, `m.Alloc`, the counters, the two `Enabled` of the
-- configuration, and `bgsaveInProg`.
pub record Runtime : Type 0 where
  pub started_at : Time
  pub alloc : ℕ
  pub stats : Stats
  pub aof_enabled : Bool
  pub rdb_enabled : Bool
  pub bgsave_in_prog : ℕ

-- What a handler takes from elsewhere: the readings of the clock, `config.Global.GetAuth()`, the
-- variables that INFO reads, and of the standard library `filepath.Match`, `strconv.ParseFloat` and
-- `sort.Slice`.
pub record Env : Type 1 where
  pub clock : ℕ → Time
  pub auth : Str
  pub matches : Str → Str → Bool
  pub floats : Floats
  pub sort_slice : (Item → Item → Bool) → List Item → List Item
  pub runtime : Runtime

abbrev pub Handler : Type 0
Handler = List Value → Db → Option (Value × Db)

unfoldable pub append_if : Value → Option Aof → Option Aof
append_if v none = none
append_if v (some a) = some (Aof.append v a)

-- `if ctx.AOF != nil { _ = ctx.AOF.Append(v) }`
unfoldable pub log : Value → Db → Db
log v db = record db { aof = append_if v db.aof }

-- The same, under `n > 0`.
unfoldable pub log_if : Bool → Value → Db → Db
log_if b v db = record db { aof = if b then append_if v db.aof else db.aof }

unfoldable pub replaying_if : Bool → Option Aof → Option Aof
replaying_if b none = none
replaying_if b (some a) = some (record a { replaying = b })

-- The file while it is loaded, and afterwards.
unfoldable pub set_replaying : Bool → Db → Db
set_replaying b db = record db { aof = replaying_if b db.aof }

unfoldable pub texts : List Value → List Str
texts [] = []
texts (a ∷ args) = text_of a ∷ texts args

abbrev pub wrong_number : Str → Value
wrong_number name = error_value (codes "ERR wrong number of arguments for '" ++ (name ++ codes "'"))

abbrev pub not_integer : Value
not_integer = error_value (codes "ERR value is not an integer or out of range")

abbrev pub one_if : Bool → Value
one_if true = number (pos 1)
one_if false = number (pos 0)
