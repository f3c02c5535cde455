-- ===== src/Config.antt =====
-- internal/config/config.go: the configuration. Reading the file and gopkg.in/yaml.v3 are
-- parameters.
pub mod Intervals
pub mod Tests
use valkeydb.Base.{Bool, true, false, Option, none, some, Str}
use valkeydb.Base.Int.{ℤ, pos, leb_ℤ}
use valkeydb.Base.{◌^◌, ℕ, if◌then◌else◌}
use valkeydb.Clock.{Duration, seconds}

pub record ServerConfig : Type 0 where
  pub addr : Str
  pub read_timeout : ℤ
  pub write_timeout : ℤ
  pub auth : Str

pub record AofConfig : Type 0 where
  pub enabled : Bool
  pub filename : Str
  pub rewrite_interval : ℤ

pub record RdbConfig : Type 0 where
  pub enabled : Bool
  pub filename : Str

pub record PersistenceConfig : Type 0 where
  pub aof : AofConfig
  pub rdb : RdbConfig

-- The two sample limits are taken to be natural numbers.
pub record ExpirationConfig : Type 0 where
  pub max_sample_size : ℕ
  pub max_sample_rounds : ℕ
  pub check_interval : ℤ

pub record DatastructureConfig : Type 0 where
  pub expiration : ExpirationConfig

pub record LoggingConfig : Type 0 where
  pub level : Str
  pub verbose_persistence : Bool

pub record Config : Type 0 where
  pub server : ServerConfig
  pub persistence : PersistenceConfig
  pub datastructure : DatastructureConfig
  pub logging : LoggingConfig

-- What `Load` answers (`false` is an error) and leaves in `Global`. `read_file` and `unmarshal` are
-- os.ReadFile and yaml.Unmarshal.
module _ (read_file : Str → Option Str) (unmarshal : Str → Option Config) where
  unfoldable pub load : Str → Option Config → Bool × Option Config
  load path global = elim (read_file path) [
    | none ↦ (false, global)
    | some text ↦ elim (unmarshal text) [ none ↦ (false, global) | some cfg ↦ (true, some cfg) ]
  ]

unfoldable pub get_read_timeout : Config → Duration
get_read_timeout c = seconds c.server.read_timeout

unfoldable pub get_write_timeout : Config → Duration
get_write_timeout c = seconds c.server.write_timeout

unfoldable pub get_aof_rewrite_interval : Config → Duration
get_aof_rewrite_interval c = seconds c.persistence.aof.rewrite_interval

unfoldable pub get_expiration_check_interval : Config → Duration
get_expiration_check_interval c = seconds c.datastructure.expiration.check_interval

unfoldable pub get_auth : Config → Str
get_auth c = c.server.auth

-- `time.NewTicker`, which panics on a period that is not positive.
unfoldable pub new_ticker : Duration → Option Duration
new_ticker period = if leb_ℤ period (pos 0) then none else some period

-- The ticker of `startBackgroundTasks`.
unfoldable pub rewrite_ticker : Config → Option Duration
rewrite_ticker c = new_ticker (get_aof_rewrite_interval c)

-- `GetExpirationCheckInterval` of common.go. The argument is `config.Global`, which may be nil.
unfoldable pub check_interval_of : Option Config → Duration
check_interval_of none = pos (10 ^ 9)
check_interval_of (some c) = get_expiration_check_interval c

-- The ticker of `expireLoop`.
unfoldable pub check_ticker : Option Config → Option Duration
check_ticker global = new_ticker (check_interval_of global)
