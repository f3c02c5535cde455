-- ===== src/Config/Tests.antt =====
-- The configuration that the repository ships.
use valkeydb.Base.{◌≡◌, refl, true, some, none, codes, arith}
use valkeydb.Base.Int.{pos}
use valkeydb.Config.{Config, load, rewrite_ticker, check_ticker}
use valkeydb.Config.Intervals.{period, tickers_lem}

abbrev pub shipped : Config
shipped = record {
  server = record {
    addr = codes ":6379";
    read_timeout = pos 300;
    write_timeout = pos 300;
    auth = codes "secretpassword";
  };
  persistence = record {
    aof = record { enabled = true; filename = codes "appendonly.aof"; rewrite_interval = pos 60 };
    rdb = record { enabled = true; filename = codes "dump.rdb" };
  };
  datastructure = record {
    expiration = record { max_sample_size = 20; max_sample_rounds = 3; check_interval = pos 1 };
  };
  logging = record { level = codes "info"; verbose_persistence = true };
}

load_run :
    load (λ p. some (codes "yaml")) (λ s. some shipped) (codes "config.yaml") none
    ≡ (true, some shipped)
unfolding load
load_run = refl

tickers_lem_example :
    (rewrite_ticker shipped ≡ period 60) × (check_ticker (some shipped) ≡ period 1)
tickers_lem_example = tickers_lem shipped 60 1 refl refl (omega arith) (omega arith)
