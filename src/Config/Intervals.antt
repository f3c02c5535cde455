-- ===== src/Config/Intervals.antt =====
-- The periods of the tickers.
use valkeydb.Base.{ℕ, ◌*◌, ◌^◌, ◌≤◌, ◌≡◌, Option, none, some, arith, ◌==◌, if◌then◌else◌, ◌∙◌, ap}
use valkeydb.Base.Int.{pos}
use valkeydb.Clock.{Duration, seconds, seconds-pos}
use valkeydb.Config.{
  Config, get_aof_rewrite_interval, get_expiration_check_interval, new_ticker, rewrite_ticker,
  check_ticker, check_interval_of,
}

-- A period as the configuration means it: `n` seconds, and a panic for none.
abbrev pub period : ℕ → Option Duration
period n = if n == 0 then none else some (pos (10 ^ 9 * n))

new_ticker-seconds : (n : ℕ) → n ≤ 9_223_372_036 → new_ticker (seconds (pos n)) ≡ period n
unfolding new_ticker
new_ticker-seconds n h = ground (arith, seconds-pos n h)

-- Where the rewrite interval and the check interval are numbers of seconds up to 9,223,372,036
-- (292 years), both tickers tick with exactly these intervals, and the program panics where an
-- interval is 0, as it is where the file leaves it out.
pub tickers_lem :
    (c : Config) (n m : ℕ)
    → c.persistence.aof.rewrite_interval ≡ pos n
    → c.datastructure.expiration.check_interval ≡ pos m
    → n ≤ 9_223_372_036
    → m ≤ 9_223_372_036
    → (rewrite_ticker c ≡ period n) × (check_ticker (some c) ≡ period m)
unfolding rewrite_ticker check_ticker check_interval_of get_aof_rewrite_interval
    get_expiration_check_interval
tickers_lem c n m e f h k = (
  ap (λ x. new_ticker (seconds x)) e ∙ new_ticker-seconds n h,
  ap (λ x. new_ticker (seconds x)) f ∙ new_ticker-seconds m k,
)
