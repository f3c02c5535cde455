-- ===== src/Decimal/Tests.antt =====
-- Numbers in decimal, at examples.
use valkeydb.Base.{◌≡◌, some, arith}
use valkeydb.Base.Int.{negsuc}
use valkeydb.Decimal.{format_int, parse_int}
use valkeydb.Decimal.RoundTrip.{parse_int-format_int}

parse_int-format_int_example : parse_int (format_int (negsuc 41)) ≡ some (negsuc 41)
parse_int-format_int_example = parse_int-format_int (negsuc 41) (omega arith, omega arith)
