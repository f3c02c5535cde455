-- ===== src/Resp/Tests.antt =====
-- The codec at a command, and at lengths that no client should send.
use valkeydb.Base.{◌≡◌, ◌≢◌, ◌++◌, arith, codes}
use valkeydb.Base.Int.{negsuc}
use valkeydb.Resp.{
  Value, bulk, number, nil_bulk, array_value, nil, cons, count_items, encode, decode, ok,
  out_of_fuel,
}
use valkeydb.Resp.Total.{decode-total}
use valkeydb.Resp.RoundTrip.{
  IsWire, bulk_wire, integer_wire, nil_bulk_wire, array_wire, none_wire, next_wire, decode-encode,
}

abbrev command : Value
command = array_value (cons (bulk (codes "GET")) (cons (number (negsuc 4)) (cons nil_bulk nil)))

command-IsWire : IsWire command
unfolding count_items
command-IsWire = array_wire _ (omega arith) (
    next_wire _ _ (bulk_wire (codes "GET") (omega arith)) (
      next_wire _ _ (integer_wire (negsuc 4) (omega arith, omega arith))
        (next_wire _ _ nil_bulk_wire none_wire)))

decode-encode_example : decode (encode command ++ codes "*1") ≡ ok (command, codes "*1")
decode-encode_example = decode-encode command (codes "*1") command-IsWire

decode-total_example : decode (codes "*2") ≢ out_of_fuel
decode-total_example = decode-total (codes "*2")
