-- ===== src/Resp/RoundTrip.antt =====
-- What is encoded decodes to the same value, with any bytes behind it.
use valkeydb.Base.{
  ℕ, zero, suc, ◌+◌, ◌-◌, ◌≤◌, ◌^◌, ◌≡◌, refl, true, false, some, [], ◌++◌, arith, Str, length,
  append_assoc, length-append, ◌==◌, codes,
}
use valkeydb.Base.Int.{ℤ, pos, negsuc, IsInt64}
use valkeydb.Decimal.{format_ℕ, format_int, parse_int, negative, unsigned, scan}
use valkeydb.Decimal.RoundTrip.{parse_int-format_int, parse_int-format_ℕ}
use valkeydb.Resp.{
  RespType, simple_string, error, integer, bulk_string, array, Value, value, Values, nil, cons,
  number, bulk, nil_bulk, array_value, nil_array, crlf, count_items, encode, encode_all, Decoded,
  ok, bind, read_line, read_line_value, read_integer, read_body, read_bulk_string, read_items,
  read_array, decode_with, decode_items, decode,
}
use valkeydb.Resp.Lines.{
  IsLine, read_line-crlf, format_int-IsLine, format_ℕ-IsLine, take-append, drop-append_crlf,
}

-- The values that the server sends and logs: a line has no newline, a number is an int64, and what
-- is allocated to read a value fits.
mutual
  pub data IsWire : Value → Type 0 where
    simple_wire : (text : Str) → IsLine text → IsWire (value simple_string text (pos 0) nil false)
    error_wire : (text : Str) → IsLine text → IsWire (value error text (pos 0) nil false)
    integer_wire : (n : ℤ) → IsInt64 n → IsWire (value integer [] n nil false)
    bulk_wire :
        (text : Str) → length text + 2 ≤ 2 ^ 48 → IsWire (value bulk_string text (pos 0) nil false)
    nil_bulk_wire : IsWire (value bulk_string [] (pos 0) nil true)
    array_wire :
        (vs : Values)
        → count_items vs ≤ 2 ^ 42
        → AreWire vs
        → IsWire (value array [] (pos 0) vs false)
    nil_array_wire : IsWire (value array [] (pos 0) nil true)

  pub data AreWire : Values → Type 0 where
    none_wire : AreWire nil
    next_wire : (v : Value) (vs : Values) → IsWire v → AreWire vs → AreWire (cons v vs)

-- The fuel that the decoder's loop uses on a value, and on a list.
unfoldable mutual
  pub cost : Value → ℕ
  cost (value t s n vs b) = cost_all vs

  pub cost_all : Values → ℕ
  cost_all nil = 1
  cost_all (cons v vs) = 1 + cost v + cost_all vs

read_line_value-encode :
    (t : RespType) (line rest : Str)
    → IsLine line
    → read_line_value t (line ++ (crlf ++ rest)) ≡ ok (value t line (pos 0) nil false, rest)
unfolding read_line_value
read_line_value-encode t line rest h = rw (read_line-crlf line rest h)

read_integer-encode :
    (n : ℤ) (rest : Str)
    → IsInt64 n
    → read_integer (format_int n ++ (crlf ++ rest)) ≡ ok (number n, rest)
unfolding read_integer
read_integer-encode n rest h =
    rw (read_line-crlf (format_int n) rest (format_int-IsLine n), parse_int-format_int n h)

read_bulk_string-encode :
    (s rest : Str)
    → length s + 2 ≤ 2 ^ 48
    → read_bulk_string (format_ℕ (length s) ++ (crlf ++ (s ++ (crlf ++ rest)))) ≡ ok (bulk s, rest)
unfolding read_bulk_string read_body
read_bulk_string-encode s rest h =
    rw
      (
        read_line-crlf (format_ℕ (length s)) (s ++ (crlf ++ rest)) (format_ℕ-IsLine (length s)),
        parse_int-format_ℕ (length s) (omega arith),
      )
      (ground (
        arith,
        take-append s (crlf ++ rest),
        drop-append_crlf s rest,
        length-append s (crlf ++ rest),
      ))

read_array-encode :
    (values : ℕ → Str → Decoded (Values × Str)) (vs : Values) (tail rest : Str)
    → count_items vs ≤ 2 ^ 42
    → values (count_items vs) tail ≡ ok (vs, rest)
    → read_array values (format_ℕ (count_items vs) ++ (crlf ++ tail)) ≡ ok (array_value vs, rest)
unfolding read_array read_items
read_array-encode values vs tail rest h e =
    rw
      (
        read_line-crlf (format_ℕ (count_items vs)) tail (format_ℕ-IsLine (count_items vs)),
        parse_int-format_ℕ (count_items vs) (omega arith),
      )
      (ground (arith, e))

minus_one : parse_int (codes "-1") ≡ some (negsuc 0)
unfolding parse_int negative unsigned scan
minus_one = refl

minus_one-line : (rest : Str) → read_line (codes "-1" ++ (crlf ++ rest)) ≡ some (codes "-1", rest)
minus_one-line rest = read_line-crlf (codes "-1") rest (omega arith)

nil_bulk-decodes :
    (f : ℕ) (rest : Str)
    → decode_with (decode_items f) (encode nil_bulk ++ rest) ≡ ok (nil_bulk, rest)
unfolding encode decode_with read_bulk_string read_body
nil_bulk-decodes f rest = rw (minus_one-line rest, minus_one)

nil_array-decodes :
    (f : ℕ) (rest : Str)
    → decode_with (decode_items f) (encode nil_array ++ rest) ≡ ok (nil_array, rest)
unfolding encode decode_with read_array read_items
nil_array-decodes f rest = rw (minus_one-line rest, minus_one)

not_done : (n : ℕ) → (suc n == 0) ≡ false
not_done n = ground arith

step :
    (v : Value) (vs : Values) (f : ℕ) (s rest : Str)
    → decode_items f (count_items vs) s ≡ ok (vs, rest)
    → bind {A = Values × Str} {B = Values × Str}
        (decode_items f (suc (count_items vs) - 1) s)
        (λ x. ok (cons v x.0, x.1))
      ≡ ok (cons v vs, rest)
step v vs f s rest e =
    let one : suc (count_items vs) - 1 ≡ count_items vs = omega arith in rw (one, e)

-- With enough fuel for the loop, a value and a list of values are read off the front of any bytes.
mutual
  unfolding cost encode decode_with decode_items count_items

  pub decode_with-encode :
      (v : Value)
      → IsWire v
      → (f : ℕ) (rest : Str) → cost v ≤ f
      → decode_with (decode_items f) (encode v ++ rest) ≡ ok (v, rest)
  decode_with-encode _ (simple_wire text h) f rest c =
      rw (append_assoc text crlf rest) (read_line_value-encode simple_string text rest h)
  decode_with-encode _ (error_wire text h) f rest c =
      rw (append_assoc text crlf rest) (read_line_value-encode error text rest h)
  decode_with-encode _ (integer_wire n h) f rest c =
      rw (append_assoc (format_int n) crlf rest) (read_integer-encode n rest h)
  decode_with-encode _ (bulk_wire text h) f rest c =
      rw
        (
          append_assoc (format_ℕ (length text)) (crlf ++ (text ++ crlf)) rest,
          append_assoc text crlf rest,
        )
        (read_bulk_string-encode text rest h)
  decode_with-encode _ nil_bulk_wire f rest c = nil_bulk-decodes f rest
  decode_with-encode _ (array_wire vs h w) f rest c =
      rw (append_assoc (format_ℕ (count_items vs)) (crlf ++ encode_all vs) rest) (
        read_array-encode (decode_items f) vs (encode_all vs ++ rest) rest h
          (decode_items-encode vs w f rest c))
  decode_with-encode _ nil_array_wire f rest c = nil_array-decodes f rest

  decode_items-encode :
      (vs : Values)
      → AreWire vs
      → (f : ℕ) (rest : Str) → cost_all vs ≤ f
      → decode_items f (count_items vs) (encode_all vs ++ rest) ≡ ok (vs, rest)
  decode_items-encode _ none_wire zero rest c = absurd (omega arith)
  decode_items-encode _ none_wire (suc f) rest c = refl
  decode_items-encode _ (next_wire v vs w ws) zero rest c = absurd (omega arith)
  decode_items-encode _ (next_wire v vs w ws) (suc f) rest c =
      rw
        (
          append_assoc (encode v) (encode_all vs) rest,
          decode_with-encode v w f (encode_all vs ++ rest) (omega arith),
          not_done (count_items vs),
        )
        (step v vs f (encode_all vs ++ rest) rest (decode_items-encode vs ws f rest (omega arith)))

mutual
  unfolding cost encode

  pub cost-encode : (v : Value) → IsWire v → cost v + 1 ≤ length (encode v)
  cost-encode _ (simple_wire text h) = omega (arith, length-append text crlf)
  cost-encode _ (error_wire text h) = omega (arith, length-append text crlf)
  cost-encode _ (integer_wire n h) = omega (arith, length-append (format_int n) crlf)
  cost-encode _ (bulk_wire text h) =
      omega (arith, length-append (format_ℕ (length text)) (crlf ++ (text ++ crlf)))
  cost-encode _ nil_bulk_wire = omega arith
  cost-encode _ (array_wire vs h w) = omega (
    arith,
    length-append (format_ℕ (count_items vs)) (crlf ++ encode_all vs),
    cost_all-encode vs w,
  )
  cost-encode _ nil_array_wire = omega arith

  cost_all-encode : (vs : Values) → AreWire vs → cost_all vs ≤ length (encode_all vs) + 1
  cost_all-encode _ none_wire = omega arith
  cost_all-encode _ (next_wire v vs w ws) =
      omega
        (arith, length-append (encode v) (encode_all vs), cost-encode v w, cost_all-encode vs ws)

-- A value that is fit for the wire (no newline in a line, numbers in int64, lengths that can be
-- allocated) decodes from its encoding to itself, and what stands behind it is left.
pub decode-encode : (v : Value) (rest : Str) → IsWire v → decode (encode v ++ rest) ≡ ok (v, rest)
unfolding decode
decode-encode v rest w =
    decode_with-encode v w (length (encode v ++ rest) + 1) rest
      (omega (arith, cost-encode v w, length-append (encode v) rest))
