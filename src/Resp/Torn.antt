-- ===== src/Resp/Torn.antt =====
-- Values that are cut off.
use valkeydb.Base.{
  ℕ, zero, suc, ◌+◌, ◌-◌, ◌≤◌, ◌<◌, ◌≡◌, refl, ◌++◌, arith, length, take, take-append_left,
  take-append_right, length-take, length-append, inl, inr, less_or,
}
use valkeydb.Decimal.{format_ℕ, format_int}
use valkeydb.Resp.{
  simple_string, error, Value, Values, crlf, count_items, encode, encode_all, ok, failed,
  decode_with, decode_items, decode,
}
use valkeydb.Resp.RoundTrip.{
  IsWire, simple_wire, error_wire, integer_wire, bulk_wire, nil_bulk_wire, array_wire,
  nil_array_wire, AreWire, none_wire, next_wire, decode_with-encode, cost-encode,
}
use valkeydb.Resp.Cut.{
  read_line_value-torn, read_integer-torn, read_bulk_string-torn, read_array-torn, nil_bulk-torn,
  nil_array-torn,
}

-- A list of values whose first one is cut off, and one whose first one is whole.
decode_items-first :
    (v : Value) (vs : Values) (n f : ℕ)
    → n < length (encode v)
    → decode_with (decode_items f) (take n (encode v)) ≡ failed
    → decode_items (suc f) (suc (count_items vs)) (take n (encode v ++ encode_all vs)) ≡ failed
unfolding decode_items
decode_items-first v vs n f l e =
    rw (take-append_left n (encode v) (encode_all vs) (omega arith), decode_items, e) (ground arith)

decode_items-next :
    (v : Value) (vs : Values) (n f : ℕ)
    → length (encode v) ≤ n
    → decode_with (decode_items f) (encode v ++ take (n - length (encode v)) (encode_all vs))
      ≡ ok (v, take (n - length (encode v)) (encode_all vs))
    → decode_items f (count_items vs) (take (n - length (encode v)) (encode_all vs)) ≡ failed
    → decode_items (suc f) (suc (count_items vs)) (take n (encode v ++ encode_all vs)) ≡ failed
unfolding decode_items
decode_items-next v vs n f l e t =
    let one : suc (count_items vs) - 1 ≡ count_items vs = omega arith in
    rw (take-append_right n (encode v) (encode_all vs) l, decode_items, e, one, t) (ground arith)

mutual
  unfolding encode decode_with count_items

  decode_with-torn :
      (v : Value)
      → IsWire v
      → (n f : ℕ) → n < length (encode v)
      → n ≤ f
      → decode_with (decode_items f) (take n (encode v)) ≡ failed
  decode_with-torn _ (simple_wire text h) zero f l c = refl
  decode_with-torn _ (simple_wire text h) (suc n) f l c =
      read_line_value-torn simple_string text n h (omega (arith, length-append text crlf))
  decode_with-torn _ (error_wire text h) zero f l c = refl
  decode_with-torn _ (error_wire text h) (suc n) f l c =
      read_line_value-torn error text n h (omega (arith, length-append text crlf))
  decode_with-torn _ (integer_wire z h) zero f l c = refl
  decode_with-torn _ (integer_wire z h) (suc n) f l c =
      read_integer-torn z n (omega (arith, length-append (format_int z) crlf))
  decode_with-torn _ (bulk_wire text h) zero f l c = refl
  decode_with-torn _ (bulk_wire text h) (suc n) f l c = read_bulk_string-torn text n h (
      omega (
        arith,
        length-append (format_ℕ (length text)) (crlf ++ (text ++ crlf)),
        length-append text crlf,
      ))
  decode_with-torn _ nil_bulk_wire zero f l c = refl
  decode_with-torn _ nil_bulk_wire (suc n) f l c = nil_bulk-torn n (omega arith)
  decode_with-torn _ (array_wire vs h w) zero f l c = refl
  decode_with-torn _ (array_wire vs h w) (suc n) f l c =
      read_array-torn (decode_items f) vs (encode_all vs) n h
        (λ m small short. decode_items-torn vs w m f short (omega arith))
        (omega (arith, length-append (format_ℕ (count_items vs)) (crlf ++ encode_all vs)))
  decode_with-torn _ nil_array_wire zero f l c = refl
  decode_with-torn _ nil_array_wire (suc n) f l c = nil_array-torn (decode_items f) n (omega arith)

  decode_items-torn :
      (vs : Values)
      → AreWire vs
      → (n f : ℕ) → n < length (encode_all vs)
      → n < f
      → decode_items f (count_items vs) (take n (encode_all vs)) ≡ failed
  decode_items-torn _ none_wire n f l c = absurd (omega arith)
  decode_items-torn _ (next_wire v vs w ws) n zero l c = absurd (omega arith)
  decode_items-torn _ (next_wire v vs w ws) n (suc f) l c = elim (less_or n (length (encode v))) [
    | inl cut ↦ decode_items-first v vs n f cut (decode_with-torn v w n f cut (omega arith))
    | inr whole ↦
        decode_items-next v vs n f whole
          (decode_with-encode v w f _ (omega (arith, cost-encode v w)))
          (decode_items-torn vs ws (n - length (encode v)) f
            (omega (arith, length-append (encode v) (encode_all vs)))
            (omega (arith, cost-encode v w)))
  ]

-- A value that is fit for the wire and cut off before its end is an error to the decoder.
pub decode-torn :
    (v : Value) (n : ℕ) → IsWire v → n < length (encode v) → decode (take n (encode v)) ≡ failed
unfolding decode
decode-torn v n w l =
    decode_with-torn v w n (length (take n (encode v)) + 1) l
      (omega (arith, length-take n (encode v) (omega arith)))
