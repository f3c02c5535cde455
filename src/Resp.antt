-- ===== src/Resp.antt =====
-- internal/protocol/resp/resp.go: values, their encoding, and the decoder over the bytes that a
-- reader still holds (a reader at its end fails).
pub mod Total
pub mod Lines
pub mod RoundTrip
pub mod Panics
pub mod Cut
pub mod Torn
mod Tests
use valkeydb.Base.{
  ℕ, zero, suc, ◌+◌, ◌-◌, ◌*◌, ◌^◌, Bool, true, false, Option, none, some, List, [], ◌∷◌, ◌++◌, Str,
  codes, ltb, leb, ◌==◌, length, take, drop, max_alloc, if◌then◌else◌,
}
use valkeydb.Base.Int.{ℤ, pos, negsuc}
use valkeydb.Decimal.{format_ℕ, format_int, parse_int}

-- `Type byte`: its six constants, and any other byte.
pub data RespType : Type 0 where
  simple_string error integer bulk_string array null : RespType
  other : ℕ → RespType

-- `Value{Type, Text, Number, Items, IsNil}`, and `[]Value`.
mutual
  pub data Value : Type 0 where
    value : RespType → Str → ℤ → Values → Bool → Value

  pub data Values : Type 0 where
    nil : Values
    cons : Value → Values → Values

abbrev pub type_of : Value → RespType
type_of (value t text n items is_nil) = t

abbrev pub text_of : Value → Str
text_of (value t text n items is_nil) = text

abbrev pub items_of : Value → Values
items_of (value t text n items is_nil) = items

unfoldable pub to_list : Values → List Value
to_list nil = []
to_list (cons v vs) = v ∷ to_list vs

unfoldable pub of_list : List Value → Values
of_list [] = nil
of_list (v ∷ vs) = cons v (of_list vs)

abbrev pub simple : Str → Value
simple text = value simple_string text (pos 0) nil false

abbrev pub error_value : Str → Value
error_value text = value error text (pos 0) nil false

abbrev pub number : ℤ → Value
number n = value integer [] n nil false

abbrev pub bulk : Str → Value
bulk text = value bulk_string text (pos 0) nil false

abbrev pub nil_bulk : Value
nil_bulk = value bulk_string [] (pos 0) nil true

abbrev pub array_value : Values → Value
array_value items = value array [] (pos 0) items false

abbrev pub nil_array : Value
nil_array = value array [] (pos 0) nil true

-- "\r\n"
abbrev pub crlf : Str
crlf = 13 ∷ 10 ∷ []

unfoldable pub count_items : Values → ℕ
count_items nil = 0
count_items (cons v vs) = suc (count_items vs)

unfoldable mutual
  pub encode : Value → Str
  encode (value simple_string text n items is_nil) = b'+' ∷ (text ++ crlf)
  encode (value error text n items is_nil) = b'-' ∷ (text ++ crlf)
  encode (value integer text n items is_nil) = b':' ∷ (format_int n ++ crlf)
  encode (value bulk_string text n items true) = codes "$-1" ++ crlf
  encode (value bulk_string text n items false) =
      b'$' ∷ (format_ℕ (length text) ++ (crlf ++ (text ++ crlf)))
  encode (value array text n items true) = codes "*-1" ++ crlf
  encode (value array text n items false) =
      b'*' ∷ (format_ℕ (count_items items) ++ (crlf ++ encode_all items))
  encode (value null text n items is_nil) = []
  encode (value (other t) text n items is_nil) = []

  pub encode_all : Values → Str
  encode_all nil = []
  encode_all (cons v vs) = encode v ++ encode_all vs

-- `failed` is an error return, `panicked` a run-time panic; `out_of_fuel` has no counterpart in the
-- source, and `decode` below never gives it.
pub data Decoded {ℓ} (A : Type ℓ) : Type ℓ where
  ok : A → Decoded A
  failed panicked out_of_fuel : Decoded A

abbrev pub bind {ℓ κ} : {A : Type ℓ} {B : Type κ} → Decoded A → (A → Decoded B) → Decoded B
bind (ok a) f = f a
bind failed f = failed
bind panicked f = panicked
bind out_of_fuel f = out_of_fuel

abbrev pub or_failed {ℓ} : {A : Type ℓ} → Option A → Decoded A
or_failed none = failed
or_failed (some a) = ok a

-- `r.ReadString('\n')` without the newline.
unfoldable pub read_string : Str → Option (Str × Str)
read_string [] = none
read_string (c ∷ s) =
    if c == 10
    then some ([], s)
    else elim (read_string s) [ none ↦ none | some (line, rest) ↦ some (c ∷ line, rest) ]

-- `strings.TrimSuffix(line, "\r")`
unfoldable pub trim_cr : Str → Str
trim_cr [] = []
trim_cr (c ∷ []) = if c == 13 then [] else c ∷ []
trim_cr (c ∷ d ∷ s) = c ∷ trim_cr (d ∷ s)

unfoldable pub read_line : Str → Option (Str × Str)
read_line s = elim (read_string s) [ none ↦ none | some (line, rest) ↦ some (trim_cr line, rest) ]

unfoldable pub read_line_value : RespType → Str → Decoded (Value × Str)
read_line_value t s =
    bind (or_failed (read_line s)) λ (line, rest). ok (value t line (pos 0) nil false, rest)

unfoldable pub read_integer : Str → Decoded (Value × Str)
read_integer s =
    bind (or_failed (read_line s))
      λ (line, rest). bind (or_failed (parse_int line)) λ n. ok (number n, rest)

-- `make([]byte, n+2)`, `io.ReadFull` and `buf[:n]`. Below -1 one of the three panics: `make` for a
-- length under 0, the slice for -2.
unfoldable pub read_body : ℤ → Str → Decoded (Value × Str)
read_body (negsuc zero) s = ok (nil_bulk, s)
read_body (negsuc (suc n)) s = panicked
read_body (pos n) s =
    if ltb max_alloc (n + 2)
    then panicked
    else if leb (n + 2) (length s)
    then ok (bulk (take n s), drop (n + 2) s)
    else failed

unfoldable pub read_bulk_string : Str → Decoded (Value × Str)
read_bulk_string s =
    bind (or_failed (read_line s))
      λ (line, rest). bind (or_failed (parse_int line)) λ n. read_body n rest

-- A `Value` takes 64 bytes.
abbrev pub value_bytes : ℕ
value_bytes = 64

-- What `readArray` does with the count, where `values` reads that many values.
unfoldable pub read_items : (ℕ → Str → Decoded (Values × Str)) → ℤ → Str → Decoded (Value × Str)
read_items values (negsuc zero) s = ok (nil_array, s)
read_items values (negsuc (suc n)) s = panicked
read_items values (pos n) s =
    if ltb max_alloc (n * value_bytes)
    then panicked
    else bind (values n s) λ (items, rest). ok (array_value items, rest)

unfoldable pub read_array : (ℕ → Str → Decoded (Values × Str)) → Str → Decoded (Value × Str)
read_array values s =
    bind (or_failed (read_line s))
      λ (line, rest). bind (or_failed (parse_int line)) λ count. read_items values count rest

-- `Decode`, where `values` is the loop of `readArray`.
unfoldable pub decode_with : (ℕ → Str → Decoded (Values × Str)) → Str → Decoded (Value × Str)
decode_with values [] = failed
decode_with values (prefix ∷ s) =
    if prefix == b'+'
    then read_line_value simple_string s
    else if prefix == b'-'
    then read_line_value error s
    else if prefix == b':'
    then read_integer s
    else if prefix == b'$'
    then read_bulk_string s
    else if prefix == b'*'
    then read_array values s
    else failed

-- The loop of `readArray`, on fuel: each round decodes one value.
unfoldable pub decode_items : ℕ → ℕ → Str → Decoded (Values × Str)
decode_items zero count s = out_of_fuel
decode_items (suc fuel) count s =
    let more =
      bind (decode_with (decode_items fuel) s) λ (v, rest).
        bind (decode_items fuel (count - 1) rest) λ (vs, rest'). ok (cons v vs, rest') in
    if count == 0 then ok (nil, s) else more

-- Each nesting level and each round takes a byte at least.
unfoldable pub decode : Str → Decoded (Value × Str)
decode s = decode_with (decode_items (length s + 1)) s
