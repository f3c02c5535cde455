-- ===== src/Decimal.antt =====
-- Integers in decimal: `%d` and `strconv.FormatInt`, `strconv.Atoi` and `strconv.ParseInt` at base
-- 10 and 64 bits. Twenty digits are enough for an int64 and a length.
pub mod RoundTrip
mod Tests
use valkeydb.Base.{
  ℕ, zero, suc, ◌+◌, ◌-◌, ◌*◌, ◌/◌, ◌%◌, ◌^◌, ◌≡◌, refl, Bool, ◌||◌, Option, none, some, [], ◌∷◌,
  Str, codes, ltb, leb, ◌==◌, if◌then◌else◌, ◌>>=◌,
}
use valkeydb.Base.Int.{ℤ, pos, negsuc}

-- The digits of `n` in front of `out`.
unfoldable pub digits : ℕ → ℕ → Str → Str
digits zero n out = out
digits (suc f) n out =
    let more = digits f (n / 10) ((b'0' + n % 10) ∷ out) in
    if ltb n 10 then (b'0' + n) ∷ out else more

unfoldable pub format_ℕ : ℕ → Str
format_ℕ n = digits 20 n []

unfoldable pub format_int : ℤ → Str
format_int (pos n) = format_ℕ n
format_int (negsuc n) = b'-' ∷ format_ℕ (suc n)

unfoldable pub scan : ℕ → Str → Option ℕ
scan n [] = some n
scan n (c ∷ s) = if ltb c b'0' || ltb b'9' c then none else scan (n * 10 + (c - b'0')) s

-- One digit or more.
unfoldable pub unsigned : Str → Option ℕ
unsigned [] = none
unsigned (c ∷ s) = scan 0 (c ∷ s)

unfoldable pub positive : Str → Option ℤ
positive s = unsigned s >>= λ n. if ltb n (2 ^ 63) then some (pos n) else none

-- `negsuc (n - 1)` is -n; -0 is 0.
unfoldable pub negative : Str → Option ℤ
negative s = unsigned s >>= λ n.
    if n == 0 then some (pos 0) else if leb n (2 ^ 63) then some (negsuc (n - 1)) else none

unfoldable pub parse_int : Str → Option ℤ
parse_int [] = none
parse_int (c ∷ s) =
    if c == b'-' then negative s else if c == b'+' then positive s else positive (c ∷ s)

min_int64 : parse_int (codes "-9223372036854775808") ≡ some (negsuc (2 ^ 63 - 1))
unfolding parse_int positive negative unsigned scan
min_int64 = refl

overflow : parse_int (codes "9223372036854775808") ≡ none
unfolding parse_int positive unsigned scan
overflow = refl

format-max : format_ℕ (2 ^ 63) ≡ codes "9223372036854775808"
unfolding format_ℕ digits
format-max = refl
