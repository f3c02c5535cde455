-- ===== src/Decimal/RoundTrip.antt =====
-- What is printed reads back.
use valkeydb.Base.{
  ℕ, zero, suc, ◌+◌, ◌/◌, ◌%◌, ◌^◌, ◌≤◌, ◌<◌, ◌≡◌, refl, ◌≢◌, ◌∙◌, some, [], ◌∷◌, Str, arith,
}
use mathlib.Core.List.{cons-ne-nil}
use native.Mathlib.Nat.{pow-suc}
use valkeydb.Base.Int.{ℤ, pos, negsuc, IsInt64}
use valkeydb.Decimal.{digits, format_ℕ, format_int, scan, unsigned, positive, negative, parse_int}

-- Every character of a text is a digit.
abbrev pub AreDigits : Str → Type 0
AreDigits [] = Unit
AreDigits (c ∷ s) = (b'0' ≤ c) × (c ≤ b'9') × AreDigits s

digits-AreDigits : (f n : ℕ) (out : Str) → AreDigits out → AreDigits (digits f n out)
unfolding digits
digits-AreDigits zero n out h = h
digits-AreDigits (suc f) n out h =
    ground (arith, h, digits-AreDigits f (n / 10) ((b'0' + n % 10) ∷ out))

-- Reading the last digit of `n` after the digits before it gives `n`.
scan_last : (n : ℕ) (out : Str) → scan (n / 10) ((b'0' + n % 10) ∷ out) ≡ scan n out
unfolding scan
scan_last n out = ground arith

pow_step : (f n : ℕ) → n < 10 ^ suc f → n / 10 < 10 ^ f
pow_step f n h = omega (arith, pow-suc 10 f)

scan-digits : (f n : ℕ) (out : Str) → n < 10 ^ suc f → scan 0 (digits (suc f) n out) ≡ scan n out
unfolding digits scan
scan-digits zero n out h = ground arith
scan-digits (suc f) n out h =
    ground (
      arith,
      scan-digits f (n / 10) ((b'0' + n % 10) ∷ out) (pow_step (suc f) n h),
      scan_last n out,
    )

digits-ne-nil : (f n : ℕ) (out : Str) → out ≢ [] → digits f n out ≢ []
unfolding digits
digits-ne-nil zero n out h = h
digits-ne-nil (suc f) n out h = ground (arith, digits-ne-nil f (n / 10) ((b'0' + n % 10) ∷ out))

scan-nil : (n : ℕ) → scan n [] ≡ some n
unfolding scan
scan-nil n = refl

digits-suc_ne_nil : (f n : ℕ) → digits (suc f) n [] ≢ []
unfolding digits
digits-suc_ne_nil f n =
    ground (arith, digits-ne-nil f (n / 10) ((b'0' + n % 10) ∷ []) (cons-ne-nil (b'0' + n % 10) []))

format_ℕ-ne-nil : (n : ℕ) → format_ℕ n ≢ []
unfolding format_ℕ
format_ℕ-ne-nil n = digits-suc_ne_nil 19 n

unsigned-scan : (s : Str) → s ≢ [] → unsigned s ≡ scan 0 s
unfolding unsigned
unsigned-scan [] h = absurd (h refl)
unsigned-scan (c ∷ s) h = refl

scan-format_ℕ : (n : ℕ) → n < 10 ^ 20 → scan 0 (format_ℕ n) ≡ some n
unfolding format_ℕ
scan-format_ℕ n h = scan-digits 19 n [] h ∙ scan-nil n

pub unsigned-format_ℕ : (n : ℕ) → n < 10 ^ 20 → unsigned (format_ℕ n) ≡ some n
unsigned-format_ℕ n h = unsigned-scan (format_ℕ n) (format_ℕ-ne-nil n) ∙ scan-format_ℕ n h

pub format_ℕ-AreDigits : (n : ℕ) → AreDigits (format_ℕ n)
unfolding format_ℕ
format_ℕ-AreDigits n = digits-AreDigits 20 n [] tt

-- A text that begins with a digit has no sign.
parse_int-unsigned : (s : Str) → AreDigits s → parse_int s ≡ positive s
unfolding parse_int positive unsigned
parse_int-unsigned [] h = refl
parse_int-unsigned (c ∷ s) h = ground arith

positive-format_ℕ : (n : ℕ) → n < 2 ^ 63 → positive (format_ℕ n) ≡ some (pos n)
unfolding positive
positive-format_ℕ n h = ground (arith, unsigned-format_ℕ n (omega arith))

negative-format_ℕ : (n : ℕ) → n < 2 ^ 63 → negative (format_ℕ (suc n)) ≡ some (negsuc n)
unfolding negative
negative-format_ℕ n h = ground (arith, unsigned-format_ℕ (suc n) (omega arith))

pub parse_int-format_ℕ : (n : ℕ) → n < 2 ^ 63 → parse_int (format_ℕ n) ≡ some (pos n)
parse_int-format_ℕ n h =
    parse_int-unsigned (format_ℕ n) (format_ℕ-AreDigits n) ∙ positive-format_ℕ n h

-- Every int64 is read back from its print.
pub parse_int-format_int : (z : ℤ) → IsInt64 z → parse_int (format_int z) ≡ some z
unfolding format_int
parse_int-format_int (pos n) h = parse_int-format_ℕ n h.0
parse_int-format_int (negsuc n) h = unfold parse_int in negative-format_ℕ n h.1
