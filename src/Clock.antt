-- ===== src/Clock.antt =====
-- What the source uses of Go's `time` package. A `Time` is a number of nanoseconds since the Unix
-- epoch, a `Duration` an int64 of nanoseconds.
use valkeydb.Base.{
  ℕ, zero, suc, ◌+◌, ◌-◌, ◌*◌, ◌/◌, ◌%◌, ◌^◌, ◌≤◌, ◌<◌, ◌≡◌, Bool, arith, ltb, leb, if◌then◌else◌,
}
use native.Mathlib.Nat.{pow-suc, pow-le-pow_right}
use valkeydb.Base.Int.{ℤ, pos, negsuc, ◌-ℤ◌, scale, ltb_ℤ, eqb_ℤ, wrap64}

abbrev pub Time : Type 0
Time = ℤ

abbrev pub Duration : Type 0
Duration = ℤ

-- `time.Time{}`, the first of January of the year 1.
abbrev pub zero_time : Time
zero_time = negsuc (62_135_596_800 * 10 ^ 9 - 1)

unfoldable pub is_zero : Time → Bool
is_zero t = eqb_ℤ t zero_time

unfoldable pub after : Time → Time → Bool
after t u = ltb_ℤ u t

unfoldable pub before : Time → Time → Bool
before t u = ltb_ℤ t u

-- `time.Duration(n) * time.Second`, in int64.
unfoldable pub seconds : ℤ → Duration
seconds n = wrap64 (scale (10 ^ 9) n)

unfoldable pub unix_milli : ℤ → Time
unix_milli ms = scale (10 ^ 6) ms

-- `t.UnixMilli()`, rounded down.
unfoldable pub to_unix_milli : Time → ℤ
to_unix_milli (pos n) = pos (n / 10 ^ 6)
to_unix_milli (negsuc n) = negsuc (n / 10 ^ 6)

-- `t.Sub(u)`, which stops at the ends of int64.
saturate : ℤ → Duration
saturate (pos n) = if ltb n (2 ^ 63) then pos n else pos (2 ^ 63 - 1)
saturate (negsuc n) = if ltb n (2 ^ 63) then negsuc n else negsuc (2 ^ 63 - 1)

unfoldable pub until : Time → Time → Duration
unfolding saturate
until t now = saturate (t -ℤ now)

-- The exponent of the float64 next to `n`: the place of its highest bit.
unfoldable pub exponent : ℕ → ℕ → ℕ
exponent zero n = 0
exponent (suc bits) n = if ltb n 2 then 0 else suc (exponent bits (n / 2))

-- The whole seconds of `d`, or one more where the rest is within half of `p / 2 ^ 52` of it.
unfoldable pub round_up : ℕ → ℕ → ℕ
round_up d p =
    if leb ((10 ^ 9 - d % 10 ^ 9) * 2 ^ 53) (10 ^ 9 * p) then d / 10 ^ 9 + 1 else d / 10 ^ 9

-- `int64(d.Seconds())` for `d` that is not negative. `Seconds` adds the whole seconds and the rest
-- in float64; the sum rounds up to the next second where the rest is within half a unit in the last
-- place (2 ^ (e - 53)) of it.
unfoldable pub whole_seconds : ℕ → ℕ
whole_seconds d = round_up d (2 ^ exponent 64 (d / 10 ^ 9))

exponent_le : (bits j n : ℕ) → n < 2 ^ suc j → exponent bits n ≤ j
unfolding exponent
exponent_le zero j n h = omega arith
exponent_le (suc bits) zero n h = ground arith
exponent_le (suc bits) (suc j) n h =
    ground (arith, exponent_le bits j (n / 2) (omega (arith, pow-suc 2 (suc j))))

round_up_bounds :
    (d p : ℕ)
    → (d / 10 ^ 9 ≤ round_up d p)
      × (round_up d p ≤ d / 10 ^ 9 + 1)
      × (p ≤ 2 ^ 23 → round_up d p ≡ d / 10 ^ 9)
unfolding round_up
round_up_bounds d p = (ground arith, ground arith, λ h. ground arith)

-- The sum is the whole seconds or one more, and below 2^24 seconds (194 days) it is never one more.
pub whole_seconds_bounds :
    (d : ℕ)
    → (d / 10 ^ 9 ≤ whole_seconds d)
      × (whole_seconds d ≤ d / 10 ^ 9 + 1)
      × (d < 2 ^ 24 * 10 ^ 9 → whole_seconds d ≡ d / 10 ^ 9)
unfolding whole_seconds
whole_seconds_bounds d =
    let b = round_up_bounds d (2 ^ exponent 64 (d / 10 ^ 9)) in
    (
      b.0,
      b.1,
      λ h. b.2 (pow-le-pow_right (omega arith) (exponent_le 64 23 (d / 10 ^ 9) (omega arith))),
    )

-- `time.Duration(n) * time.Second` is exact up to 9,223,372,036 seconds (292 years).
pub seconds-pos : (n : ℕ) → n ≤ 9_223_372_036 → seconds (pos n) ≡ pos (10 ^ 9 * n)
unfolding seconds wrap64 scale
seconds-pos n h = ground arith
