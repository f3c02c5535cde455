-- ===== src/Base/Bytes.antt =====
-- Go strings: sequences of bytes, with the equality, the order and the literals of the source.
use Prim.Native.Nat.{ℕ, ◌+◌, ◌-◌, ◌^◌}
use Prim.Native.Char.{code}
use Prim.Native.String.{String}
use mathlib.Core.Path.{◌≡◌, refl}
use mathlib.Core.Logic.{◌↔◌}
use mathlib.Core.Bool.{Bool, true, false, ◌&&◌}
use mathlib.Core.List.{List, [], ◌∷◌, map}
use native.Mathlib.Omega.{arith}
use valkeydb.Base.Tests.{ltb, leb, ◌==◌, if◌then◌else◌}

abbrev pub Str : Type 0
Str = List ℕ

-- The bytes of a literal (every literal of the source is ASCII).
abbrev pub codes : String → Str
codes String.[] = []
codes (String.◌∷◌ c s) = code c ∷ codes s

unfoldable pub eq_str : Str → Str → Bool
eq_str [] [] = true
eq_str [] (b ∷ t) = false
eq_str (a ∷ s) [] = false
eq_str (a ∷ s) (b ∷ t) = (a == b) && eq_str s t

pub eq_str_iff : (s t : Str) → (eq_str s t ≡ true) ↔ (s ≡ t)
unfolding eq_str
eq_str_iff [] [] = ground arith
eq_str_iff [] (b ∷ t) = ground arith
eq_str_iff (a ∷ s) [] = ground arith
eq_str_iff (a ∷ s) (b ∷ t) = ground (arith, eq_str_iff s t)

pub eq_str_refl : (s : Str) → eq_str s s ≡ true
eq_str_refl s = (eq_str_iff s s).1 refl

-- `s < t` on Go strings, byte by byte.
unfoldable pub lt_str : Str → Str → Bool
lt_str s [] = false
lt_str [] (b ∷ t) = true
lt_str (a ∷ s) (b ∷ t) = if ltb a b then true else (a == b) && lt_str s t

is_lower : ℕ → Bool
is_lower c = leb b'a' c && leb c b'z'

-- `strings.ToUpper` on ASCII text.
unfoldable pub to_upper : Str → Str
unfolding is_lower
to_upper = map (λ c. if is_lower c then c - 32 else c)

pub to_upper_twice : (s : Str) → to_upper (to_upper s) ≡ to_upper s
unfolding to_upper is_lower
to_upper_twice [] = refl
to_upper_twice (c ∷ s) = ground (arith, to_upper_twice s)

is_upper : ℕ → Bool
is_upper c = leb b'A' c && leb c b'Z'

-- `strings.ToLower` on ASCII text.
unfoldable pub to_lower : Str → Str
unfolding is_upper
to_lower = map (λ c. if is_upper c then c + 32 else c)

-- The largest allocation of the Go runtime on 64-bit Linux: `make` panics above it.
abbrev pub max_alloc : ℕ
max_alloc = 2 ^ 48
