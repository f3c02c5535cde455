-- ===== src/Resp/Total.antt =====
-- The decoder ends on every input, and its fuel is enough.
use valkeydb.Base.{
  ℕ, zero, suc, ◌+◌, ◌-◌, ◌*◌, ◌≤◌, ◌<◌, ◌≡◌, ◌≢◌, Bool, true, false, some, [], ◌∷◌, arith, Str,
  max_alloc, length, drop, ltb, leb, ◌==◌, if◌then◌else◌, Option-cases, inl, inr,
}
use mathlib.Core.Path.{subst}
use valkeydb.Base.Int.{ℤ, pos, negsuc}
use valkeydb.Decimal.{parse_int}
use valkeydb.Resp.{
  RespType, simple_string, error, Values, Decoded, ok, failed, panicked, out_of_fuel, bind,
  or_failed, read_string, read_line, read_line_value, read_integer, read_body, read_bulk_string,
  read_items, read_array, decode_with, decode_items, decode, value_bytes,
}

-- The run kept within its fuel, and what it left has at most `n` bytes.
abbrev pub Leaves {ℓ} : {A : Type ℓ} → ℕ → Decoded (A × Str) → Type 0
Leaves n (ok (a, rest)) = length rest ≤ n
Leaves n failed = Unit
Leaves n panicked = Unit
Leaves n out_of_fuel = ⊥

Leaves-bind {ℓ κ} :
    {A : Type ℓ} {B : Type κ} (n m : ℕ) (r : Decoded (A × Str)) (f : A × Str → Decoded (B × Str))
    → Leaves n r
    → ((a : A) (rest : Str) → length rest ≤ n → Leaves m (f (a, rest)))
    → Leaves m (bind r f)
Leaves-bind n m (ok (a, rest)) f h k = k a rest h
Leaves-bind n m failed f h k = tt
Leaves-bind n m panicked f h k = tt
Leaves-bind n m out_of_fuel f h k = h

Leaves-mono {ℓ} : {A : Type ℓ} (n m : ℕ) (r : Decoded (A × Str)) → n ≤ m → Leaves n r → Leaves m r
Leaves-mono n m (ok (a, rest)) le h = omega arith
Leaves-mono n m failed le h = tt
Leaves-mono n m panicked le h = tt
Leaves-mono n m out_of_fuel le h = h

Leaves-if {ℓ} :
    {A : Type ℓ} (n : ℕ) (b : Bool) (r r' : Decoded (A × Str))
    → Leaves n r
    → Leaves n r'
    → Leaves n (if b then r else r')
Leaves-if n true r r' h k = h
Leaves-if n false r r' h k = k

read_string-lt : (s line rest : Str) → read_string s ≡ some (line, rest) → length rest < length s
unfolding read_string
read_string-lt [] line rest h = cc
read_string-lt (c ∷ s) line rest h = elim (Option-cases (read_string s)) [
  | inl e ↦ ground (arith, e)
  | inr ((l, r), e) ↦ ground (arith, e, read_string-lt s l r)
]

read_line-Leaves : (s : Str) → Leaves (length s - 1) (or_failed (read_line s))
unfolding read_line
read_line-Leaves s = elim (Option-cases (read_string s)) [
  | inl e ↦ rw (e, read_line) tt
  | inr ((l, r), e) ↦ rw (e, read_line) (omega (arith, read_string-lt s l r e))
]

length-drop-le : (n : ℕ) (s : Str) → length (drop n s) ≤ length s
length-drop-le zero s = omega arith
length-drop-le (suc n) [] = omega arith
length-drop-le (suc n) (c ∷ s) = omega (arith, length-drop-le n s)

read_body-Leaves : (n : ℤ) (s : Str) → Leaves (length s) (read_body n s)
unfolding read_body
read_body-Leaves (negsuc zero) s = omega arith
read_body-Leaves (negsuc (suc n)) s = tt
read_body-Leaves (pos n) s =
    Leaves-if (length s) (ltb max_alloc (n + 2)) panicked _ tt
      (Leaves-if (length s) (leb (n + 2) (length s)) _ failed (length-drop-le (n + 2) s) tt)

parsed-Leaves {ℓ} :
    {A : Type ℓ} (n : ℕ) (line : Str) (f : ℤ → Decoded (A × Str))
    → ((z : ℤ) → Leaves n (f z))
    → Leaves n (bind (or_failed (parse_int line)) f)
parsed-Leaves n line f h = elim (Option-cases (parse_int line)) [
  | inl e ↦ rw e tt
  | inr (z, e) ↦ rw e (h z)
]

read_line_value-Leaves : (t : RespType) (s : Str) → Leaves (length s) (read_line_value t s)
unfolding read_line_value
read_line_value-Leaves t s =
    Leaves-bind (length s - 1) (length s) (or_failed (read_line s)) _ (read_line-Leaves s)
      λ line rest l. omega arith

read_integer-Leaves : (s : Str) → Leaves (length s) (read_integer s)
unfolding read_integer
read_integer-Leaves s =
    Leaves-bind (length s - 1) (length s) (or_failed (read_line s)) _ (read_line-Leaves s)
      λ line rest l. parsed-Leaves (length s) line _ λ z. omega arith

read_bulk_string-Leaves : (s : Str) → Leaves (length s) (read_bulk_string s)
unfolding read_bulk_string
read_bulk_string-Leaves s =
    Leaves-bind (length s - 1) (length s) (or_failed (read_line s)) _ (read_line-Leaves s)
      λ line rest l. parsed-Leaves (length s) line _ λ z.
        Leaves-mono (length rest) (length s) (read_body z rest) (omega arith)
          (read_body-Leaves z rest)

-- Where the loop over the items leaves no more than it got, so does a value, and takes a byte.
module _ (values : ℕ → Str → Decoded (Values × Str)) (n : ℕ)
    (h : (count : ℕ) (s : Str) → length s ≤ n → Leaves (length s) (values count s)) where
  read_items-Leaves : (z : ℤ) (s : Str) → length s ≤ n → Leaves (length s) (read_items values z s)
  unfolding read_items
  read_items-Leaves (negsuc zero) s le = omega arith
  read_items-Leaves (negsuc (suc m)) s le = tt
  read_items-Leaves (pos m) s le =
      Leaves-if (length s) (ltb max_alloc (m * value_bytes)) panicked _ tt
        (Leaves-bind (length s) (length s) (values m s) _ (h m s le) (λ vs rest l. l))

  read_array-Leaves : (s : Str) → length s ≤ n → Leaves (length s) (read_array values s)
  unfolding read_array
  read_array-Leaves s le =
      Leaves-bind (length s - 1) (length s) (or_failed (read_line s)) _ (read_line-Leaves s)
        λ line rest l. parsed-Leaves (length s) line _ λ z.
          Leaves-mono (length rest) (length s) (read_items values z rest) (omega arith)
            (read_items-Leaves z rest (omega arith))

  decode_with-Leaves : (s : Str) → length s ≤ suc n → Leaves n (decode_with values s)
  unfolding decode_with
  decode_with-Leaves [] le = tt
  decode_with-Leaves (prefix ∷ s) le =
      Leaves-mono (length s) n (decode_with values (prefix ∷ s)) (omega arith) (
        Leaves-if (length s) (prefix == b'+') _ _ (read_line_value-Leaves simple_string s) (
          Leaves-if (length s) (prefix == b'-') _ _ (read_line_value-Leaves error s) (
            Leaves-if (length s) (prefix == b':') _ _ (read_integer-Leaves s) (
              Leaves-if (length s) (prefix == b'$') _ _ (read_bulk_string-Leaves s) (
                Leaves-if (length s) (prefix == b'*') (read_array values s) failed
                  (read_array-Leaves s (omega arith)) tt)))))

decode_items-Leaves :
    (fuel count : ℕ) (s : Str) → length s < fuel → Leaves (length s) (decode_items fuel count s)
unfolding decode_items decode_with
decode_items-Leaves zero count s h = absurd (omega arith)
decode_items-Leaves (suc fuel) count [] h = Leaves-if 0 (count == 0) _ failed (omega arith) tt
decode_items-Leaves (suc fuel) count (c ∷ s) h =
    Leaves-if (suc (length s)) (count == 0) _ _ (omega arith) (
      Leaves-bind (length s) (suc (length s)) (decode_with (decode_items fuel) (c ∷ s)) _
        (decode_with-Leaves (decode_items fuel) (length s)
          (λ n r le. decode_items-Leaves fuel n r (omega arith)) (c ∷ s) (omega arith))
        λ v rest l.
          Leaves-bind (length rest) (suc (length s)) (decode_items fuel (count - 1) rest) _
            (decode_items-Leaves fuel (count - 1) rest (omega arith)) λ vs rest' l'. omega arith)

-- Decoding ends within its fuel, and what it leaves of the input is shorter.
pub decode-Leaves : (c : ℕ) (s : Str) → Leaves (length s) (decode (c ∷ s))
unfolding decode
decode-Leaves c s =
    decode_with-Leaves (decode_items (length (c ∷ s) + 1)) (length s)
      (λ count r le. decode_items-Leaves (length (c ∷ s) + 1) count r (omega arith)) (c ∷ s)
      (omega arith)

-- Decoding ends within its fuel on every input: the result is a value, an error or a panic.
pub decode-total : (s : Str) → decode s ≢ out_of_fuel
decode-total [] = unfold decode decode_with in λ e. cc
decode-total (c ∷ s) = λ e. subst (Leaves (length s)) e (decode-Leaves c s)
