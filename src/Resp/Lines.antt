-- ===== src/Resp/Lines.antt =====
-- Lines and numbers, read off the front of a text.
use valkeydb.Base.{
  ℕ, suc, ◌+◌, ◌≡◌, refl, ◌≢◌, ◌∙◌, some, [], ◌∷◌, ◌++◌, arith, Str, length, take, drop,
  append_assoc, ap, sym, length-append,
}
use valkeydb.Base.Int.{ℤ, pos, negsuc}
use valkeydb.Decimal.{format_ℕ, format_int}
use valkeydb.Decimal.RoundTrip.{AreDigits, format_ℕ-AreDigits}
use valkeydb.Resp.{read_string, trim_cr, read_line, crlf}

-- No newline in the text.
abbrev pub IsLine : Str → Type 0
IsLine [] = Unit
IsLine (c ∷ s) = (c ≢ 10) × IsLine s

pub AreDigits-IsLine : (s : Str) → AreDigits s → IsLine s
AreDigits-IsLine [] h = tt
AreDigits-IsLine (c ∷ s) h = (omega (arith, h.0), AreDigits-IsLine s h.2)

trim_cr-append : (s : Str) → trim_cr (s ++ 13 ∷ []) ≡ s
unfolding trim_cr
trim_cr-append [] = refl
trim_cr-append (c ∷ []) = refl
trim_cr-append (c ∷ d ∷ s) = ap (λ r. c ∷ r) (trim_cr-append (d ∷ s))

read_string-crlf :
    (line rest : Str)
    → IsLine line
    → read_string (line ++ (crlf ++ rest)) ≡ some (line ++ 13 ∷ [], rest)
unfolding read_string
read_string-crlf [] rest h = refl
read_string-crlf (c ∷ line) rest h = ground (arith, read_string-crlf line rest h.1, h.0)

-- A line is read off up to its end.
pub read_line-crlf :
    (line rest : Str) → IsLine line → read_line (line ++ (crlf ++ rest)) ≡ some (line, rest)
unfolding read_line
read_line-crlf line rest h =
    rw (read_string-crlf line rest h, read_line) (ap (λ l. some (l, rest)) (trim_cr-append line))

pub format_int-IsLine : (z : ℤ) → IsLine (format_int z)
unfolding format_int
format_int-IsLine (pos n) = AreDigits-IsLine (format_ℕ n) (format_ℕ-AreDigits n)
format_int-IsLine (negsuc n) =
    (omega arith, AreDigits-IsLine (format_ℕ (suc n)) (format_ℕ-AreDigits (suc n)))

pub format_ℕ-IsLine : (n : ℕ) → IsLine (format_ℕ n)
format_ℕ-IsLine n = AreDigits-IsLine (format_ℕ n) (format_ℕ-AreDigits n)

pub take-append : (s t : Str) → take (length s) (s ++ t) ≡ s
take-append [] t = refl
take-append (c ∷ s) t = ap (λ r. c ∷ r) (take-append s t)

pub drop-append : (s t : Str) → drop (length s) (s ++ t) ≡ t
drop-append [] t = refl
drop-append (c ∷ s) t = drop-append s t

pub drop-append_crlf : (s rest : Str) → drop (length s + 2) (s ++ (crlf ++ rest)) ≡ rest
drop-append_crlf s rest =
    ap (λ n. drop n (s ++ (crlf ++ rest))) two
    ∙ ap (drop (length (s ++ crlf))) (sym (append_assoc s crlf rest))
    ∙ drop-append (s ++ crlf) rest
  where
    two : length s + 2 ≡ length (s ++ crlf)
    two = omega (arith, length-append s crlf)
