-- ===== src/Resp/Cut.antt =====
-- Lines and the parts of a value, cut off.
use valkeydb.Base.{
  ℕ, zero, suc, ◌+◌, ◌-◌, ◌≤◌, ◌<◌, ◌^◌, ◌≡◌, refl, ◌∙◌, ap, sym, none, [], ◌∷◌, ◌++◌, arith, Str,
  length, take, length-take, length-append, codes, inl, inr, less_or,
}
use valkeydb.Base.Int.{ℤ, pos}
use valkeydb.Decimal.{format_ℕ, format_int}
use valkeydb.Decimal.RoundTrip.{parse_int-format_ℕ}
use valkeydb.Resp.{
  RespType, Values, crlf, count_items, Decoded, failed, read_string, read_line, read_line_value,
  read_integer, read_body, read_bulk_string, read_items, read_array,
}
use valkeydb.Resp.Lines.{IsLine, read_line-crlf, format_int-IsLine, format_ℕ-IsLine}

-- A line that is cut off before the newline.
pub read_string-torn :
    (line rest : Str) (n : ℕ)
    → IsLine line
    → n < length line + 2
    → read_string (take n (line ++ (crlf ++ rest))) ≡ none
unfolding read_string
read_string-torn [] rest zero h l = refl
read_string-torn [] rest (suc zero) h l = refl
read_string-torn [] rest (suc (suc n)) h l = absurd (omega arith)
read_string-torn (c ∷ line) rest zero h l = refl
read_string-torn (c ∷ line) rest (suc n) h l =
    ground (arith, read_string-torn line rest n h.1 (omega arith), h.0)

pub read_line-torn :
    (line rest : Str) (n : ℕ)
    → IsLine line
    → n < length line + 2
    → read_line (take n (line ++ (crlf ++ rest))) ≡ none
unfolding read_line
read_line-torn line rest n h l = rw (read_string-torn line rest n h l, read_line) refl

-- What is cut off behind it.
pub take-line :
    (line rest : Str) (n : ℕ)
    → length line + 2 ≤ n
    → take n (line ++ (crlf ++ rest)) ≡ line ++ (crlf ++ take (n - (length line + 2)) rest)
take-line [] rest zero h = absurd (omega arith)
take-line [] rest (suc zero) h = absurd (omega arith)
take-line [] rest (suc (suc n)) h = let e : suc (suc n) - 2 ≡ n = omega arith in rw e refl
take-line (c ∷ line) rest zero h = absurd (omega arith)
take-line (c ∷ line) rest (suc n) h =
    let e : suc n - (suc (length line) + 2) ≡ n - (length line + 2) = omega arith in
    ap (λ r. c ∷ r)
      (take-line line rest n (omega arith) ∙ ap (λ k. line ++ (crlf ++ take k rest)) (sym e))

-- What stands for the parts of a value, cut off.
pub read_line_value-torn :
    (t : RespType) (line : Str) (n : ℕ)
    → IsLine line
    → n < length line + 2
    → read_line_value t (take n (line ++ crlf)) ≡ failed
unfolding read_line_value
read_line_value-torn t line n h l = rw (read_line-torn line [] n h l) refl

pub read_integer-torn :
    (z : ℤ) (n : ℕ)
    → n < length (format_int z) + 2
    → read_integer (take n (format_int z ++ crlf)) ≡ failed
unfolding read_integer
read_integer-torn z n l = rw (read_line-torn (format_int z) [] n (format_int-IsLine z) l) refl

pub read_body-torn :
    (s : Str) (n : ℕ)
    → length s + 2 ≤ 2 ^ 48
    → n < length s + 2
    → read_body (pos (length s)) (take n (s ++ crlf)) ≡ failed
unfolding read_body
read_body-torn s n h l =
    ground (arith, length-take n (s ++ crlf) (omega (arith, length-append s crlf)))

pub read_bulk_string-torn :
    (s : Str) (n : ℕ)
    → length s + 2 ≤ 2 ^ 48
    → n < length (format_ℕ (length s)) + 2 + (length s + 2)
    → read_bulk_string (take n (format_ℕ (length s) ++ (crlf ++ (s ++ crlf)))) ≡ failed
unfolding read_bulk_string
read_bulk_string-torn s n h l = elim (less_or n (length (format_ℕ (length s)) + 2)) [
  | inl c ↦
      rw (read_line-torn (format_ℕ (length s)) (s ++ crlf) n (format_ℕ-IsLine (length s)) c) refl
  | inr c ↦
      rw
        (
          take-line (format_ℕ (length s)) (s ++ crlf) n c,
          read_line-crlf (format_ℕ (length s))
              (take (n - (length (format_ℕ (length s)) + 2)) (s ++ crlf))
              (format_ℕ-IsLine (length s)),
          parse_int-format_ℕ (length s) (omega arith),
        )
        (read_body-torn s (n - (length (format_ℕ (length s)) + 2)) h (omega arith))
]

pub read_array-torn :
    (values : ℕ → Str → Decoded (Values × Str)) (vs : Values) (tail : Str) (n : ℕ)
    → count_items vs ≤ 2 ^ 42
    → ((m : ℕ) → m < n → m < length tail → values (count_items vs) (take m tail) ≡ failed)
    → n < length (format_ℕ (count_items vs)) + 2 + length tail
    → read_array values (take n (format_ℕ (count_items vs) ++ (crlf ++ tail))) ≡ failed
unfolding read_array read_items
read_array-torn values vs tail n h t l = elim (less_or n (length (format_ℕ (count_items vs)) + 2)) [
  | inl c ↦
      rw (read_line-torn (format_ℕ (count_items vs)) tail n (format_ℕ-IsLine (count_items vs)) c)
        refl
  | inr c ↦
      let m : ℕ = n - (length (format_ℕ (count_items vs)) + 2) in
      rw
        (
          take-line (format_ℕ (count_items vs)) tail n c,
          read_line-crlf (format_ℕ (count_items vs)) (take m tail)
              (format_ℕ-IsLine (count_items vs)),
          parse_int-format_ℕ (count_items vs) (omega arith),
        )
        (ground (arith, t m (omega arith) (omega arith)))
]

pub minus_one-torn : (n : ℕ) → n < 4 → read_line (take n (codes "-1" ++ crlf)) ≡ none
minus_one-torn n l = read_line-torn (codes "-1") [] n (omega arith) l

pub nil_bulk-torn : (n : ℕ) → n < 4 → read_bulk_string (take n (codes "-1" ++ crlf)) ≡ failed
unfolding read_bulk_string
nil_bulk-torn n l = rw (minus_one-torn n l) refl

pub nil_array-torn :
    (values : ℕ → Str → Decoded (Values × Str)) (n : ℕ)
    → n < 4
    → read_array values (take n (codes "-1" ++ crlf)) ≡ failed
unfolding read_array
nil_array-torn values n l = rw (minus_one-torn n l) refl
