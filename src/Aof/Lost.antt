-- ===== src/Aof/Lost.antt =====
-- An append that is cut off in its first line, and what is lost by it.
use valkeydb.Base.{
  ℕ, zero, suc, ◌+◌, ◌-◌, ◌*◌, ◌≤◌, ◌≡◌, refl, ◌∙◌, ap, sym, true, Option, none, List, [], ◌∷◌,
  ◌++◌, arith, Str, length, take, take-append_left, append_assoc,
}
use valkeydb.Decimal.{format_ℕ, scan, unsigned, positive, parse_int}
use valkeydb.Decimal.RoundTrip.{AreDigits, format_ℕ-AreDigits}
use valkeydb.Resp.{
  Value, Values, Decoded, ok, failed, panicked, out_of_fuel, bind, array_value, count_items, crlf,
  encode, encode_all, read_array, decode_with, decode,
}
use valkeydb.Resp.Lines.{IsLine, AreDigits-IsLine, read_line-crlf, format_ℕ-IsLine}
use valkeydb.Aof.{open_aof, load}
use valkeydb.Aof.Load.{AllWire, replay_all, load_loop-end}
use valkeydb.Aof.Io.{Outcome, synced, cut_at}
use valkeydb.Aof.Acked.{append_each, intact, behind, behind-next, opened, load-append_each}

AreDigits-take : (k : ℕ) (ds : Str) → AreDigits ds → AreDigits (take k ds)
AreDigits-take zero ds h = tt
AreDigits-take (suc k) [] h = tt
AreDigits-take (suc k) (d ∷ ds) h = (h.0, h.1, AreDigits-take k ds h.2)

IsLine-append : (s t : Str) → IsLine s → IsLine t → IsLine (s ++ t)
IsLine-append [] t h k = k
IsLine-append (c ∷ s) t h k = (h.0, IsLine-append s t h.1 k)

-- Digits with a star behind them are no number.
scan-star : (n : ℕ) (ds t : Str) → AreDigits ds → scan n (ds ++ b'*' ∷ t) ≡ none
unfolding scan
scan-star n [] t h = refl
scan-star n (d ∷ ds) t h = ground (arith, scan-star (n * 10 + (d - b'0')) ds t h.2)

parse_int-star : (ds t : Str) → AreDigits ds → parse_int (ds ++ b'*' ∷ t) ≡ none
unfolding parse_int positive unsigned scan
parse_int-star [] t h = refl
parse_int-star (d ∷ ds) t h = ground (arith, scan-star (0 * 10 + (d - b'0')) ds t h.2)

-- The start of a first line, and a whole array behind it.
decode-star :
    (k : ℕ) (c : ℕ) (vs : Values) (rest : Str)
    → decode (b'*' ∷ (take k (format_ℕ c) ++ (encode (array_value vs) ++ rest))) ≡ failed
unfolding decode decode_with read_array encode
decode-star k c vs rest =
    let ds : Str = take k (format_ℕ c) in
    let line : Str = ds ++ b'*' ∷ format_ℕ (count_items vs) in
    let tail : Str = encode_all vs ++ rest in
    let digits = AreDigits-take k (format_ℕ c) (format_ℕ-AreDigits c) in
    let shape : ds ++ (encode (array_value vs) ++ rest) ≡ line ++ (crlf ++ tail) =
      ap (λ t. ds ++ b'*' ∷ t)
        (append_assoc (format_ℕ (count_items vs)) (crlf ++ encode_all vs) rest)
      ∙ sym (append_assoc ds (b'*' ∷ format_ℕ (count_items vs)) (crlf ++ tail)) in
    rw
      (
        shape,
        read_line-crlf line tail (
            IsLine-append ds (b'*' ∷ format_ℕ (count_items vs)) (AreDigits-IsLine ds digits)
              (omega arith, format_ℕ-IsLine (count_items vs))),
        parse_int-star ds (format_ℕ (count_items vs)) digits,
      )
      refl

decode-cut :
    (k : ℕ) (vs us : Values) (rest : Str)
    → k ≤ length (format_ℕ (count_items vs))
    → decode (take (suc k) (encode (array_value vs)) ++ (encode (array_value us) ++ rest)) ≡ failed
unfolding encode
decode-cut k vs us rest h =
    rw (take-append_left k (format_ℕ (count_items vs)) (crlf ++ encode_all vs) h)
      (decode-star k (count_items vs) us rest)

-- Appends that are written and synced.
abbrev pub all_synced : List Value → List (Outcome × Value)
all_synced [] = []
all_synced (v ∷ vs) = (synced, v) ∷ all_synced vs

intact-all_synced :
    (before : List Value) (n : ℕ) (v : Value) (later : List (Outcome × Value))
    → intact (all_synced before ++ (cut_at n, v) ∷ later) ≡ before
unfolding intact
intact-all_synced [] n v later = refl
intact-all_synced (u ∷ before) n v later = ap (λ us. u ∷ us) (intact-all_synced before n v later)

behind-all_synced :
    (before : List Value) (n : ℕ) (v : Value) (later : List (Outcome × Value))
    → behind (all_synced before ++ (cut_at n, v) ∷ later) ≡ behind ((cut_at n, v) ∷ later)
unfolding behind
behind-all_synced [] n v later = refl
behind-all_synced (u ∷ before) n v later = behind-all_synced before n v later

bind-ok {ℓ} : {S : Type ℓ} (r : Decoded S) → bind r (λ s. ok s) ≡ r
bind-ok (ok s) = refl
bind-ok failed = refl
bind-ok panicked = refl
bind-ok out_of_fuel = refl

module _ {ℓ} {S : Type ℓ} (dispatch : Str → List Value → S → Option S) where
  load-failed :
      (file : Str) (s : S) → decode file ≡ failed → load dispatch (open_aof file true) s ≡ ok s
  unfolding load open_aof
  load-failed file s e =
      let one : length file + 1 ≡ suc (length file) = omega arith in
      rw one (load_loop-end dispatch (length file) file s e)

  -- Entries that are fit for the wire are appended, then the append of an array is cut off behind
  -- its first byte or one of the digits of its count, and an array is appended behind it: the next
  -- load ends there without an error, and nothing that was appended after the cut is replayed.
  pub load-lost :
      (old before : List Value) (vs us : Values) (k : ℕ) (later : List (Outcome × Value)) (s : S)
      → AllWire (old ++ before)
      → k ≤ length (format_ℕ (count_items vs))
      → load dispatch
          (append_each
            (all_synced before
              ++ (cut_at (suc k), array_value vs) ∷ (synced, array_value us) ∷ later)
            (opened old)).aof
          s
        ≡ replay_all dispatch (old ++ before) s
  load-lost old before vs us k later s w h =
      let calls = (synced, array_value us) ∷ later in
      let kept = intact-all_synced before (suc k) (array_value vs) calls in
      let (rest, e) = behind-next (suc k) (array_value vs) (array_value us) later in
      let file = take (suc k) (encode (array_value vs)) ++ (encode (array_value us) ++ rest) in
      let e' = decode-cut k vs us rest h in
      load-append_each dispatch old (all_synced before ++ (cut_at (suc k), array_value vs) ∷ calls)
        s (rw kept w)
      ∙ rw (kept, behind-all_synced before (suc k) (array_value vs) calls, e)
          (ap (bind (replay_all dispatch (old ++ before) s)) (λ i s'. load-failed file s' e' i))
      ∙ bind-ok (replay_all dispatch (old ++ before) s)
