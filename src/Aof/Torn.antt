-- ===== src/Aof/Torn.antt =====
-- A log that a crash has cut off.
use valkeydb.Base.{
  ℕ, ◌-◌, ◌≤◌, ◌<◌, ◌≡◌, ◌∙◌, ap, sym, true, Option, List, [], ◌∷◌, ◌++◌, arith, Str, length, take,
  take-nil, take-append_left, take-append_right, append_assoc, leb, if◌then◌else◌, less_or, inl,
  inr,
}
use valkeydb.Resp.{Value, failed, encode, decode}
use valkeydb.Resp.Torn.{decode-torn}
use valkeydb.Aof.{Aof, load, encode_entries}
use valkeydb.Aof.Load.{AllWire, decode-nil, replay_all, load-entries}

-- The entries that stand in the first `n` bytes as a whole.
unfoldable pub whole : ℕ → List Value → List Value
whole n [] = []
whole n (v ∷ vs) =
    let rest = whole (n - length (encode v)) vs in
    if leb (length (encode v)) n then v ∷ rest else []

whole-cut : (n : ℕ) (v : Value) (vs : List Value) → n < length (encode v) → whole n (v ∷ vs) ≡ []
unfolding whole
whole-cut n v vs h = ground arith

whole-next :
    (n : ℕ) (v : Value) (vs : List Value)
    → length (encode v) ≤ n
    → whole n (v ∷ vs) ≡ v ∷ whole (n - length (encode v)) vs
unfolding whole
whole-next n v vs h = ground arith

-- What stands in the first `n` bytes: the whole entries, and a rest that the decoder refuses.
take-encode_entries :
    (vs : List Value) (n : ℕ)
    → AllWire vs
    → (torn : Str) × (take n (encode_entries vs) ≡ encode_entries (whole n vs) ++ torn)
      × (decode torn ≡ failed)
      × AllWire (whole n vs)
unfolding whole encode_entries
take-encode_entries [] n w = ([], take-nil n, decode-nil, tt)
take-encode_entries (v ∷ vs) n w = elim (less_or n (length (encode v))) [
  | inl cut ↦ (
    take n (encode v),
    rw (whole-cut n v vs cut) (take-append_left n (encode v) (encode_entries vs) (omega arith)),
    decode-torn v n w.0 cut,
    rw (whole-cut n v vs cut) tt,
  )
  | inr fits ↦
      let (torn, e, d, w') = take-encode_entries vs (n - length (encode v)) w.1 in
      (
        torn,
        rw (whole-next n v vs fits, encode_entries)
            (take-append_right n (encode v) (encode_entries vs) fits
              ∙ ap (λ t. encode v ++ t) e
              ∙ sym (
                  append_assoc (encode v) (encode_entries (whole (n - length (encode v)) vs))
                    torn)),
        d,
        rw (whole-next n v vs fits) (w.0, w'),
      )
]

module _ {ℓ} {S : Type ℓ} (dispatch : Str → List Value → S → Option S) where
  -- Where the log is enabled and its file is cut off behind any number of bytes of entries that
  -- are fit for the wire: it loads to the commands of the entries that are there as a whole, one
  -- after the other, and the one that is cut off is dropped.
  pub load-cut :
      (vs : List Value) (n : ℕ) (a : Aof) (s : S)
      → a.enabled ≡ true
      → a.file ≡ take n (encode_entries vs)
      → AllWire vs
      → load dispatch a s ≡ replay_all dispatch (whole n vs) s
  load-cut vs n a s on e w =
      let (torn, cut, d, w') = take-encode_entries vs n w in
      load-entries dispatch (whole n vs) torn a s on (e ∙ cut) w' d
