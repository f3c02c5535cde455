-- ===== src/Aof/Load.antt =====
-- Loading the log.
use valkeydb.Base.{
  ℕ, zero, suc, ◌+◌, ◌≤◌, ◌<◌, ◌≡◌, refl, ◌≢◌, ◌∙◌, ap, true, false, Option, none, some, List, [],
  ◌∷◌, ◌++◌, arith, ◌⊎◌, Str, length, length-append, append_assoc, sym, append-nil, Bool-cases,
  Option-cases, inl, inr,
}
use valkeydb.Resp.{Value, Decoded, ok, failed, panicked, out_of_fuel, encode, decode, decode_with}
use valkeydb.Resp.Total.{Leaves, decode-Leaves}
use valkeydb.Resp.RoundTrip.{IsWire, decode-encode, cost-encode}
use valkeydb.Aof.{Aof, open_aof, append, load_value, load_loop, load, encode_entries}

abbrev pub AllWire : List Value → Type 0
AllWire [] = Unit
AllWire (v ∷ vs) = IsWire v × AllWire vs

pub decode-nil : decode [] ≡ failed
unfolding decode decode_with
decode-nil = refl

module _ {ℓ} {S : Type ℓ} (dispatch : Str → List Value → S → Option S) where
  -- The commands one after the other.
  unfoldable pub replay_all : List Value → S → Decoded S
  replay_all [] s = ok s
  replay_all (v ∷ vs) s = elim (load_value dispatch v s) [
    | none ↦ panicked
    | some s' ↦ replay_all vs s'
  ]

  -- The rest of the loop, from what a command has left.
  abbrev pub go_on : Option S → (S → Decoded S) → Decoded S
  go_on none f = panicked
  go_on (some s) f = f s

  pub load_loop-end :
      (fuel : ℕ) (file : Str) (s : S)
      → decode file ≡ failed
      → load_loop dispatch (suc fuel) file s ≡ ok s
  unfolding load_loop
  load_loop-end fuel file s e = rw (e, load_loop) refl

  pub load_loop-value :
      (fuel : ℕ) (file rest : Str) (v : Value) (s : S)
      → decode file ≡ ok (v, rest)
      → load_loop dispatch (suc fuel) file s
        ≡ go_on (load_value dispatch v s) (λ s'. load_loop dispatch fuel rest s')
  unfolding load_loop
  load_loop-value fuel file rest v s e = elim (Option-cases (load_value dispatch v s)) [
    | inl none_left ↦ rw (e, load_loop, none_left) refl
    | inr (s', some_left) ↦ rw (e, load_loop, some_left) refl
  ]

  pub replay_all-cons :
      (v : Value) (vs : List Value) (s : S)
      → replay_all (v ∷ vs) s ≡ go_on (load_value dispatch v s) (λ s'. replay_all vs s')
  unfolding replay_all
  replay_all-cons v vs s = elim (Option-cases (load_value dispatch v s)) [
    | inl none_left ↦ rw (replay_all, none_left) refl
    | inr (s', some_left) ↦ rw (replay_all, some_left) refl
  ]

  load_loop-entries :
      (vs : List Value) (torn : Str) (fuel : ℕ) (s : S)
      → AllWire vs
      → decode torn ≡ failed
      → length vs < fuel
      → load_loop dispatch fuel (encode_entries vs ++ torn) s ≡ replay_all vs s
  unfolding replay_all encode_entries
  load_loop-entries vs torn zero s w t h = absurd (omega arith)
  load_loop-entries [] torn (suc fuel) s w t h = load_loop-end fuel torn s t
  load_loop-entries (v ∷ vs) torn (suc fuel) s w t h =
      load_loop-value fuel _ (encode_entries vs ++ torn) v s (
        rw (append_assoc (encode v) (encode_entries vs) torn)
          (decode-encode v (encode_entries vs ++ torn) w.0))
      ∙ ap (go_on (load_value dispatch v s))
          (λ i s'. load_loop-entries vs torn fuel s' w.1 t (omega arith) i)
      ∙ sym (replay_all-cons v vs s)

  pub length-encode_entries :
      (vs : List Value) → AllWire vs → length vs ≤ length (encode_entries vs)
  unfolding encode_entries
  length-encode_entries [] w = omega arith
  length-encode_entries (v ∷ vs) w = omega (
    arith,
    length-append (encode v) (encode_entries vs),
    cost-encode v w.0,
    length-encode_entries vs w.1,
  )

  -- Where the log is enabled, its entries are fit for the wire, and the decoder refuses what
  -- stands behind them (a last entry that is cut off, or nothing): it loads to the entries'
  -- commands one after the other, up to the first that panics, and what stands behind them is
  -- dropped.
  pub load-entries :
      (vs : List Value) (torn : Str) (a : Aof) (s : S)
      → a.enabled ≡ true
      → a.file ≡ encode_entries vs ++ torn
      → AllWire vs
      → decode torn ≡ failed
      → load dispatch a s ≡ replay_all vs s
  unfolding load
  load-entries vs torn a s on e w t =
      rw (on, e)
        (load_loop-entries vs torn (length (encode_entries vs ++ torn) + 1) s w t
          (omega (arith, length-append (encode_entries vs) torn, length-encode_entries vs w)))

  go_on-total :
      (o : Option S) (f : S → Decoded S) → ((s : S) → f s ≢ out_of_fuel) → go_on o f ≢ out_of_fuel
  go_on-total none f h = λ e. cc
  go_on-total (some s) f h = h s

  pub Decoded-cases :
      (n : ℕ) (r : Decoded (Value × Str))
      → Leaves n r
      → ((v : Value) × (rest : Str) × (r ≡ ok (v, rest)) × (length rest ≤ n))
        ⊎ ((r ≡ failed) ⊎ (r ≡ panicked))
  Decoded-cases n (ok (v, rest)) l = inl (v, rest, refl, l)
  Decoded-cases n failed l = inr (inl refl)
  Decoded-cases n panicked l = inr (inr refl)
  Decoded-cases n out_of_fuel l = absurd l

  pub load_loop-panic :
      (fuel : ℕ) (file : Str) (s : S)
      → decode file ≡ panicked
      → load_loop dispatch (suc fuel) file s ≡ panicked
  unfolding load_loop
  load_loop-panic fuel file s e = rw (e, load_loop) refl

  load_loop-total :
      (fuel : ℕ) (file : Str) (s : S)
      → length file < fuel
      → load_loop dispatch fuel file s ≢ out_of_fuel
  load_loop-total zero file s h = absurd (omega arith)
  load_loop-total (suc fuel) [] s h = rw (load_loop-end fuel [] s decode-nil) (λ e. cc)
  load_loop-total (suc fuel) (c ∷ file) s h =
      elim (Decoded-cases (length file) (decode (c ∷ file)) (decode-Leaves c file)) [
        | inl (v, rest, e, l) ↦ rw (load_loop-value fuel (c ∷ file) rest v s e) (
            go_on-total (load_value dispatch v s) _
              λ s'. load_loop-total fuel rest s' (omega arith))
        | inr (inl e) ↦ rw (load_loop-end fuel (c ∷ file) s e) (λ x. cc)
        | inr (inr e) ↦ rw (load_loop-panic fuel (c ∷ file) s e) (λ x. cc)
      ]

  -- Loading ends within its fuel, whatever stands in the file.
  pub load-total : (a : Aof) (s : S) → load dispatch a s ≢ out_of_fuel
  unfolding load
  load-total a s = elim (Bool-cases a.enabled) [
    | inl e ↦ rw e (load_loop-total (length a.file + 1) a.file s (omega arith))
    | inr e ↦ rw e (λ x. cc)
  ]

unfoldable pub append_all : List Value → Aof → Aof
append_all [] a = a
append_all (v ∷ vs) a = append_all vs (append v a)

-- A file that is open for writing.
pub record IsOpen (a : Aof) : Type 0 where
  pub on : a.enabled ≡ true
  pub writing : a.replaying ≡ false
  pub linked : a.unlinked ≡ none

pub append-eq :
    (v : Value) (a : Aof) → IsOpen a → append v a ≡ record a { file = a.file ++ encode v }
unfolding append
append-eq v a o = ground (arith, o.on, o.writing, o.linked)

pub encode_entries-append :
    (us vs : List Value) → encode_entries (us ++ vs) ≡ encode_entries us ++ encode_entries vs
unfolding encode_entries
encode_entries-append [] vs = refl
encode_entries-append (u ∷ us) vs =
    ap (λ t. encode u ++ t) (encode_entries-append us vs)
    ∙ sym (append_assoc (encode u) (encode_entries us) (encode_entries vs))

append_all-file :
    (vs : List Value) (a : Aof)
    → IsOpen a
    → append_all vs a ≡ record a { file = a.file ++ encode_entries vs }
unfolding append_all encode_entries
append_all-file [] a o = ap (λ f. record a { file = f }) (sym (append-nil a.file))
append_all-file (v ∷ vs) a o =
    ap (append_all vs) (append-eq v a o)
    ∙ append_all-file vs (record a { file = a.file ++ encode v })
        (record { on = o.on; writing = o.writing; linked = o.linked })
    ∙ ap (λ f. record a { file = f }) (append_assoc a.file (encode v) (encode_entries vs))

module _ {ℓ} {S : Type ℓ} (dispatch : Str → List Value → S → Option S) where
  -- Where the old entries and the new ones are fit for the wire: what is appended to a log that
  -- is opened with the old entries in it is replayed behind them at the next load.
  pub load-append_all :
      (old vs : List Value) (s : S)
      → AllWire (old ++ vs)
      → load dispatch (append_all vs (open_aof (encode_entries old) true)) s
        ≡ replay_all dispatch (old ++ vs) s
  unfolding open_aof
  load-append_all old vs s w =
      let a : Aof = open_aof (encode_entries old) true in
      let e = append_all-file vs a (record { on = refl; writing = refl; linked = refl }) in
      rw e (
        load-entries dispatch (old ++ vs) [] _ s refl
          (sym (append-nil (encode_entries (old ++ vs)) ∙ encode_entries-append old vs)) w
          decode-nil)
