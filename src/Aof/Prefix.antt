-- ===== src/Aof/Prefix.antt =====
-- Entries with anything behind them.
use valkeydb.Base.{
  ℕ, zero, suc, ◌+◌, ◌<◌, ◌≡◌, refl, ◌∙◌, ap, sym, true, Option, List, [], ◌∷◌, ◌++◌, arith, Str,
  length, length-append, append_assoc, Option-cases, inl, inr,
}
use valkeydb.Resp.{Value, Decoded, bind, encode, decode}
use valkeydb.Resp.Total.{decode-Leaves}
use valkeydb.Resp.RoundTrip.{decode-encode, cost-encode}
use valkeydb.Aof.{Aof, load_value, load_loop, load, encode_entries}
use valkeydb.Aof.Load.{
  AllWire, decode-nil, replay_all, go_on, load_loop-end, load_loop-value, load_loop-panic,
  Decoded-cases, replay_all-cons,
}

module _ {ℓ} {S : Type ℓ} (dispatch : Str → List Value → S → Option S) where
  -- The loop does the same with any fuel that is enough.
  load_loop-fuel :
      (f g : ℕ) (file : Str) (s : S)
      → length file < f
      → length file < g
      → load_loop dispatch f file s ≡ load_loop dispatch g file s
  load_loop-fuel zero g file s h k = absurd (omega arith)
  load_loop-fuel (suc f) zero file s h k = absurd (omega arith)
  load_loop-fuel (suc f) (suc g) [] s h k =
      load_loop-end dispatch f [] s decode-nil ∙ sym (load_loop-end dispatch g [] s decode-nil)
  load_loop-fuel (suc f) (suc g) (c ∷ file) s h k =
      elim (Decoded-cases dispatch (length file) (decode (c ∷ file)) (decode-Leaves c file)) [
        | inl (v, rest, e, l) ↦
            load_loop-value dispatch f (c ∷ file) rest v s e
            ∙ ap (go_on dispatch (load_value dispatch v s))
                (λ i s'. load_loop-fuel f g rest s' (omega arith) (omega arith) i)
            ∙ sym (load_loop-value dispatch g (c ∷ file) rest v s e)
        | inr (inl e) ↦
            load_loop-end dispatch f (c ∷ file) s e ∙ sym (load_loop-end dispatch g (c ∷ file) s e)
        | inr (inr e) ↦
            load_loop-panic dispatch f (c ∷ file) s e
            ∙ sym (load_loop-panic dispatch g (c ∷ file) s e)
      ]

  bind-replay_all :
      (v : Value) (vs : List Value) (s : S) (k : S → Decoded S)
      → bind (replay_all dispatch (v ∷ vs) s) k
        ≡ go_on dispatch (load_value dispatch v s) (λ s'. bind (replay_all dispatch vs s') k)
  bind-replay_all v vs s k = elim (Option-cases (load_value dispatch v s)) [
    | inl e ↦ rw (replay_all-cons dispatch v vs s, e) refl
    | inr (s', e) ↦ rw (replay_all-cons dispatch v vs s, e) refl
  ]

  load_loop-prefix :
      (vs : List Value) (rest : Str) (fuel : ℕ) (s : S)
      → AllWire vs
      → length (encode_entries vs ++ rest) < fuel
      → load_loop dispatch fuel (encode_entries vs ++ rest) s
        ≡ bind (replay_all dispatch vs s) (λ s'. load_loop dispatch (length rest + 1) rest s')
  unfolding replay_all encode_entries
  load_loop-prefix vs rest zero s w h = absurd (omega arith)
  load_loop-prefix [] rest (suc fuel) s w h =
      load_loop-fuel (suc fuel) (length rest + 1) rest s h (omega arith)
  load_loop-prefix (v ∷ vs) rest (suc fuel) s w h =
      load_loop-value dispatch fuel _ (encode_entries vs ++ rest) v s (
        rw (append_assoc (encode v) (encode_entries vs) rest)
          (decode-encode v (encode_entries vs ++ rest) w.0))
      ∙ ap (go_on dispatch (load_value dispatch v s))
          (λ i s'. load_loop-prefix vs rest fuel s' w.1 short i)
      ∙ sym (bind-replay_all v vs s _)
    where
      short : length (encode_entries vs ++ rest) < fuel
      short = omega (
        arith,
        h,
        length-append (encode v ++ encode_entries vs) rest,
        length-append (encode v) (encode_entries vs),
        length-append (encode_entries vs) rest,
        cost-encode v w.0,
      )

  -- Where the log is enabled and its file begins with entries that are fit for the wire: it loads
  -- to their commands one after the other, and then to what the rest of the file loads to.
  pub load-prefix :
      (vs : List Value) (rest : Str) (a : Aof) (s : S)
      → a.enabled ≡ true
      → a.file ≡ encode_entries vs ++ rest
      → AllWire vs
      → load dispatch a s
        ≡ bind (replay_all dispatch vs s) (λ s'. load dispatch (record a { file = rest }) s')
  unfolding load
  load-prefix vs rest a s on e w =
      rw (on, e)
        (load_loop-prefix vs rest (length (encode_entries vs ++ rest) + 1) s w (omega arith))
