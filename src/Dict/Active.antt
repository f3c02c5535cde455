-- ===== src/Dict/Active.antt =====
-- Active expiration: whatever is sampled, it drops only entries that have expired.
use valkeydb.Base.{
  ℕ, zero, suc, ◌+◌, ◌*◌, ◌≡◌, refl, sym, ap, ◌∙◌, Bool-cases, ◌⊎◌, inl, inr, Bool, true, false,
  ◌||◌, Option, none, some, List, arith, Str, eq_str, eq_str_iff, if◌then◌else◌, ltb, ◌==◌, length,
  get_elem?, Option-cases,
}
use mathlib.Core.Path.{subst}
use valkeydb.Base.Int.{◌≤ℤ◌}
use valkeydb.Base.Map.{get, delete, get-delete, keys}
use valkeydb.Clock.{Time}
use valkeydb.Item.{Item, is_expired, ExpirationConfig, get_max_sample_size}
use valkeydb.Dict.{Dict, Samples, int_n, sample, samples, rounds, active_expire}
use valkeydb.Dict.View.{view, live, is_expired_mono}

-- An entry that is gone had expired at a reading of the clock.
abbrev pub Gone : Samples → Option Item → Type 0
Gone s none = ⊥
Gone s (some item) = (i : ℕ) × (j : ℕ) × (is_expired item (s.clock i j) ≡ true)

-- From `d` to `d'` every key keeps its entry, or loses one that had expired.
abbrev pub Drops : Samples → Dict → Dict → Type 0
Drops s d d' = (key : Str) → (get key d' ≡ get key d) ⊎ ((get key d' ≡ none) × Gone s (get key d))

Drops-trans : (s : Samples) (a b c : Dict) → Drops s a b → Drops s b c → Drops s a c
Drops-trans s a b c f g key = elim (f key) [
  | inl same ↦ elim (g key) [
    | inl same' ↦ inl (same' ∙ same)
    | inr (none_c, gone) ↦ inr (none_c, subst (Gone s) same gone)
  ]
  | inr (none_b, gone) ↦ elim (g key) [
    | inl same' ↦ inr (same' ∙ none_b, gone)
    | inr (none_c, gone') ↦ inr (none_c, gone)
  ]
]

-- Taking out an entry that has expired.
Drops-delete :
    (s : Samples) (i j : ℕ) (key : Str) (item : Item) (d : Dict)
    → get key d ≡ some item
    → is_expired item (s.clock i j) ≡ true
    → Drops s d (delete key d)
Drops-delete s i j key item d e x k = elim (Bool-cases (eq_str key k)) [
  | inl here ↦
      let same : get k d ≡ some item = rw (← (eq_str_iff key k).0 here) e in
      inr (ground (arith, here, get-delete key k d), subst (Gone s) (sym same) (i, j, x))
  | inr other ↦ inl (ground (arith, other, get-delete key k d))
]

Drops-sample :
    (s : Samples) (names : List Str) (i j checked expired : ℕ) (d : Dict)
    → Drops s d (sample s names i j (checked, expired, d)).2
unfolding sample
Drops-sample s names i j checked expired d =
    elim (Option-cases (get_elem? names (int_n s i j (length names)))) [
      | inl e ↦ rw (e, sample) (λ key. inl refl)
      | inr (name, e) ↦ elim (Option-cases (get name d)) [
        | inl e' ↦ rw (e, e', sample) (λ key. inl refl)
        | inr (item, e') ↦ elim (Bool-cases (is_expired item (s.clock i j))) [
          | inl x ↦ rw (e, e', x, sample) (Drops-delete s i j name item d e' x)
          | inr x ↦ rw (e, e', x, sample) (λ key. inl refl)
        ]
      ]
    ]

Drops-samples :
    (s : Samples) (names : List Str) (i n j checked expired : ℕ) (d : Dict)
    → Drops s d (samples s names i n j (checked, expired, d)).2
unfolding samples
Drops-samples s names i zero j checked expired d = λ key. inl refl
Drops-samples s names i (suc n) j checked expired d =
    let (c, e, d') = sample s names i j (checked, expired, d) in
    Drops-trans s d d' (samples s names i n (j + 1) (c, e, d')).2
      (Drops-sample s names i j checked expired d) (Drops-samples s names i n (j + 1) c e d')

Drops-if :
    (s : Samples) (b : Bool) (d x y : Dict)
    → Drops s d x
    → Drops s d y
    → Drops s d (if b then x else y)
Drops-if s true d x y f g = f
Drops-if s false d x y f g = g

Drops-rounds :
    (config : Option ExpirationConfig) (s : Samples) (n i : ℕ) (d : Dict)
    → Drops s d (rounds config s n i d)
unfolding rounds
Drops-rounds config s zero i d = λ key. inl refl
Drops-rounds config s (suc n) i d =
    let names = keys d in
    let limit : ℕ =
      if ltb (length names) (get_max_sample_size config)
      then length names
      else get_max_sample_size config in
    let (checked, expired, d') = samples s names i limit 0 (0, 0, d) in
    let here : Drops s d d' = Drops-samples s names i limit 0 0 0 d in
    Drops-if s (checked == 0 || ltb (expired * 4) checked) d d' (rounds config s n (i + 1) d') here
      (Drops-trans s d d' (rounds config s n (i + 1) d') here (Drops-rounds config s n (i + 1) d'))

-- Whatever the sampling and the readings of the clock, active expiration leaves each key its entry,
-- or takes away one that had expired at a reading.
pub active_expire-Drops :
    (config : Option ExpirationConfig) (s : Samples) (d : Dict)
    → Drops s d (active_expire config s d)
unfolding active_expire
active_expire-Drops config s d =
    Drops-if s (length d == 0) d d _ (λ key. inl refl) (Drops-rounds config s _ 0 d)

-- Active expiration, whatever it samples, changes no view at a time that none of its readings of
-- the clock is after.
pub view-active_expire :
    (config : Option ExpirationConfig) (s : Samples) (d : Dict) (t : Time) (key : Str)
    → ((i j : ℕ) → s.clock i j ≤ℤ t)
    → view t key (active_expire config s d) ≡ view t key d
unfolding view live
view-active_expire config s d t key past = elim (active_expire-Drops config s d key) [
  | inl same ↦ ap (live t) same
  | inr (none_after, gone) ↦ ap (live t) none_after ∙ sym (live-Gone (get key d) gone)
]
  where
    live-Gone : (o : Option Item) → Gone s o → live t o ≡ none
    live-Gone none g = absurd g
    live-Gone (some item) (i, j, x) = rw (is_expired_mono item (s.clock i j) t (past i j) x)
