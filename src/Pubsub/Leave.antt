-- ===== src/Pubsub/Leave.antt =====
-- Subscriptions that end.
use valkeydb.Base.{
  ℕ, ◌≡◌, refl, ◌≢◌, ◌∙◌, ap, sym, true, false, none, some, List, [], ◌∷◌, arith, Str, eq_str,
  eq_str_iff, ◌==◌, ==_iff, length, get_elem?, set, get_elem?-set_ne, if◌then◌else◌, Bool-cases,
  Option-cases, inl, inr,
}
use valkeydb.Base.Map.{Map, put, delete, get-put, get-delete}
use valkeydb.Pubsub.{Queue, Pubsub, subscribers, remove_sub, close, unsubscribe}
use valkeydb.Pubsub.Publish.{mem, AreOpen, AreOpen-cong}
use valkeydb.Pubsub.Sound.{IsSound, new_queue}

remove_sub-AreOpen :
    (ch : ℕ) (queues : List Queue) (subs subs' : List ℕ)
    → AreOpen queues subs
    → remove_sub ch subs ≡ some subs'
    → (mem ch subs ≡ true)
      × (mem ch subs' ≡ false)
      × ((i : ℕ) → mem i subs' ≡ true → mem i subs ≡ true)
      × AreOpen queues subs'
unfolding AreOpen mem remove_sub
remove_sub-AreOpen ch queues [] subs' o e = absurd cc
remove_sub-AreOpen ch queues (sub ∷ subs) subs' (live, fresh, o) e = elim (Bool-cases (sub == ch)) [
  | inl here ↦
      let same : sub ≡ ch = (==_iff sub ch).0 here in
      let rest : subs ≡ subs' = ground (arith, e, here) in
      (
        ground (arith, here),
        rw (← same, ← rest) fresh,
        (λ i m. ground (arith, m, rest)),
        rw (← rest) o,
      )
  | inr other ↦ elim (Option-cases (remove_sub ch subs)) [
    | inl gone ↦ absurd (ground (arith, e, other, gone))
    | inr (rest, found) ↦
        let whole : sub ∷ rest ≡ subs' = ground (arith, e, other, found) in
        let (was, not_now, old, o') = remove_sub-AreOpen ch queues subs rest o found in
        rw (← whole) (
          ground (arith, was),
          ground (arith, not_now, other),
          (λ i m. ground (arith, m, old i)),
          (live, still_fresh rest (old sub), o'),
        )
  ]
]
  where
    still_fresh :
        (rest : List ℕ) → (mem sub rest ≡ true → mem sub subs ≡ true) → mem sub rest ≡ false
    still_fresh rest old = elim (Bool-cases (mem sub rest)) [
      | inl m ↦ absurd (ground (arith, old m, fresh))
      | inr m ↦ m
    ]

mem-open :
    (queues : List Queue) (subs : List ℕ) (ch : ℕ)
    → AreOpen queues subs
    → mem ch subs ≡ true
    → (q : Queue) × (get_elem? queues ch ≡ some q) × (q.closed ≡ false)
unfolding AreOpen mem
mem-open queues [] ch o m = absurd cc
mem-open queues (sub ∷ subs) ch (live, fresh, o) m = elim (Bool-cases (sub == ch)) [
  | inl here ↦ let same : sub ≡ ch = (==_iff sub ch).0 here in rw (← same) live
  | inr other ↦ mem-open queues subs ch o (ground (arith, m, other))
]

-- The channels after the last subscriber is gone, or another one.
abbrev left_channels : Str → List ℕ → Pubsub → Map (List ℕ)
left_channels channel subs p =
    if length subs == 0 then delete channel p.channels else put channel subs p.channels

subscribers-left :
    (channel c : Str) (subs : List ℕ) (p : Pubsub) (queues : List Queue)
    → subscribers c (record { channels = left_channels channel subs p; queues = queues })
      ≡ (if eq_str channel c then subs else subscribers c p)
unfolding subscribers
subscribers-left channel c [] p queues = ground (arith, get-delete channel c p.channels)
subscribers-left channel c (ch ∷ subs) p queues =
    ground (arith, get-put channel c (ch ∷ subs) p.channels)

unsubscribe-none :
    (channel : Str) (ch : ℕ) (p : Pubsub)
    → remove_sub ch (subscribers channel p) ≡ none
    → unsubscribe channel ch p ≡ some p
unfolding unsubscribe
unsubscribe-none channel ch p e = rw (unsubscribe, e) refl

unsubscribe-some :
    (channel : Str) (ch : ℕ) (p : Pubsub) (subs : List ℕ) (q : Queue)
    → remove_sub ch (subscribers channel p) ≡ some subs
    → get_elem? p.queues ch ≡ some q
    → q.closed ≡ false
    → unsubscribe channel ch p
      ≡ some (record {
        channels = left_channels channel subs p;
        queues = set p.queues ch (record q { closed = true });
      })
unfolding unsubscribe close
unsubscribe-some channel ch p subs q e live c = rw (unsubscribe, e, live, c) refl

differ : (ch i : ℕ) (subs : List ℕ) → mem ch subs ≡ false → mem i subs ≡ true → ch ≢ i
differ ch i subs out m same =
    let m' : mem ch subs ≡ true = rw same m in absurd (ground (arith, m', out))

-- What a subscriber that goes leaves of a sound pair of channels and queues.
module _ (channel : Str) (ch : ℕ) (p : Pubsub) (s : IsSound p) (subs : List ℕ)
    (e : remove_sub ch (subscribers channel p) ≡ some subs) (q : Queue) where
  abbrev left : Pubsub
  left = record {
    channels = left_channels channel subs p;
    queues = set p.queues ch (record q { closed = true });
  }

  was_in : mem ch (subscribers channel p) ≡ true
  was_in = (remove_sub-AreOpen ch p.queues (subscribers channel p) subs (s.opened channel) e).0

  left-closed :
      (subs' : List ℕ) → mem ch subs' ≡ false → AreOpen p.queues subs' → AreOpen left.queues subs'
  left-closed subs' out o =
      AreOpen-cong p.queues left.queues subs'
        (λ i m.
          get_elem?-set_ne p.queues ch i (record q { closed = true }) (differ ch i subs' out m))
        o

  left-opened : (k : Str) → AreOpen left.queues (subscribers k left)
  left-opened k = elim (Bool-cases (eq_str channel k)) [
    | inl here ↦
        let (_, out, _, o) =
          remove_sub-AreOpen ch p.queues (subscribers channel p) subs (s.opened channel) e in
        rw (subscribers-left channel k subs p left.queues, here) (left-closed subs out o)
    | inr away ↦
        rw (subscribers-left channel k subs p left.queues, away)
          (left-closed (subscribers k p) (elsewhere away) (s.opened k))
  ]
    where
      elsewhere : eq_str channel k ≡ false → mem ch (subscribers k p) ≡ false
      elsewhere away = elim (Bool-cases (mem ch (subscribers k p))) [
        | inl m ↦ absurd (ground (arith, away, s.apart channel k ch was_in m))
        | inr out ↦ out
      ]

  left-mem : (k : Str) (i : ℕ) → mem i (subscribers k left) ≡ true → mem i (subscribers k p) ≡ true
  left-mem k i m = elim (Bool-cases (eq_str channel k)) [
    | inl here ↦
        let same : channel ≡ k = (eq_str_iff channel k).0 here in
        let (_, _, old, _) =
          remove_sub-AreOpen ch p.queues (subscribers channel p) subs (s.opened channel) e in
        rw (← same) (
          old i
            (ap (mem i) (sym (subscribers-left channel k subs p left.queues ∙ rw here refl)) ∙ m))
    | inr away ↦ ap (mem i) (sym (subscribers-left channel k subs p left.queues ∙ rw away refl)) ∙ m
  ]

  left-IsSound : IsSound left
  left-IsSound = record {
    opened = left-opened;
    apart = λ k k' i m m'. s.apart k k' i (left-mem k i m) (left-mem k' i m');
  }

-- `Unsubscribe` of a sound pair of channels and queues never panics and keeps it sound.
pub unsubscribe-IsSound :
    (channel : Str) (ch : ℕ) (p : Pubsub)
    → IsSound p
    → (p' : Pubsub) × (unsubscribe channel ch p ≡ some p') × IsSound p'
unsubscribe-IsSound channel ch p s = elim (Option-cases (remove_sub ch (subscribers channel p))) [
  | inl e ↦ (p, unsubscribe-none channel ch p e, s)
  | inr (subs, e) ↦
      let (q, live, c) =
        mem-open p.queues (subscribers channel p) ch (s.opened channel)
          (was_in channel ch p s subs e new_queue) in
      (
        left channel ch p s subs e q,
        unsubscribe-some channel ch p subs q e live c,
        left-IsSound channel ch p s subs e q,
      )
]
