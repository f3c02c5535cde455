-- ===== src/Pubsub/Sound.antt =====
-- A queue that has a subscription is open and has no other one; new subscriptions.
use valkeydb.Base.{
  ℕ, ◌<◌, ◌≡◌, refl, ◌∙◌, ap, sym, true, false, ◌||◌, List, [], ◌∷◌, ◌++◌, arith, Str, eq_str,
  eq_str_iff, ◌==◌, ==_iff, length, get_elem?-append_left, get_elem?-append_last, if◌then◌else◌,
  Bool-cases, ◌⊎◌, inl, inr,
}
use valkeydb.Base.Map.{put, get-put}
use valkeydb.Pubsub.{Queue, Pubsub, subscribers, subscribe}
use valkeydb.Pubsub.Publish.{mem, AreOpen, AreOpen-cong, get_elem?-bound}

pub record IsSound (p : Pubsub) : Type 0 where
  pub opened : (c : Str) → AreOpen p.queues (subscribers c p)
  pub apart :
      (c c' : Str) (i : ℕ)
      → mem i (subscribers c p) ≡ true
      → mem i (subscribers c' p) ≡ true
      → eq_str c c' ≡ true

AreOpen-bound :
    (queues : List Queue) (subs : List ℕ) (i : ℕ)
    → AreOpen queues subs
    → mem i subs ≡ true
    → i < length queues
unfolding AreOpen mem
AreOpen-bound queues [] i o m = absurd cc
AreOpen-bound queues (ch ∷ subs) i ((q, e, c), fresh, o) m = elim (Bool-cases (ch == i)) [
  | inl here ↦
      let same : ch ≡ i = (==_iff ch i).0 here in get_elem?-bound queues i q (rw (← same) e)
  | inr other ↦ AreOpen-bound queues subs i o (ground (arith, m, other))
]

mem-append : (i n : ℕ) (subs : List ℕ) → mem i (subs ++ n ∷ []) ≡ (mem i subs || n == i)
unfolding mem
mem-append i n [] = ground arith
mem-append i n (ch ∷ subs) = ground (arith, mem-append i n subs)

-- A new queue behind the others.
AreOpen-append :
    (queues : List Queue) (q : Queue) (subs : List ℕ)
    → q.closed ≡ false
    → AreOpen queues subs
    → AreOpen (queues ++ q ∷ []) (subs ++ length queues ∷ [])
unfolding AreOpen mem
AreOpen-append queues q [] c o =
    ((q, get_elem?-append_last queues q (length queues) refl, c), refl, tt)
AreOpen-append queues q (ch ∷ subs) c ((q', e, c'), fresh, o) =
    let bound : ch < length queues = get_elem?-bound queues ch q' e in
    (
      (q', get_elem?-append_left queues (q ∷ []) ch bound ∙ e, c'),
      mem-append ch (length queues) subs ∙ ground (arith, fresh, bound, ==_iff (length queues) ch),
      AreOpen-append queues q subs c o,
    )

AreOpen-longer :
    (queues : List Queue) (q : Queue) (subs : List ℕ)
    → AreOpen queues subs
    → AreOpen (queues ++ q ∷ []) subs
AreOpen-longer queues q subs o =
    AreOpen-cong queues (queues ++ q ∷ []) subs
      (λ i m. get_elem?-append_left queues (q ∷ []) i (AreOpen-bound queues subs i o m)) o

pub subscribers-put :
    (channel c : Str) (subs : List ℕ) (p : Pubsub) (queues : List Queue)
    → subscribers c (record { channels = put channel subs p.channels; queues = queues })
      ≡ (if eq_str channel c then subs else subscribers c p)
unfolding subscribers
subscribers-put channel c subs p queues = ground (arith, get-put channel c subs p.channels)

-- A subscription after `Subscribe` is an old one, or that of the new queue.
subscribed :
    (channel : Str) (p : Pubsub) (c : Str) (i : ℕ)
    → IsSound p
    → mem i (subscribers c (subscribe channel p).1) ≡ true
    → ((mem i (subscribers c p) ≡ true) × (i < length p.queues))
      ⊎ ((eq_str channel c ≡ true) × (length p.queues ≡ i))
unfolding subscribe
subscribed channel p c i s m =
    let n = length p.queues in
    let fresh : Queue = record { buffer = []; closed = false } in
    let new =
      subscribers-put channel c (subscribers channel p ++ n ∷ []) p (p.queues ++ fresh ∷ []) in
    elim (Bool-cases (eq_str channel c)) [
      | inl here ↦
          let same : channel ≡ c = (eq_str_iff channel c).0 here in
          elim (Bool-cases (n == i)) [
            | inl last ↦ inr (here, (==_iff n i).0 last)
            | inr other ↦
                let both : mem i (subscribers channel p ++ n ∷ []) ≡ true =
                  ap (mem i) (sym (new ∙ rw here refl)) ∙ m in
                let old : mem i (subscribers channel p) ≡ true =
                  ground (arith, mem-append i n (subscribers channel p), both, other) in
                inl (
                  rw (← same) old,
                  AreOpen-bound p.queues (subscribers channel p) i (s.opened channel) old,
                )
          ]
      | inr other ↦
          let old : mem i (subscribers c p) ≡ true = ap (mem i) (sym (new ∙ rw other refl)) ∙ m in
          inl (old, AreOpen-bound p.queues (subscribers c p) i (s.opened c) old)
    ]

abbrev pub new_queue : Queue
new_queue = record { buffer = []; closed = false }

-- `Subscribe` keeps the channels sound.
pub subscribe-IsSound : (channel : Str) (p : Pubsub) → IsSound p → IsSound (subscribe channel p).1
unfolding subscribe
subscribe-IsSound channel p s =
    let n = length p.queues in
    let fresh : Queue = record { buffer = []; closed = false } in
    let new : (c : Str)
        → subscribers c (subscribe channel p).1
          ≡ (if eq_str channel c then subscribers channel p ++ n ∷ [] else subscribers c p) =
      λ c. subscribers-put channel c (subscribers channel p ++ n ∷ []) p (p.queues ++ fresh ∷ []) in
    record {
      opened = λ c. elim (Bool-cases (eq_str channel c)) [
        | inl here ↦
            rw (new c, here)
              (AreOpen-append p.queues fresh (subscribers channel p) refl (s.opened channel))
        | inr other ↦
            rw (new c, other) (AreOpen-longer p.queues fresh (subscribers c p) (s.opened c))
      ];
      apart = λ c c' i m m'. elim (subscribed channel p c i s m) [
        | inl (old, bound) ↦ elim (subscribed channel p c' i s m') [
          | inl (old', bound') ↦ s.apart c c' i old old'
          | inr (here', last') ↦ absurd (omega (arith, bound, last'))
        ]
        | inr (here, last) ↦ elim (subscribed channel p c' i s m') [
          | inl (old', bound') ↦ absurd (omega (arith, bound', last))
          | inr (here', last') ↦
              let e : channel ≡ c = (eq_str_iff channel c).0 here in rw (← e) here'
        ]
      ];
    }
