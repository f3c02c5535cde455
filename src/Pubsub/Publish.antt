-- ===== src/Pubsub/Publish.antt =====
-- What a message reaches.
use mathlib.Core.Option
use valkeydb.Base.{
  ℕ, zero, suc, ◌+◌, ◌<◌, ◌≡◌, refl, ◌∙◌, ap, Bool, true, false, ◌||◌, Option, none, some, List, [],
  ◌∷◌, ◌++◌, arith, Str, ltb, ◌==◌, ==_iff, length, get_elem?, set, get_elem?-set_self,
  get_elem?-set_ne, if◌then◌else◌, Bool-cases, List-cases, inl, inr,
}
use valkeydb.Resp.{Value}
use valkeydb.Pubsub.{Queue, Pubsub, capacity, subscribers, send, send_all, message_value, publish}

unfoldable pub mem : ℕ → List ℕ → Bool
mem i [] = false
mem i (ch ∷ subs) = ch == i || mem i subs

-- A queue after a message, which a full one misses.
abbrev pub deliver : Value → Queue → Queue
deliver msg q =
    if ltb (length q.buffer) capacity then record q { buffer = q.buffer ++ msg ∷ [] } else q

abbrev pub room : Option Queue → ℕ
room none = 0
room (some q) = if ltb (length q.buffer) capacity then 1 else 0

-- How many of the subscribers have room.
unfoldable pub rooms : List Queue → List ℕ → ℕ
rooms queues [] = 0
rooms queues (ch ∷ subs) = room (get_elem? queues ch) + rooms queues subs

-- The subscribers are different queues that are not closed.
unfoldable pub AreOpen : List Queue → List ℕ → Type 0
AreOpen queues [] = Unit
AreOpen queues (ch ∷ subs) =
    ((q : Queue) × (get_elem? queues ch ≡ some q) × (q.closed ≡ false))
    × (mem ch subs ≡ false)
    × AreOpen queues subs

pub get_elem?-bound {ℓ} :
    {A : Type ℓ} (xs : List A) (i : ℕ) (a : A) → get_elem? xs i ≡ some a → i < length xs
get_elem?-bound [] i a e = absurd cc
get_elem?-bound (x ∷ xs) zero a e = omega arith
get_elem?-bound (x ∷ xs) (suc i) a e = omega (arith, get_elem?-bound xs i a e)

pub AreOpen-cong :
    (queues queues' : List Queue) (subs : List ℕ)
    → ((i : ℕ) → mem i subs ≡ true → get_elem? queues' i ≡ get_elem? queues i)
    → AreOpen queues subs
    → AreOpen queues' subs
unfolding AreOpen mem
AreOpen-cong queues queues' [] same o = tt
AreOpen-cong queues queues' (ch ∷ subs) same ((q, e, c), fresh, o) = (
  (q, same ch (ground arith) ∙ e, c),
  fresh,
  AreOpen-cong queues queues' subs (λ i m. same i (ground (arith, m))) o,
)

rooms-cong :
    (queues queues' : List Queue) (subs : List ℕ)
    → ((i : ℕ) → mem i subs ≡ true → get_elem? queues' i ≡ get_elem? queues i)
    → rooms queues' subs ≡ rooms queues subs
unfolding rooms mem
rooms-cong queues queues' [] same = refl
rooms-cong queues queues' (ch ∷ subs) same =
    rw (same ch (ground arith), rooms-cong queues queues' subs (λ i m. same i (ground (arith, m))))
      refl

send-open :
    (msg : Value) (ch count : ℕ) (queues : List Queue) (q : Queue)
    → get_elem? queues ch ≡ some q
    → q.closed ≡ false
    → (queues' : List Queue) × (send msg ch (count, queues) ≡ some (count + room (some q), queues'))
      × ((i : ℕ)
          → get_elem? queues' i ≡ (if ch == i then some (deliver msg q) else get_elem? queues i))
unfolding send
send-open msg ch count queues q e c = elim (Bool-cases (ltb (length q.buffer) capacity)) [
  | inl free ↦
      let q' = record q { buffer = q.buffer ++ msg ∷ [] } in
      (
        set queues ch q',
        rw (e, c, free) refl,
        λ i. ground (
          arith,
          free,
          ==_iff ch i,
          get_elem?-set_self queues ch q' (get_elem?-bound queues ch q e),
          get_elem?-set_ne queues ch i q',
        ),
      )
  | inr full ↦ (
    queues,
    rw (e, c, full) (let z : count ≡ count + 0 = omega arith in ap (λ n. some (n, queues)) z),
    λ i. ground (arith, full, e, ==_iff ch i),
  )
]

-- The queues after a message to `subs`.
abbrev Reached : Value → List ℕ → List Queue → List Queue → Type 0
Reached msg subs queues queues' =
    (i : ℕ)
    → get_elem? queues' i
      ≡ (if mem i subs then Option.map (deliver msg) (get_elem? queues i) else get_elem? queues i)

Reached-cons :
    (msg : Value) (ch : ℕ) (subs : List ℕ) (queues next queues' : List Queue) (q : Queue)
    → get_elem? queues ch ≡ some q
    → mem ch subs ≡ false
    → ((i : ℕ) → get_elem? next i ≡ (if ch == i then some (deliver msg q) else get_elem? queues i))
    → Reached msg subs next queues'
    → Reached msg (ch ∷ subs) queues queues'
unfolding mem
Reached-cons msg ch subs queues next queues' q e fresh step rest i = elim (Bool-cases (ch == i)) [
  | inl here ↦
      let same : ch ≡ i = (==_iff ch i).0 here in
      let e' : get_elem? queues i ≡ some q = rw (← same) e in
      let fresh' : mem i subs ≡ false = rw (← same) fresh in
      rw (rest i, fresh', step i, here, e') refl
  | inr other ↦ rw (rest i, step i, other) refl
]

send_all-open :
    (msg : Value) (subs : List ℕ) (count : ℕ) (queues : List Queue)
    → AreOpen queues subs
    → (queues' : List Queue) × (send_all msg subs (count, queues)
        ≡ some (count + rooms queues subs, queues'))
      × Reached msg subs queues queues'
unfolding send_all rooms AreOpen mem
send_all-open msg [] count queues o =
    (queues, (let z : count ≡ count + 0 = omega arith in ap (λ n. some (n, queues)) z), λ i. refl)
send_all-open msg (ch ∷ subs) count queues ((q, e, c), fresh, o) =
    let (next, sent, step) = send-open msg ch count queues q e c in
    let same : (i : ℕ) → mem i subs ≡ true → get_elem? next i ≡ get_elem? queues i =
      λ i m. step i ∙ rw (differ i m) refl in
    let (queues', rest, reached) =
      send_all-open msg subs (count + room (some q)) next (AreOpen-cong queues next subs same o) in
    let total : count + room (some q) + rooms next subs
        ≡ count + (room (some q) + rooms queues subs) =
      rw (rooms-cong queues next subs same) (omega arith) in
    (
      queues',
      rw (sent, e) (rest ∙ ap (λ n. some (n, queues')) total),
      Reached-cons msg ch subs queues next queues' q e fresh step reached,
    )
  where
    differ : (i : ℕ) → mem i subs ≡ true → ch == i ≡ false
    differ i m = elim (Bool-cases (ch == i)) [
      | inl here ↦ absurd (ground (arith, m, fresh, ==_iff ch i, here))
      | inr other ↦ other
    ]

publish-nobody :
    (channel message : Str) (p : Pubsub)
    → subscribers channel p ≡ []
    → publish channel message p ≡ some (0, p)
unfolding publish
publish-nobody channel message p e = rw (e, publish) refl

publish-sent :
    (channel message : Str) (p : Pubsub) (n ch : ℕ) (subs : List ℕ) (queues : List Queue)
    → subscribers channel p ≡ ch ∷ subs
    → send_all (message_value channel message) (subscribers channel p) (0, p.queues)
      ≡ some (n, queues)
    → publish channel message p ≡ some (n, record p { queues = queues })
unfolding publish
publish-sent channel message p n ch subs queues e sent =
    elim (Bool-cases (length (subscribers channel p) == 0)) [
      | inl z ↦ absurd (ground (arith, z, e))
      | inr z ↦ rw (publish, z, sent) refl
    ]

-- `Publish`, where the channel's subscribers are different queues that are not closed, never panics:
-- it puts the message behind each of their buffers that has room, changes no other queue and no
-- subscription, and returns how many that were.
pub publish_lem :
    (channel message : Str) (p : Pubsub)
    → AreOpen p.queues (subscribers channel p)
    → (p' : Pubsub) × (publish channel message p
        ≡ some (rooms p.queues (subscribers channel p), p'))
      × (p'.channels ≡ p.channels)
      × ((i : ℕ)
          → get_elem? p'.queues i ≡ (
              if mem i (subscribers channel p)
              then Option.map (deliver (message_value channel message)) (get_elem? p.queues i)
              else get_elem? p.queues i))
unfolding rooms mem
publish_lem channel message p o = elim (List-cases (subscribers channel p)) [
  | inl e ↦
      (p, publish-nobody channel message p e ∙ rw (e, rooms) refl, refl, λ i. rw (e, mem) refl)
  | inr (ch, subs, e) ↦
      let (queues, sent, reached) =
        send_all-open (message_value channel message) (subscribers channel p) 0 p.queues o in
      let n = rooms p.queues (subscribers channel p) in
      let z : 0 + n ≡ n = omega arith in
      (
        record p { queues = queues },
        publish-sent channel message p (0 + n) ch subs queues e sent
            ∙ ap (λ m. some (m, record p { queues = queues })) z,
        refl,
        reached,
      )
]
