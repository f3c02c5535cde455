-- ===== src/Pubsub/Run.antt =====
-- Any sequence of calls.
use mathlib.Core.Option
use valkeydb.Base.{
  ℕ, ◌≡◌, refl, ◌∙◌, true, false, Option, some, List, [], ◌∷◌, arith, Str, get_elem?, if◌then◌else◌,
  ◌>>=◌, Bool-cases, ◌⊎◌, inl, inr,
}
use valkeydb.Base.Map.{get}
use valkeydb.Resp.{Value}
use valkeydb.Pubsub.{
  Queue, Pubsub, new_pubsub, subscribers, subscribe, unsubscribe, message_value, publish,
}
use valkeydb.Pubsub.Publish.{mem, deliver, AreOpen, publish_lem}
use valkeydb.Pubsub.Sound.{IsSound, subscribe-IsSound}
use valkeydb.Pubsub.Leave.{unsubscribe-IsSound}

subscribers-same :
    (c : Str) (p p' : Pubsub) → p'.channels ≡ p.channels → subscribers c p' ≡ subscribers c p
unfolding subscribers
subscribers-same c p p' e = rw e refl

-- A message opens and closes nothing.
deliver-closed : (msg : Value) (q : Queue) → (deliver msg q).closed ≡ q.closed
deliver-closed msg q = ground arith

AreOpen-deliver :
    (msg : Value) (to subs : List ℕ) (queues queues' : List Queue)
    → ((i : ℕ)
        → get_elem? queues' i ≡ (
            if mem i to then Option.map (deliver msg) (get_elem? queues i) else get_elem? queues i))
    → AreOpen queues subs
    → AreOpen queues' subs
unfolding AreOpen
AreOpen-deliver msg to [] queues queues' h o = tt
AreOpen-deliver msg to (ch ∷ subs) queues queues' h ((q, e, c), fresh, o) =
    (reached (Bool-cases (mem ch to)), fresh, AreOpen-deliver msg to subs queues queues' h o)
  where
    reached :
        ((mem ch to ≡ true) ⊎ (mem ch to ≡ false))
        → (q' : Queue) × (get_elem? queues' ch ≡ some q') × (q'.closed ≡ false)
    reached (inl m) = (deliver msg q, h ch ∙ rw (m, e) refl, deliver-closed msg q ∙ c)
    reached (inr m) = (q, h ch ∙ rw m e, c)

pub publish-IsSound :
    (channel message : Str) (p : Pubsub)
    → IsSound p
    → (sent : ℕ) × (p' : Pubsub) × (publish channel message p ≡ some (sent, p')) × IsSound p'
publish-IsSound channel message p s =
    let (p', e, same, h) = publish_lem channel message p (s.opened channel) in
    let subs : (c : Str) → subscribers c p' ≡ subscribers c p = λ c. subscribers-same c p p' same in
    (
      _,
      p',
      e,
      record {
        opened = λ c. rw (subs c) (
            AreOpen-deliver (message_value channel message) (subscribers channel p)
              (subscribers c p) p.queues p'.queues h (s.opened c));
        apart = λ c c' i m m'. s.apart c c' i (rw (subs c) at m) (rw (subs c') at m');
      },
    )

pub data Call : Type 0 where
  subscribing : Str → Call
  unsubscribing : Str → ℕ → Call
  publishing : Str → Str → Call

-- A sequence of calls; `none` if one of them panics.
unfoldable pub run : List Call → Pubsub → Option Pubsub
run [] p = some p
run (subscribing c ∷ calls) p = run calls (subscribe c p).1
run (unsubscribing c ch ∷ calls) p = unsubscribe c ch p >>= λ p'. run calls p'
run (publishing c m ∷ calls) p = publish c m p >>= λ sent. run calls sent.1

-- From channels and queues where every queue that has a subscription is open and has that
-- subscription alone, no sequence of calls panics, whatever is unsubscribed, and this stays so.
pub run-IsSound :
    (calls : List Call) (p : Pubsub)
    → IsSound p
    → (p' : Pubsub) × (run calls p ≡ some p') × IsSound p'
unfolding run
run-IsSound [] p s = (p, refl, s)
run-IsSound (subscribing c ∷ calls) p s =
    run-IsSound calls (subscribe c p).1 (subscribe-IsSound c p s)
run-IsSound (unsubscribing c ch ∷ calls) p s =
    let (next, e, s') = unsubscribe-IsSound c ch p s in
    let (p', e', s'') = run-IsSound calls next s' in (p', rw e e', s'')
run-IsSound (publishing c m ∷ calls) p s =
    let (sent, next, e, s') = publish-IsSound c m p s in
    let (p', e', s'') = run-IsSound calls next s' in (p', rw e e', s'')

pub new_pubsub-IsSound : IsSound new_pubsub
unfolding subscribers AreOpen mem get
new_pubsub-IsSound = record { opened = λ c. tt; apart = λ c c' i m m'. absurd cc }
