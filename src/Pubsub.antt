-- ===== src/Pubsub.antt =====
-- internal/datastructure/pubsub.go: channels with their subscribers. A Go channel is the number of a
-- queue; `none` is a run-time panic.
pub mod Publish
pub mod Sound
pub mod Leave
pub mod Run
mod Tests
use valkeydb.Base.{
  ℕ, ◌+◌, Bool, true, false, Option, none, some, List, [], ◌∷◌, ◌++◌, Str, codes, ltb, ◌==◌, length,
  get_elem?, set, if◌then◌else◌, ◌>>=◌,
}
use valkeydb.Base.Map.{Map, get, put, delete}
use valkeydb.Resp.{Value, nil, cons, bulk, array_value}

-- `make(chan resp.Value, 100)`
pub record Queue : Type 0 where
  pub buffer : List Value
  pub closed : Bool

abbrev pub capacity : ℕ
capacity = 100

-- `queues` holds every queue that was made, the oldest first.
pub record Pubsub : Type 0 where
  pub channels : Map (List ℕ)
  pub queues : List Queue

abbrev pub new_pubsub : Pubsub
new_pubsub = record { channels = []; queues = [] }

-- `p.channels[channel]`
unfoldable pub subscribers : Str → Pubsub → List ℕ
subscribers channel p = elim (get channel p.channels) [ none ↦ [] | some subs ↦ subs ]

unfoldable pub subscribe : Str → Pubsub → ℕ × Pubsub
unfolding subscribers
subscribe channel p =
    let ch = length p.queues in
    (
      ch,
      record {
        channels = put channel (subscribers channel p ++ ch ∷ []) p.channels;
        queues = p.queues ++ record { buffer = []; closed = false } ∷ [];
      },
    )

-- The subscribers without the first that is `ch`.
unfoldable pub remove_sub : ℕ → List ℕ → Option (List ℕ)
remove_sub ch [] = none
remove_sub ch (sub ∷ subs) =
    let rest = remove_sub ch subs in
    if sub == ch then some subs else elim rest [ none ↦ none | some subs' ↦ some (sub ∷ subs') ]

-- `close(ch)`, which panics on a closed channel.
unfoldable pub close : ℕ → List Queue → Option (List Queue)
close ch queues = get_elem? queues ch >>= λ q.
    if q.closed then none else some (set queues ch (record q { closed = true }))

unfoldable pub unsubscribe : Str → ℕ → Pubsub → Option Pubsub
unfolding subscribers
unsubscribe channel ch p = elim (remove_sub ch (subscribers channel p)) [
  | none ↦ some p
  | some subs ↦ do
    queues ← close ch p.queues
    some (record {
      channels =
          if length subs == 0 then delete channel p.channels else put channel subs p.channels;
      queues = queues;
    })
]

-- `select { case ch <- msg: count++; default: }`, which panics on a closed channel.
unfoldable pub send : Value → ℕ → ℕ × List Queue → Option (ℕ × List Queue)
send msg ch (count, queues) = get_elem? queues ch >>= λ q.
    if q.closed
    then none
    else if ltb (length q.buffer) capacity
    then some (count + 1, set queues ch (record q { buffer = q.buffer ++ msg ∷ [] }))
    else some (count, queues)

unfoldable pub send_all : Value → List ℕ → ℕ × List Queue → Option (ℕ × List Queue)
send_all msg [] acc = some acc
send_all msg (ch ∷ subs) acc = do acc' ← send msg ch acc; send_all msg subs acc'

abbrev pub message_value : Str → Str → Value
message_value channel message =
    array_value (cons (bulk (codes "message")) (cons (bulk channel) (cons (bulk message) nil)))

unfoldable pub publish : Str → Str → Pubsub → Option (ℕ × Pubsub)
unfolding subscribers
publish channel message p = if length (subscribers channel p) == 0 then some (0, p) else do
  sent ← send_all (message_value channel message) (subscribers channel p) (0, p.queues)
  some (sent.0, record p { queues = sent.1 })
