-- ===== src/Pubsub/Tests.antt =====
-- Two subscribers of a channel.
use mathlib.Core.Option
use valkeydb.Base.{
  ℕ, ◌≡◌, refl, some, [], ◌∷◌, codes, eq_str, true, false, get_elem?, if◌then◌else◌,
}
use valkeydb.Base.Map.{get}
use valkeydb.Resp.{bulk}
use valkeydb.Pubsub.{Queue, Pubsub, subscribers, message_value, publish}
use valkeydb.Pubsub.Publish.{mem, deliver, rooms, AreOpen, publish_lem}

abbrev fresh : Queue
fresh = record { buffer = []; closed = false }

abbrev used : Queue
used = record { buffer = bulk (codes "x") ∷ []; closed = false }

abbrev closed_queue : Queue
closed_queue = record { buffer = []; closed = true }

abbrev pubsub : Pubsub
pubsub = record {
  channels = (codes "news", 2 ∷ 0 ∷ []) ∷ [];
  queues = fresh ∷ closed_queue ∷ used ∷ [];
}

pubsub-AreOpen : AreOpen pubsub.queues (subscribers (codes "news") pubsub)
unfolding AreOpen subscribers get eq_str mem
pubsub-AreOpen = ((used, refl, refl), refl, ((fresh, refl, refl), refl, tt))

publish_lem_example :
    (p' : Pubsub) × (publish (codes "news") (codes "hi") pubsub
      ≡ some (rooms pubsub.queues (subscribers (codes "news") pubsub), p'))
    × (p'.channels ≡ pubsub.channels)
    × ((i : ℕ)
        → get_elem? p'.queues i ≡ (
            if mem i (subscribers (codes "news") pubsub)
            then Option.map
                (deliver (message_value (codes "news") (codes "hi")))
                (get_elem? pubsub.queues i)
            else get_elem? pubsub.queues i))
publish_lem_example = publish_lem (codes "news") (codes "hi") pubsub pubsub-AreOpen
