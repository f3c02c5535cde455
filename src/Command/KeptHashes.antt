-- ===== src/Command/KeptHashes.antt =====
-- The commands of the hashes keep the stores well-formed.
use valkeydb.Base.{[], ◌∷◌, length, ◌==◌, Option-cases, Bool-cases, inl, inr, ◌||◌, ltb, ◌%◌}
use valkeydb.HashStore
use valkeydb.HashStore.Invariant.{hset-IsValid, hdel-IsValid}
use valkeydb.Resp.{text_of}
use valkeydb.Command.{log_if, texts}
use valkeydb.Command.Hashes.{
  cmd_hset, put_fields, cmd_hget, cmd_hdel, cmd_hgetall, cmd_hexists, cmd_hlen,
}
use valkeydb.Command.Kept.{Keeps}
use valkeydb.Command.Wellformed.{with_hash}

pub hset-Keeps : Keeps cmd_hset
unfolding cmd_hset put_fields log_if texts
hset-Keeps [] db w = w
hset-Keeps (key ∷ []) db w = w
hset-Keeps (key ∷ f ∷ []) db w = w
hset-Keeps (key ∷ f ∷ v ∷ args) db w =
    elim (Bool-cases
      (ltb (length (key ∷ f ∷ v ∷ args)) 3 || length (key ∷ f ∷ v ∷ args) % 2 == 0)) [
        | inl e ↦ rw (e, cmd_hset) w
        | inr e ↦
            rw (e, cmd_hset)
              (with_hash w _
                (hset-IsValid (text_of key) (text_of f) (text_of v) (texts args) db.hash w.hash))
      ]

pub hget-Keeps : Keeps cmd_hget
unfolding cmd_hget
hget-Keeps [] db w = w
hget-Keeps (key ∷ []) db w = w
hget-Keeps (key ∷ f ∷ []) db w = w
hget-Keeps (key ∷ f ∷ x ∷ rest) db w = w

pub hdel-Keeps : Keeps cmd_hdel
unfolding cmd_hdel log_if
hdel-Keeps [] db w = w
hdel-Keeps (key ∷ []) db w = w
hdel-Keeps (key ∷ f ∷ args) db w =
    with_hash w _ (hdel-IsValid (text_of key) (texts (f ∷ args)) db.hash w.hash)

pub hgetall-Keeps : Keeps cmd_hgetall
unfolding cmd_hgetall
hgetall-Keeps [] db w = w
hgetall-Keeps (key ∷ []) db w = elim (Option-cases (HashStore.hgetall (text_of key) db.hash)) [
  | inl e ↦ rw (e, cmd_hgetall) w
  | inr (hash, e) ↦ rw (e, cmd_hgetall) w
]
hgetall-Keeps (key ∷ x ∷ rest) db w = w

pub hexists-Keeps : Keeps cmd_hexists
unfolding cmd_hexists
hexists-Keeps [] db w = w
hexists-Keeps (key ∷ []) db w = w
hexists-Keeps (key ∷ f ∷ []) db w = w
hexists-Keeps (key ∷ f ∷ x ∷ rest) db w = w

pub hlen-Keeps : Keeps cmd_hlen
unfolding cmd_hlen
hlen-Keeps [] db w = w
hlen-Keeps (key ∷ []) db w = w
hlen-Keeps (key ∷ x ∷ rest) db w = w
