-- ===== src/Command/KeptLists.antt =====
-- The commands of the lists, the hashes, the channels and the system keep the stores well-formed.
use valkeydb.Base.{
  ◌≡◌, ◌⊎◌, refl, true, false, Option, none, some, List, [], ◌∷◌, Str, eq_str, Option-cases,
  Bool-cases, inl, inr, After,
}
use valkeydb.Base.Int.{ℤ}
use valkeydb.Base.Map.{IsMap}
use valkeydb.Decimal.{parse_int}
use valkeydb.ListStore
use valkeydb.ListStore.{Lists}
use valkeydb.Item.{Item}
use valkeydb.Pubsub.Sound.{subscribe-IsSound}
use valkeydb.Pubsub.Leave.{unsubscribe-IsSound}
use valkeydb.Pubsub.Run.{publish-IsSound}
use valkeydb.Resp.{Value, text_of}
use valkeydb.Command.{Db, Env, log, log_if, texts}
use valkeydb.Command.Sequences.{
  cmd_lpush, cmd_rpush, cmd_lpop, cmd_rpop, cmd_llen, cmd_lrange, cmd_sort, pop_reply, pop_count,
  sort_options,
}
use valkeydb.Command.Channels.{cmd_subscribe, cmd_unsubscribe, cmd_publish}
use valkeydb.Command.System.{cmd_auth, cmd_info, cmd_bgsave, cmd_keys, cmd_monitor}
use valkeydb.Command.Kept.{Keeps}
use valkeydb.Command.Wellformed.{
  IsWell, with_list, with_pubsub, lpush-IsMap, rpush-IsMap, pop_items-IsMap, sort-IsMap,
}

After-cases {ℓ κ} :
    {A : Type ℓ} (P : A → Type κ) (o : Option A)
    → After P o
    → (o ≡ none) ⊎ ((a : A) × (o ≡ some a) × P a)
After-cases P none h = inl refl
After-cases P (some a) h = inr (a, refl, h)

-- Lists, hashes, channels and the system.
pub lpush-Keeps : Keeps cmd_lpush
unfolding cmd_lpush log_if
lpush-Keeps [] db w = w
lpush-Keeps (key ∷ []) db w = w
lpush-Keeps (key ∷ v ∷ args) db w =
    elim (After-cases (λ r. IsMap r.1) (ListStore.lpush (text_of key) (texts (v ∷ args)) db.list)
      (lpush-IsMap (text_of key) (texts (v ∷ args)) db.list w.list)) [
        | inl e ↦ rw (e, cmd_lpush) tt
        | inr (pushed, e, m) ↦ rw (e, cmd_lpush) (with_list w pushed.1 m)
      ]

pub rpush-Keeps : Keeps cmd_rpush
unfolding cmd_rpush log_if
rpush-Keeps [] db w = w
rpush-Keeps (key ∷ []) db w = w
rpush-Keeps (key ∷ v ∷ args) db w =
    elim (After-cases (λ r. IsMap r.1) (ListStore.rpush (text_of key) (texts (v ∷ args)) db.list)
      (rpush-IsMap (text_of key) (texts (v ∷ args)) db.list w.list)) [
        | inl e ↦ rw (e, cmd_rpush) tt
        | inr (pushed, e, m) ↦ rw (e, cmd_rpush) (with_list w pushed.1 m)
      ]

pop_reply-Keeps :
    (pop : Str → ℤ → Lists → Option (List Item × Lists)) (key : Str) (args : List Value) (db : Db)
    → ((count : ℤ) → After (λ (items, l). IsMap l) (pop key count db.list))
    → IsWell db
    → After (λ (reply, db'). IsWell db') (pop_reply pop key args db)
unfolding pop_reply
pop_reply-Keeps pop key args db h w = elim (Option-cases (pop_count args)) [
  | inl e ↦ rw (e, pop_reply) w
  | inr (count, e) ↦ elim (After-cases (λ r. IsMap r.1) (pop key count db.list) (h count)) [
    | inl f ↦ rw (e, f, pop_reply) tt
    | inr (popped, f, m) ↦ rw (e, f, pop_reply) (with_list w popped.1 m)
  ]
]

pub lpop-Keeps : Keeps cmd_lpop
unfolding cmd_lpop ListStore.lpop
lpop-Keeps [] db w = w
lpop-Keeps (key ∷ []) db w =
    pop_reply-Keeps ListStore.lpop (text_of key) [] db
      (λ n. pop_items-IsMap _ (text_of key) n db.list w.list) w
lpop-Keeps (key ∷ c ∷ []) db w =
    pop_reply-Keeps ListStore.lpop (text_of key) (c ∷ []) db
      (λ n. pop_items-IsMap _ (text_of key) n db.list w.list) w
lpop-Keeps (key ∷ c ∷ x ∷ rest) db w = w

pub rpop-Keeps : Keeps cmd_rpop
unfolding cmd_rpop ListStore.rpop
rpop-Keeps [] db w = w
rpop-Keeps (key ∷ []) db w =
    pop_reply-Keeps ListStore.rpop (text_of key) [] db
      (λ n. pop_items-IsMap _ (text_of key) n db.list w.list) w
rpop-Keeps (key ∷ c ∷ []) db w =
    pop_reply-Keeps ListStore.rpop (text_of key) (c ∷ []) db
      (λ n. pop_items-IsMap _ (text_of key) n db.list w.list) w
rpop-Keeps (key ∷ c ∷ x ∷ rest) db w = w

pub llen-Keeps : Keeps cmd_llen
unfolding cmd_llen
llen-Keeps [] db w = w
llen-Keeps (key ∷ []) db w = w
llen-Keeps (key ∷ x ∷ rest) db w = w

pub lrange-Keeps : Keeps cmd_lrange
unfolding cmd_lrange
lrange-Keeps [] db w = w
lrange-Keeps (key ∷ []) db w = w
lrange-Keeps (key ∷ a ∷ []) db w = w
lrange-Keeps (key ∷ a ∷ b ∷ []) db w = elim (Option-cases (parse_int (text_of a))) [
  | inl e ↦ rw (e, cmd_lrange) w
  | inr (n, e) ↦ elim (Option-cases (parse_int (text_of b))) [
    | inl f ↦ rw (e, f, cmd_lrange) w
    | inr (m, f) ↦ elim (Option-cases (ListStore.lrange (text_of key) n m db.list)) [
      | inl g ↦ rw (e, f, g, cmd_lrange) tt
      | inr (items, g) ↦ rw (e, f, g, cmd_lrange) w
    ]
  ]
]
lrange-Keeps (key ∷ a ∷ b ∷ x ∷ rest) db w = w

pub subscribe-Keeps : Keeps cmd_subscribe
unfolding cmd_subscribe
subscribe-Keeps [] db w = w
subscribe-Keeps (name ∷ []) db w =
    with_pubsub w _ (subscribe-IsSound (text_of name) db.pubsub w.pubsub)
subscribe-Keeps (name ∷ x ∷ rest) db w = w

pub unsubscribe-Keeps : Keeps cmd_unsubscribe
unfolding cmd_unsubscribe
unsubscribe-Keeps args db w = elim (Option-cases db.sub_chan) [
  | inl e ↦ rw (e, cmd_unsubscribe) w
  | inr (ch, e) ↦
      let (p, f, s) = unsubscribe-IsSound db.sub_name ch db.pubsub w.pubsub in
      rw (e, f, cmd_unsubscribe) (with_pubsub w p s)
]

pub publish-Keeps : Keeps cmd_publish
unfolding cmd_publish
publish-Keeps [] db w = w
publish-Keeps (c ∷ []) db w = w
publish-Keeps (c ∷ m ∷ []) db w =
    let (n, p, f, s) = publish-IsSound (text_of c) (text_of m) db.pubsub w.pubsub in
    rw (f, cmd_publish) (with_pubsub w p s)
publish-Keeps (c ∷ m ∷ x ∷ rest) db w = w

pub monitor-Keeps : Keeps cmd_monitor
unfolding cmd_monitor
monitor-Keeps args db w = w

pub bgsave-Keeps : Keeps cmd_bgsave
unfolding cmd_bgsave
bgsave-Keeps args db w = w

module _ (env : Env) where
  pub sort-Keeps : Keeps (cmd_sort env)
  unfolding cmd_sort log
  sort-Keeps [] db w = w
  sort-Keeps (key ∷ args) db w = elim (Option-cases (sort_options (texts args) (true, false))) [
    | inl e ↦ rw (e, cmd_sort) w
    | inr ((asc, alpha), e) ↦
        elim (After-cases IsMap
          (ListStore.sort env.floats env.sort_slice (text_of key) asc alpha db.list)
          (sort-IsMap env.floats env.sort_slice (text_of key) asc alpha db.list w.list)) [
            | inl f ↦ rw (e, f, cmd_sort) tt
            | inr (l, f, m) ↦ rw (e, f, cmd_sort) (with_list w l m)
          ]
  ]

  pub auth-Keeps : Keeps (cmd_auth env)
  unfolding cmd_auth
  auth-Keeps [] db w = tt
  auth-Keeps (a ∷ []) db w = elim (Bool-cases (eq_str (text_of a) env.auth)) [
    | inl e ↦ rw (e, cmd_auth) w
    | inr e ↦ rw (e, cmd_auth) w
  ]
  auth-Keeps (a ∷ b ∷ rest) db w = w

  pub info-Keeps : Keeps (cmd_info env)
  unfolding cmd_info
  info-Keeps args db w = elim (Option-cases (ListStore.dump db.list)) [
    | inl e ↦ rw (e, cmd_info) tt
    | inr (l, e) ↦ rw (e, cmd_info) w
  ]

  pub keys-Keeps : Keeps (cmd_keys env)
  unfolding cmd_keys
  keys-Keeps [] db w = w
  keys-Keeps (a ∷ rest) db w = elim (Option-cases (ListStore.dump db.list)) [
    | inl e ↦ rw (e, cmd_keys) tt
    | inr (l, e) ↦ rw (e, cmd_keys) w
  ]
