-- ===== src/SetStore.antt =====
-- internal/datastructure/set.go: sets of strings with expiry. `Expire`, `ExpireAt`, `TTL` and the
-- samples of active expiration are the text of dict.go over again.
pub mod Members
mod Tests
use valkeydb.Base.{
  ℕ, zero, suc, ◌+◌, ◌*◌, Bool, true, false, Option, none, some, List, [], ◌∷◌, Str, ltb, ◌==◌,
  ◌||◌, length, if◌then◌else◌,
}
use valkeydb.Base.Int.{ℤ}
use valkeydb.Base.Map.{Map, get, put, delete, has, keys}
use valkeydb.Clock.{Time, Duration}
use valkeydb.Item.{
  Item, zero_item, is_expired, ExpirationConfig, get_max_sample_size, get_max_sample_rounds,
}
use valkeydb.Dict
use valkeydb.Dict.{Samples, samples}

abbrev pub Set : Type 0
Set = Map Item

-- The loop over the members: `added` are new so far.
unfoldable pub add_members : ℕ → List Str → Map (Unit {0}) → ℕ × Map (Unit {0})
add_members added [] members = (added, members)
add_members added (m ∷ rest) members =
    add_members (if has m members then added else added + 1) rest
      (if has m members then members else put m tt members)

-- The item of a key, or `Item{Members: make(…)}`.
unfoldable pub item_or_new : Option Item → Item
item_or_new none = zero_item
item_or_new (some item) = item

unfoldable pub sadd : Str → List Str → Set → ℕ × Set
sadd key members s =
    let item = item_or_new (get key s) in
    let (added, members') = add_members 0 members item.members in
    (added, put key (record item { members = members' }) s)

unfoldable pub remove_members : ℕ → List Str → Map (Unit {0}) → ℕ × Map (Unit {0})
remove_members removed [] members = (removed, members)
remove_members removed (m ∷ rest) members =
    remove_members (if has m members then removed + 1 else removed) rest
      (if has m members then delete m members else members)

unfoldable pub srem : Str → List Str → Set → ℕ × Set
srem key members s = elim (get key s) [
  | none ↦ (0, s)
  | some item ↦
      if length item.members == 0
      then (0, s)
      else (let (removed, members') = remove_members 0 members item.members in
          (
            removed,
            if length members' == 0
                then delete key s
                else put key (record item { members = members' }) s,
          ))
]

-- `none` is `nil, false`.
unfoldable pub smembers : Str → Time → Set → Option (List Str) × Set
smembers key now s = elim (get key s) [
  | none ↦ (none, s)
  | some item ↦ if is_expired item now then (none, delete key s) else (some (keys item.members), s)
]

unfoldable pub sismember : Str → Str → Time → Set → Bool × Set
sismember key member now s = elim (get key s) [
  | none ↦ (false, s)
  | some item ↦ if is_expired item now then (false, delete key s) else (has member item.members, s)
]

unfoldable pub scard : Str → Time → Set → ℕ × Set
scard key now s = elim (get key s) [
  | none ↦ (0, s)
  | some item ↦ if is_expired item now then (0, delete key s) else (length item.members, s)
]

unfoldable pub expire : Str → Duration → Time → Set → Bool × Set
expire key ttl now s = Dict.expire key ttl now s

unfoldable pub expire_at : Str → Time → Time → Set → Bool × Set
expire_at key at now s = Dict.expire_at key at now s

unfoldable pub ttl : Str → Time → Set → ℤ × Set
ttl key now s = Dict.ttl key now s

-- The copies hold the members and the expiry.
unfoldable pub dump_from : (ℕ → Time) → ℕ → Set → Map Item
dump_from clock n [] = []
dump_from clock n ((key, item) ∷ s) =
    let rest = dump_from clock (n + 1) s in
    if is_expired item (clock n)
    then rest
    else (key, record zero_item { members = item.members; expired_at = item.expired_at }) ∷ rest

unfoldable pub dump : (ℕ → Time) → Set → Map Item
unfolding dump_from
dump clock s = dump_from clock 0 s

unfoldable pub rounds : Option ExpirationConfig → Samples → ℕ → ℕ → Set → Set
rounds config r zero i s = s
rounds config r (suc n) i s =
    let names = keys s in
    let size = get_max_sample_size config in
    let limit = if ltb (length names) size then length names else size in
    let (checked, expired, s') = samples r names i limit 0 (0, 0, s) in
    let more = rounds config r n (i + 1) s' in
    if length names == 0 then s else if checked == 0 || ltb (expired * 4) checked then s' else more

unfoldable pub active_expire : Option ExpirationConfig → Samples → Set → Set
active_expire config r s =
    if length s == 0 then s else rounds config r (get_max_sample_rounds config) 0 s
