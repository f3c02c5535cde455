-- ===== src/Command/WellformedSets.antt =====
-- The operations of the sets keep them well-formed.
use valkeydb.Base.{
  ℕ, ◌+◌, ◌≡◌, subst, List, [], ◌∷◌, arith, Str, eq_str, length, ◌==◌, Option-cases, Bool-cases,
  inl, inr,
}
use valkeydb.Base.Int.{pos, leb_ℤ, ◌+ℤ◌}
use valkeydb.Base.Map.{
  Map, IsMap, get, put, delete, has, get-put, get-delete, put-IsMap, delete-IsMap,
}
use valkeydb.Clock.{Time, Duration}
use valkeydb.Item.{Item, is_expired}
use valkeydb.Dict
use valkeydb.Dict.{Dict}
use valkeydb.SetStore
use valkeydb.SetStore.{Set, add_members, remove_members, item_or_new}
use valkeydb.Command.Wellformed.{AreSets, HaveMembers}

pub put-AreSets :
    (key : Str) (item : Item) (s : Set) → AreSets s → IsMap item.members → AreSets (put key item s)
put-AreSets key item s h m = (put-IsMap key item s h.0, members)
  where
    members : HaveMembers (put key item s)
    members k i e = elim (Bool-cases (eq_str key k)) [
      | inl here ↦
          let same : item ≡ i = ground (arith, e, here, get-put key k item s) in
          subst (λ x. IsMap x.members) same m
      | inr other ↦ h.1 k i (ground (arith, e, other, get-put key k item s))
    ]

pub delete-AreSets : (key : Str) (s : Set) → AreSets s → AreSets (delete key s)
delete-AreSets key s h = (delete-IsMap key s h.0, members)
  where
    members : HaveMembers (delete key s)
    members k i e = elim (Bool-cases (eq_str key k)) [
      | inl here ↦ absurd (ground (arith, e, here, get-delete key k s))
      | inr other ↦ h.1 k i (ground (arith, e, other, get-delete key k s))
    ]

add_members-IsMap :
    (added : ℕ) (names : List Str) (m : Map (Unit {0}))
    → IsMap m
    → IsMap (add_members added names m).1
unfolding add_members
add_members-IsMap added [] m h = h
add_members-IsMap added (x ∷ names) m h = elim (Bool-cases (has x m)) [
  | inl e ↦ rw (e, add_members) (add_members-IsMap added names m h)
  | inr e ↦
      rw (e, add_members) (add_members-IsMap (added + 1) names (put x tt m) (put-IsMap x tt m h))
]

remove_members-IsMap :
    (removed : ℕ) (names : List Str) (m : Map (Unit {0}))
    → IsMap m
    → IsMap (remove_members removed names m).1
unfolding remove_members
remove_members-IsMap removed [] m h = h
remove_members-IsMap removed (x ∷ names) m h = elim (Bool-cases (has x m)) [
  | inl e ↦
      rw (e, remove_members)
        (remove_members-IsMap (removed + 1) names (delete x m) (delete-IsMap x m h))
  | inr e ↦ rw (e, remove_members) (remove_members-IsMap removed names m h)
]

item_or_new-IsMap : (key : Str) (s : Set) → AreSets s → IsMap (item_or_new (get key s)).members
unfolding item_or_new
item_or_new-IsMap key s h = elim (Option-cases (get key s)) [
  | inl e ↦ rw (e, item_or_new) tt
  | inr (item, e) ↦ rw (e, item_or_new) (h.1 key item e)
]

pub sadd-AreSets :
    (key : Str) (names : List Str) (s : Set) → AreSets s → AreSets (SetStore.sadd key names s).1
unfolding SetStore.sadd
sadd-AreSets key names s h =
    put-AreSets key _ s h (add_members-IsMap 0 names _ (item_or_new-IsMap key s h))

pub srem-AreSets :
    (key : Str) (names : List Str) (s : Set) → AreSets s → AreSets (SetStore.srem key names s).1
unfolding SetStore.srem
srem-AreSets key names s h = elim (Option-cases (get key s)) [
  | inl e ↦ rw (e, SetStore.srem) h
  | inr (item, e) ↦
      let left = (remove_members 0 names item.members).1 in
      elim (Bool-cases (length item.members == 0)) [
        | inl z ↦ rw (e, z, SetStore.srem) h
        | inr z ↦ elim (Bool-cases (length left == 0)) [
          | inl y ↦ rw (e, z, y, SetStore.srem) (delete-AreSets key s h)
          | inr y ↦
              rw (e, z, y, SetStore.srem)
                (put-AreSets key (record item { members = left }) s h
                  (remove_members-IsMap 0 names item.members (h.1 key item e)))
        ]
      ]
]

-- A read takes away a set that has expired, or nothing.
pub smembers-AreSets :
    (key : Str) (now : Time) (s : Set) → AreSets s → AreSets (SetStore.smembers key now s).1
unfolding SetStore.smembers
smembers-AreSets key now s h = elim (Option-cases (get key s)) [
  | inl e ↦ rw (e, SetStore.smembers) h
  | inr (item, e) ↦ elim (Bool-cases (is_expired item now)) [
    | inl x ↦ rw (e, x, SetStore.smembers) (delete-AreSets key s h)
    | inr x ↦ rw (e, x, SetStore.smembers) h
  ]
]

pub sismember-AreSets :
    (key m : Str) (now : Time) (s : Set) → AreSets s → AreSets (SetStore.sismember key m now s).1
unfolding SetStore.sismember
sismember-AreSets key m now s h = elim (Option-cases (get key s)) [
  | inl e ↦ rw (e, SetStore.sismember) h
  | inr (item, e) ↦ elim (Bool-cases (is_expired item now)) [
    | inl x ↦ rw (e, x, SetStore.sismember) (delete-AreSets key s h)
    | inr x ↦ rw (e, x, SetStore.sismember) h
  ]
]

pub scard-AreSets :
    (key : Str) (now : Time) (s : Set) → AreSets s → AreSets (SetStore.scard key now s).1
unfolding SetStore.scard
scard-AreSets key now s h = elim (Option-cases (get key s)) [
  | inl e ↦ rw (e, SetStore.scard) h
  | inr (item, e) ↦ elim (Bool-cases (is_expired item now)) [
    | inl x ↦ rw (e, x, SetStore.scard) (delete-AreSets key s h)
    | inr x ↦ rw (e, x, SetStore.scard) h
  ]
]

pub sttl-AreSets :
    (key : Str) (now : Time) (s : Set) → AreSets s → AreSets (SetStore.ttl key now s).1
unfolding SetStore.ttl Dict.ttl
sttl-AreSets key now s h = ground (arith, h, delete-AreSets key s h)

pub sexpire-AreSets :
    (key : Str) (ttl : Duration) (now : Time) (s : Set)
    → AreSets s
    → AreSets (SetStore.expire key ttl now s).1
unfolding SetStore.expire Dict.expire
sexpire-AreSets key ttl now s h = elim (Option-cases (get key s)) [
  | inl e ↦ rw (e, Dict.expire) h
  | inr (item, e) ↦ elim (Bool-cases (leb_ℤ ttl (pos 0))) [
    | inl x ↦ rw (e, x, Dict.expire) (delete-AreSets key s h)
    | inr x ↦
        rw (e, x, Dict.expire)
          (put-AreSets key (record item { expired_at = now +ℤ ttl }) s h (h.1 key item e))
  ]
]
