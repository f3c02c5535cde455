-- ===== src/Command/Wellformed.antt =====
-- What the commands keep of the stores.
use valkeydb.Base.{
  ℕ, ◌+◌, ◌≡◌, Bool, Option, some, List, [], ◌∷◌, arith, Str, Option-cases, Bool-cases, inl, inr,
  After,
}
use valkeydb.Base.Int.{ℤ, ◌+ℤ◌}
use valkeydb.Base.Map.{IsMap, get, delete, put-IsMap, delete-IsMap}
use valkeydb.Clock.{Time, Duration}
use valkeydb.Item.{Item}
use valkeydb.Dict
use valkeydb.Dict.{Dict}
use valkeydb.SetStore.{Set}
use valkeydb.ListStore
use valkeydb.ListStore.{Lists}
use valkeydb.HashStore.{HashMap}
use valkeydb.HashStore.Invariant.{IsValid}
use valkeydb.Pubsub.{Pubsub}
use valkeydb.Pubsub.Sound.{IsSound}
use valkeydb.Deque
use valkeydb.Deque.{Deque, is_empty}
use valkeydb.Command.{Db}

-- Each set has each member once.
abbrev pub HaveMembers : Set → Type 0
HaveMembers s = (key : Str) (item : Item) → get key s ≡ some item → IsMap item.members

abbrev pub AreSets : Set → Type 0
AreSets s = IsMap s × HaveMembers s

-- Strings, sets, lists and hashes have each key once; sets have each member once; hashes are not
-- empty and have each field once; each queue with a subscription is open and has that one alone.
pub record AreWell (d : Dict) (s : Set) (l : Lists) (h : HashMap) (p : Pubsub) : Type 0 where
  pub dict : IsMap d
  pub set : IsMap s
  pub members : HaveMembers s
  pub list : IsMap l
  pub hash : IsValid h
  pub pubsub : IsSound p

abbrev pub IsWell : Db → Type 0
IsWell db = AreWell db.dict db.set db.list db.hash db.pubsub

module _ {d : Dict} {s : Set} {l : Lists} {h : HashMap} {p : Pubsub} (w : AreWell d s l h p) where
  pub with_dict : (d' : Dict) → IsMap d' → AreWell d' s l h p
  with_dict d' m = record {
    dict = m;
    set = w.set;
    members = w.members;
    list = w.list;
    hash = w.hash;
    pubsub = w.pubsub;
  }

  pub with_set : (s' : Set) → IsMap s' × HaveMembers s' → AreWell d s' l h p
  with_set s' m = record {
    dict = w.dict;
    set = m.0;
    members = m.1;
    list = w.list;
    hash = w.hash;
    pubsub = w.pubsub;
  }

  pub with_list : (l' : Lists) → IsMap l' → AreWell d s l' h p
  with_list l' m = record {
    dict = w.dict;
    set = w.set;
    members = w.members;
    list = m;
    hash = w.hash;
    pubsub = w.pubsub;
  }

  pub with_hash : (h' : HashMap) → IsValid h' → AreWell d s l h' p
  with_hash h' m = record {
    dict = w.dict;
    set = w.set;
    members = w.members;
    list = w.list;
    hash = m;
    pubsub = w.pubsub;
  }

  pub with_pubsub : (p' : Pubsub) → IsSound p' → AreWell d s l h p'
  with_pubsub p' m = record {
    dict = w.dict;
    set = w.set;
    members = w.members;
    list = w.list;
    hash = w.hash;
    pubsub = m;
  }

-- The operations of the dictionary.
pub set-IsMap :
    (key value : Str) (ttl : Duration) (now : Time) (d : Dict)
    → IsMap d
    → IsMap (Dict.set key value ttl now d)
unfolding Dict.set
set-IsMap key value ttl now d h = put-IsMap key _ d h

pub lookup-IsMap : (key : Str) (now : Time) (d : Dict) → IsMap d → IsMap (Dict.lookup key now d).1
unfolding Dict.lookup
lookup-IsMap key now d h = ground (arith, delete-IsMap key d h)

delete_from-IsMap :
    (count : ℕ) (names : List Str) (d : Dict) → IsMap d → IsMap (Dict.delete_from count names d).1
unfolding Dict.delete_from
delete_from-IsMap count [] d h = h
delete_from-IsMap count (key ∷ names) d h = elim (Option-cases (get key d)) [
  | inl e ↦ rw (e, Dict.delete_from) (delete_from-IsMap count names d h)
  | inr (item, e) ↦
      rw (e, Dict.delete_from)
        (delete_from-IsMap (count + 1) names (delete key d) (delete-IsMap key d h))
]

pub delete_all-IsMap : (names : List Str) (d : Dict) → IsMap d → IsMap (Dict.delete_all names d).1
unfolding Dict.delete_all
delete_all-IsMap names d h = delete_from-IsMap 0 names d h

pub expire-IsMap :
    (key : Str) (ttl : Duration) (now : Time) (d : Dict)
    → IsMap d
    → IsMap (Dict.expire key ttl now d).1
unfolding Dict.expire
expire-IsMap key ttl now d h = elim (Option-cases (get key d)) [
  | inl e ↦ rw (e, Dict.expire) h
  | inr (item, e) ↦
      ground (
        arith,
        e,
        delete-IsMap key d h,
        put-IsMap key (record item { expired_at = now +ℤ ttl }) d h,
      )
]

pub expire_at-IsMap :
    (key : Str) (at now : Time) (d : Dict) → IsMap d → IsMap (Dict.expire_at key at now d).1
unfolding Dict.expire_at
expire_at-IsMap key at now d h = elim (Option-cases (get key d)) [
  | inl e ↦ rw (e, Dict.expire_at) h
  | inr (item, e) ↦
      ground (arith, e, delete-IsMap key d h, put-IsMap key (record item { expired_at = at }) d h)
]

pub ttl-IsMap : (key : Str) (now : Time) (d : Dict) → IsMap d → IsMap (Dict.ttl key now d).1
unfolding Dict.ttl
ttl-IsMap key now d h = ground (arith, delete-IsMap key d h)

-- The operations of the lists, where they do not panic.
pub lpush-IsMap :
    (key : Str) (values : List Str) (l : Lists)
    → IsMap l
    → After (λ (n, l'). IsMap l') (ListStore.lpush key values l)
unfolding ListStore.lpush
lpush-IsMap key values l h =
    elim (Option-cases (ListStore.push_all_front values (ListStore.deque_or_new (get key l)))) [
      | inl e ↦ rw (e, ListStore.lpush) tt
      | inr (d, e) ↦ rw (e, ListStore.lpush) (put-IsMap key d l h)
    ]

pub rpush-IsMap :
    (key : Str) (values : List Str) (l : Lists)
    → IsMap l
    → After (λ (n, l'). IsMap l') (ListStore.rpush key values l)
unfolding ListStore.rpush
rpush-IsMap key values l h =
    elim (Option-cases (ListStore.push_all_back values (ListStore.deque_or_new (get key l)))) [
      | inl e ↦ rw (e, ListStore.rpush) tt
      | inr (d, e) ↦ rw (e, ListStore.rpush) (put-IsMap key d l h)
    ]

pub pop_items-IsMap :
    (pop : Deque Item → Option (Option Item × Deque Item)) (key : Str) (count : ℤ) (l : Lists)
    → IsMap l
    → After (λ (items, l'). IsMap l') (ListStore.pop_items pop key count l)
unfolding ListStore.pop_items
pop_items-IsMap pop key count l h = elim (Option-cases (get key l)) [
  | inl e ↦ rw (e, ListStore.pop_items) h
  | inr (d, e) ↦ elim (Option-cases (ListStore.make_items count)) [
    | inl m ↦ rw (e, m, ListStore.pop_items) tt
    | inr (n, m) ↦ elim (Option-cases (ListStore.pop_loop pop n d)) [
      | inl p ↦ rw (e, m, p, ListStore.pop_items) tt
      | inr (popped, p) ↦ elim (Bool-cases (is_empty popped.1)) [
        | inl z ↦ rw (e, m, p, z, ListStore.pop_items) (delete-IsMap key l h)
        | inr z ↦ rw (e, m, p, z, ListStore.pop_items) (put-IsMap key popped.1 l h)
      ]
    ]
  ]
]

pub sort-IsMap :
    (floats : ListStore.Floats) (sort_slice : (Item → Item → Bool) → List Item → List Item)
    (key : Str) (asc alpha : Bool) (l : Lists)
    → IsMap l
    → After IsMap (ListStore.sort floats sort_slice key asc alpha l)
unfolding ListStore.sort
sort-IsMap floats sort_slice key asc alpha l h = elim (Option-cases (get key l)) [
  | inl e ↦ rw (e, ListStore.sort) h
  | inr (d, e) ↦ elim (Option-cases (Deque.sort (sort_slice (ListStore.less floats asc alpha)) d)) [
    | inl s ↦ rw (e, s, ListStore.sort) tt
    | inr (d', s) ↦ rw (e, s, ListStore.sort) (put-IsMap key d' l h)
  ]
]
