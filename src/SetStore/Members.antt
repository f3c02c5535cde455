-- ===== src/SetStore/Members.antt =====
-- Which members a set has.
use valkeydb.Base.{
  ℕ, ◌+◌, ◌≡◌, refl, true, false, ◌&&◌, ◌||◌, not, Option, none, some, List, [], ◌∷◌, arith, Str,
  eq_str, eq_str_iff, length, Option-cases, inl, inr,
}
use valkeydb.Base.Int.{◌≤ℤ◌}
use valkeydb.Base.Map.{
  Map, IsMap, get, put, delete, has, keys, contains, get-put, get-delete, delete-IsMap, length-put,
  length-delete,
}
use valkeydb.Clock.{Time}
use valkeydb.Item.{Item, is_expired}
use valkeydb.Dict.View.{view, view-delete_expired}
use valkeydb.SetStore.{
  Set, add_members, item_or_new, sadd, remove_members, srem, smembers, sismember, scard,
}

add_members-has :
    (names : List Str) (added : ℕ) (members : Map (Unit {0})) (m : Str)
    → has m (add_members added names members).1 ≡ (contains names m || has m members)
unfolding add_members contains
add_members-has [] added members m = refl
add_members-has (x ∷ names) added members m = ground (
  arith,
  add_members-has names added members m,
  add_members-has names (added + 1) (put x tt members) m,
  get-put x m tt members,
  eq_str_iff x m,
)

add_members-count :
    (names : List Str) (added : ℕ) (members : Map (Unit {0}))
    → added + length (add_members added names members).1
      ≡ (add_members added names members).0 + length members
unfolding add_members
add_members-count [] added members = refl
add_members-count (x ∷ names) added members = ground (
  arith,
  add_members-count names added members,
  add_members-count names (added + 1) (put x tt members),
  length-put x tt members,
)

-- The members that the map holds for a key, in view or not.
abbrev pub members_of : Str → Set → Map (Unit {0})
members_of key s = (item_or_new (get key s)).members

-- `Sadd` adds exactly the named members to the key's set, leaves the other keys alone, keeps the
-- expiry, and returns by how many members the set has grown.
pub sadd_lem :
    (key : Str) (names : List Str) (s : Set) (j m : Str)
    → (has m (members_of j (sadd key names s).1)
        ≡ ((eq_str key j && contains names m) || has m (members_of j s)))
      × ((sadd key names s).0 + length (members_of key s)
          ≡ length (members_of key (sadd key names s).1))
      × ((item_or_new (get j (sadd key names s).1)).expired_at ≡ (item_or_new (get j s)).expired_at)
unfolding sadd item_or_new
sadd_lem key names s j m =
    let item = item_or_new (get key s) in
    let item' = record item { members = (add_members 0 names item.members).1 } in
    ground (
      arith,
      get-put key j item' s,
      get-put key key item' s,
      eq_str_iff key j,
      eq_str_iff key key,
      add_members-has names 0 item.members m,
      add_members-count names 0 item.members,
    )

remove_members-has :
    (names : List Str) (removed : ℕ) (members : Map (Unit {0})) (m : Str)
    → has m (remove_members removed names members).1 ≡ (not (contains names m) && has m members)
unfolding remove_members contains
remove_members-has [] removed members m = refl
remove_members-has (x ∷ names) removed members m = ground (
  arith,
  remove_members-has names removed members m,
  remove_members-has names (removed + 1) (delete x members) m,
  get-delete x m members,
  eq_str_iff x m,
)

remove_members-count :
    (names : List Str) (removed : ℕ) (members : Map (Unit {0}))
    → IsMap members
    → (remove_members removed names members).0 + length (remove_members removed names members).1
      ≡ removed + length members
unfolding remove_members
remove_members-count [] removed members h = refl
remove_members-count (x ∷ names) removed members h = ground (
  arith,
  remove_members-count names removed members h,
  remove_members-count names (removed + 1) (delete x members) (delete-IsMap x members h),
  length-delete x members h,
)

has-of_empty : (m : Str) (members : Map (Unit {0})) → length members ≡ 0 → has m members ≡ false
unfolding get
has-of_empty m [] e = refl
has-of_empty m (x ∷ members) e = absurd (omega arith)

-- `Srem` on a set with each member once takes exactly the named members out of it, leaves the
-- other keys alone, and returns how many members that were.
pub srem_lem :
    (key : Str) (names : List Str) (s : Set) (j m : Str)
    → IsMap (members_of key s)
    → (has m (members_of j (srem key names s).1)
        ≡ (not (eq_str key j && contains names m) && has m (members_of j s)))
      × ((srem key names s).0 + length (members_of key (srem key names s).1)
          ≡ length (members_of key s))
unfolding srem item_or_new get
srem_lem key names s j m h = elim (Option-cases (get key s)) [
  | inl e ↦ ground (arith, e, eq_str_iff key j)
  | inr (item, e) ↦
      let left = (remove_members 0 names item.members).1 in
      let item' = record item { members = left } in
      ground (
        arith,
        e,
        get-put key j item' s,
        get-put key key item' s,
        get-delete key j s,
        get-delete key key s,
        eq_str_iff key j,
        eq_str_iff key key,
        remove_members-has names 0 item.members m,
        remove_members-count names 0 item.members,
        has-of_empty m item.members,
        has-of_empty m left,
      )
]

-- The members of an entry in view.
abbrev pub seen : Option Item → Map (Unit {0})
seen none = []
seen (some item) = item.members

-- `Smembers`, `Sismember` and `Scard` answer alike, by the members in view; a read changes no view
-- from then on.
pub reads_lem :
    (key m : Str) (now : Time) (s : Set)
    → ((sismember key m now s).0 ≡ has m (seen (view now key s)))
      × ((scard key now s).0 ≡ length (seen (view now key s)))
      × ((smembers key now s).0
          ≡ (elim (view now key s) [ none ↦ none | some item ↦ some (keys item.members) ]))
      × ((t : Time) (j : Str)
          → now ≤ℤ t
          → (view t j (sismember key m now s).1 ≡ view t j s)
            × (view t j (scard key now s).1 ≡ view t j s)
            × (view t j (smembers key now s).1 ≡ view t j s))
unfolding sismember scard smembers view get
reads_lem key m now s = elim (Option-cases (get key s)) [
  | inl e ↦ (
    ground (arith, e),
    ground (arith, e),
    ground (arith, e),
    λ t j le. (ground (arith, e), ground (arith, e), ground (arith, e)),
  )
  | inr (item, e) ↦ (
    ground (arith, e),
    ground (arith, e),
    ground (arith, e),
    λ t j le.
        let dropped : is_expired item now ≡ true → view t j (delete key s) ≡ view t j s =
          λ x. view-delete_expired key item now t j s e x le in
        (ground (arith, e, dropped), ground (arith, e, dropped), ground (arith, e, dropped)),
  )
]

-- `Sadd` does not look at the expiry: what it adds to a set that has expired, and that it reports as
-- added, is not in view.
pub view-sadd_expired :
    (key : Str) (names : List Str) (now : Time) (item : Item) (s : Set)
    → get key s ≡ some item
    → is_expired item now ≡ true
    → ((sadd key names s).0 + length item.members ≡ length (members_of key (sadd key names s).1))
      × (view now key (sadd key names s).1 ≡ none)
unfolding view sadd item_or_new is_expired
view-sadd_expired key names now item s e x =
    let item' = record item { members = (add_members 0 names item.members).1 } in
    ground (
      arith,
      e,
      get-put key key item' s,
      eq_str_iff key key,
      add_members-count names 0 item.members,
    )
