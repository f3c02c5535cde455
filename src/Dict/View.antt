-- ===== src/Dict/View.antt =====
-- What a client can see of the dictionary: the items that have not expired.
use mathlib.Core.Option
use valkeydb.Base.{
  ℕ, ◌+◌, ◌≡◌, refl, Option-cases, inl, inr, true, ◌&&◌, Option, none, some, List, [], ◌∷◌, arith,
  Str, eq_str, eq_str_iff, if◌then◌else◌, length,
}
use valkeydb.Base.Int.{pos, ltb_ℤ, ◌+ℤ◌, ◌≤ℤ◌, +ℤ_parts}
use valkeydb.Base.Map.{
  contains, IsMap, get, delete, get-put, get-delete, delete-IsMap, length-delete,
}
use valkeydb.Clock.{Time, Duration, zero_time}
use valkeydb.Item.{Item, value_item, is_expired}
use valkeydb.Dict.{Dict, set, lookup, delete_from, delete_all}

-- An entry of the map as a client sees it at a time.
unfoldable pub live : Time → Option Item → Option Item
live now none = none
live now (some item) = if is_expired item now then none else some item

unfoldable pub view : Time → Str → Dict → Option Item
unfolding live
view now key d = live now (get key d)

-- What has expired stays expired.
pub is_expired_mono :
    (item : Item) (now t : Time) → now ≤ℤ t → is_expired item now ≡ true → is_expired item t ≡ true
unfolding is_expired
is_expired_mono item now t le h = ground arith

-- Dropping an expired entry changes no view from then on.
pub view-delete_expired :
    (key : Str) (item : Item) (now t : Time) (j : Str) (d : Dict)
    → get key d ≡ some item
    → is_expired item now ≡ true
    → now ≤ℤ t
    → view t j (delete key d) ≡ view t j d
unfolding view
view-delete_expired key item now t j d e x le =
    ground (arith, get-delete key j d, eq_str_iff key j, is_expired_mono item now t le x)

-- `Get` answers with the value in view. It may drop an expired entry, which no client can see then
-- or later.
pub lookup_lem :
    (key : Str) (now : Time) (d : Dict)
    → ((lookup key now d).0 ≡ Option.map (λ item. item.value) (view now key d))
      × ((t : Time) (j : Str) → now ≤ℤ t → view t j (lookup key now d).1 ≡ view t j d)
unfolding lookup view
lookup_lem key now d = (
  ground arith,
  λ t j le. elim (Option-cases (get key d)) [
    | inl e ↦ ground (arith, e)
    | inr (item, e) ↦ ground (arith, e, view-delete_expired key item now t j d e)
  ],
)

-- After `Set` at a time `now` from the epoch on, a key is in view for as long as its time to live
-- says, and for good where that is not positive; the other keys are in view as before.
pub view-set :
    (key value : Str) (ttl : Duration) (now t : Time) (j : Str) (d : Dict)
    → pos 0 ≤ℤ now
    → Option.map (λ item. item.value) (view t j (set key value ttl now d)) ≡ (
        if eq_str key j
        then (if ltb_ℤ (pos 0) ttl && ltb_ℤ (now +ℤ ttl) t then none else some value)
        else Option.map (λ item. item.value) (view t j d))
unfolding set view is_expired ◌+ℤ◌
view-set key value ttl now t j d h = ground (
  arith,
  get-put key j
      (record (value_item value) {
        expired_at = if ltb_ℤ (pos 0) ttl then now +ℤ ttl else zero_time;
      })
      d,
  +ℤ_parts now ttl,
)

get-delete_from :
    (names : List Str) (count : ℕ) (d : Dict) (j : Str)
    → get j (delete_from count names d).1 ≡ (if contains names j then none else get j d)
unfolding delete_from contains
get-delete_from [] count d j = refl
get-delete_from (k ∷ names) count d j = ground (
  arith,
  get-delete_from names count d j,
  get-delete_from names (count + 1) (delete k d) j,
  get-delete k j d,
  eq_str_iff k j,
)

delete_from_count :
    (names : List Str) (count : ℕ) (d : Dict)
    → IsMap d
    → ((delete_from count names d).0 + length (delete_from count names d).1 ≡ count + length d)
      × IsMap (delete_from count names d).1
unfolding delete_from
delete_from_count [] count d h = ground arith
delete_from_count (k ∷ names) count d h = ground (
  arith,
  delete_from_count names count d h,
  delete_from_count names (count + 1) (delete k d) (delete-IsMap k d h),
  length-delete k d h,
)

-- `Delete` on a map with each key once takes exactly the named keys out, returns how many entries
-- that were, and leaves each key once.
pub delete_all_lem :
    (names : List Str) (d : Dict)
    → IsMap d
    → ((j : Str) → get j (delete_all names d).1 ≡ (if contains names j then none else get j d))
      × ((delete_all names d).0 + length (delete_all names d).1 ≡ length d)
      × IsMap (delete_all names d).1
unfolding delete_all
delete_all_lem names d h = (
  get-delete_from names 0 d,
  omega (arith, delete_from_count names 0 d h),
  (delete_from_count names 0 d h).1,
)
