-- ===== src/Dict/Expiry.antt =====
-- Changing and reading the time to live.
use valkeydb.Base.{
  ℕ, ◌+◌, ◌-◌, ◌*◌, ◌/◌, ◌^◌, ◌≤◌, ◌<◌, ◌≡◌, refl, sym, subst, Bool-cases, ltb, inl, inr, Bool,
  true, false, Option, none, some, arith, Str, eq_str, eq_str_iff, if◌then◌else◌, Option-cases,
}
use valkeydb.Base.Int.{ℤ, pos, negsuc, pos_part, ltb_ℤ, leb_ℤ, ◌+ℤ◌, ◌-ℤ◌, ◌≤ℤ◌, ◌<ℤ◌}
use valkeydb.Base.Map.{has, get, get-put, get-delete}
use valkeydb.Clock.{Time, Duration, is_zero, before, until, whole_seconds, whole_seconds_bounds}
use valkeydb.Item.{Item, is_expired}
use valkeydb.Dict.{Dict, expire, expire_at, ttl}
use valkeydb.Dict.View.{view, view-delete_expired}

-- The remaining time is negative exactly where the item counts as expired.
until-neg :
    (item : Item) (now : Time)
    → is_zero item.expired_at ≡ false
    → ltb_ℤ (until item.expired_at now) (pos 0) ≡ is_expired item now
unfolding until is_expired ◌-ℤ◌
until-neg item now h = ground arith

never_expired :
    (item : Item) (now : Time) → is_zero item.expired_at ≡ true → is_expired item now ≡ false
unfolding is_expired
never_expired item now h = ground arith

-- The answer to a question for the time to live of an entry in view.
unfoldable pub remaining : Time → Option Item → ℤ
remaining now none = negsuc 1
remaining now (some item) =
    if is_zero item.expired_at
    then negsuc 0
    else pos (whole_seconds (pos_part (until item.expired_at now)))

ttl-remaining :
    (key : Str) (now : Time) (d : Dict)
    → ((ttl key now d).0 ≡ remaining now (view now key d))
      × ((t : Time) (j : Str) → now ≤ℤ t → view t j (ttl key now d).1 ≡ view t j d)
unfolding ttl view remaining
ttl-remaining key now d = elim (Option-cases (get key d)) [
  | inl e ↦ (ground (arith, e), λ t j le. ground (arith, e))
  | inr (item, e) ↦ (
    ground (arith, e, until-neg item now, never_expired item now),
    λ t j le. ground (arith, e, until-neg item now, view-delete_expired key item now t j d e),
  )
]

-- The time that is left of an item, in nanoseconds, up to the greatest int64.
abbrev pub time_left : Time → Item → ℕ
time_left now item =
    let left = pos_part (item.expired_at -ℤ now) in if ltb left (2 ^ 63) then left else 2 ^ 63 - 1

-- -1 for an item that never expires, and otherwise the seconds that are left, rounded down, or one
-- more.
abbrev pub IsLeft : Bool → ℕ → ℤ → Type 0
IsLeft true left answer = answer ≡ negsuc 0
IsLeft false left answer =
    (n : ℕ) × (answer ≡ pos n)
    × (left / 10 ^ 9 ≤ n)
    × (n ≤ left / 10 ^ 9 + 1)
    × (left < 2 ^ 24 * 10 ^ 9 → n ≡ left / 10 ^ 9)

abbrev pub IsTtl : Time → Option Item → ℤ → Type 0
IsTtl now none answer = answer ≡ negsuc 1
IsTtl now (some item) answer = IsLeft (is_zero item.expired_at) (time_left now item) answer

until-left : (item : Item) (now : Time) → pos_part (until item.expired_at now) ≡ time_left now item
unfolding until
until-left item now = ground arith

remaining-IsTtl : (now : Time) (o : Option Item) → IsTtl now o (remaining now o)
unfolding remaining
remaining-IsTtl now none = refl
remaining-IsTtl now (some item) = elim (Bool-cases (is_zero item.expired_at)) [
  | inl z ↦ rw z refl
  | inr z ↦
      let left = pos_part (until item.expired_at now) in
      let (low, high, small) = whole_seconds_bounds left in
      rw (z, ← until-left item now) (whole_seconds left, refl, low, high, small)
]

-- What `TTL` returns: -2 for a key that is not in view, -1 for one that never expires, and
-- otherwise a number of seconds: those that are left (292 years at most) rounded down, or one more,
-- and never one more where less than 2^24 seconds (194 days) are left. It changes no view, then or
-- later.
pub ttl_lem :
    (key : Str) (now : Time) (d : Dict)
    → IsTtl now (view now key d) (ttl key now d).0
      × ((t : Time) (j : Str) → now ≤ℤ t → view t j (ttl key now d).1 ≡ view t j d)
ttl_lem key now d =
    let (e, later) = ttl-remaining key now d in
    (subst (IsTtl now (view now key d)) (sym e) (remaining-IsTtl now (view now key d)), later)

-- An entry after `Expire` and `ExpireAt`, with `gone` where the new time has passed.
abbrev pub retimed : Bool → Time → Option Item → Option Item
retimed gone at none = none
retimed gone at (some item) = if gone then none else some (record item { expired_at = at })

-- `Expire` answers whether the map has an entry for the key, in view or not, and gives that entry
-- the new time; a span that is not positive takes it away. Other keys keep their entries.
pub expire_lem :
    (key : Str) (span : Duration) (now : Time) (j : Str) (d : Dict)
    → ((expire key span now d).0 ≡ has key d)
      × (get j (expire key span now d).1 ≡ (
          if eq_str key j then retimed (leb_ℤ span (pos 0)) (now +ℤ span) (get key d) else get j d))
unfolding expire
expire_lem key span now j d = elim (Option-cases (get key d)) [
  | inl e ↦ ground (arith, e, eq_str_iff key j)
  | inr (item, e) ↦ ground (
    arith,
    e,
    eq_str_iff key j,
    get-delete key j d,
    get-put key j (record item { expired_at = now +ℤ span }) d,
  )
]

-- `ExpireAt` answers whether the map has an entry for the key, in view or not, and gives that
-- entry the new time; a time that is before now takes it away. Other keys keep their entries.
pub expire_at_lem :
    (key : Str) (at now : Time) (j : Str) (d : Dict)
    → ((expire_at key at now d).0 ≡ has key d)
      × (get j (expire_at key at now d).1
          ≡ (if eq_str key j then retimed (before at now) at (get key d) else get j d))
unfolding expire_at
expire_at_lem key at now j d = elim (Option-cases (get key d)) [
  | inl e ↦ ground (arith, e, eq_str_iff key j)
  | inr (item, e) ↦ ground (
    arith,
    e,
    eq_str_iff key j,
    get-delete key j d,
    get-put key j (record item { expired_at = at }) d,
  )
]

-- `Expire` looks at the map, not at the view: an entry that has expired and is still in the map
-- comes back into view, with its old value.
pub expire-revives :
    (key : Str) (span : Duration) (now : Time) (item : Item) (d : Dict)
    → get key d ≡ some item
    → is_expired item now ≡ true
    → pos 0 <ℤ span
    → (view now key d ≡ none)
      × ((expire key span now d).0 ≡ true)
      × (view now key (expire key span now d).1 ≡ some (record item { expired_at = now +ℤ span }))
unfolding view expire is_expired ◌+ℤ◌
expire-revives key span now item d e x h =
    ground
      (arith, e, eq_str_iff key key, get-put key key (record item { expired_at = now +ℤ span }) d)
