-- ===== src/Dict.antt =====
-- internal/datastructure/dict.go: string values with expiry. A method takes the readings of the
-- clock that it makes, and returns the map beside its result. Locks are not modelled: a method is
-- one step.
pub mod View
pub mod Expiry
pub mod Dump
pub mod Active
mod Tests
use valkeydb.Base.{
  ℕ, zero, suc, ◌+◌, ◌*◌, ◌%◌, Bool, true, false, Option, none, some, List, [], ◌∷◌, Str, ltb, ◌==◌,
  ◌||◌, length, get_elem?, if◌then◌else◌,
}
use valkeydb.Base.Int.{ℤ, pos, negsuc, ltb_ℤ, leb_ℤ, ◌+ℤ◌, pos_part}
use valkeydb.Base.Map.{Map, get, put, delete, keys}
use valkeydb.Clock.{Time, Duration, zero_time, is_zero, before, until, whole_seconds}
use valkeydb.Item.{
  Item, zero_item, value_item, is_expired, ExpirationConfig, get_max_sample_size,
  get_max_sample_rounds,
}

abbrev pub Dict : Type 0
Dict = Map Item

abbrev pub new_dict : Dict
new_dict = []

unfoldable pub get_item : Str → Dict → Option Item
get_item key d = get key d

unfoldable pub passive_expire : Str → Dict → Dict
passive_expire key d = delete key d

unfoldable pub set : Str → Str → Duration → Time → Dict → Dict
set key value ttl now d =
    put key
      (record (value_item value) {
        expired_at = if ltb_ℤ (pos 0) ttl then now +ℤ ttl else zero_time;
      })
      d

-- `none` is `"", false`.
unfoldable pub lookup : Str → Time → Dict → Option Str × Dict
unfolding get_item passive_expire
lookup key now d = elim (get_item key d) [
  | none ↦ (none, d)
  | some item ↦ if is_expired item now then (none, passive_expire key d) else (some item.value, d)
]

-- `Delete(keys...)`: `count` keys were there so far.
unfoldable pub delete_from : ℕ → List Str → Dict → ℕ × Dict
delete_from count [] d = (count, d)
delete_from count (key ∷ rest) d = elim (get key d) [
  | none ↦ delete_from count rest d
  | some item ↦ delete_from (count + 1) rest (delete key d)
]

unfoldable pub delete_all : List Str → Dict → ℕ × Dict
unfolding delete_from
delete_all names d = delete_from 0 names d

unfoldable pub expire : Str → Duration → Time → Dict → Bool × Dict
unfolding get_item
expire key ttl now d = elim (get_item key d) [
  | none ↦ (false, d)
  | some item ↦
      if leb_ℤ ttl (pos 0)
      then (true, delete key d)
      else (true, put key (record item { expired_at = now +ℤ ttl }) d)
]

unfoldable pub expire_at : Str → Time → Time → Dict → Bool × Dict
unfolding get_item
expire_at key at now d = elim (get_item key d) [
  | none ↦ (false, d)
  | some item ↦
      if before at now
      then (true, delete key d)
      else (true, put key (record item { expired_at = at }) d)
]

-- The seconds that are left; -1 is no expiry, -2 no such key.
unfoldable pub ttl : Str → Time → Dict → ℤ × Dict
unfolding get_item passive_expire
ttl key now d = elim (get_item key d) [
  | none ↦ (negsuc 1, d)
  | some item ↦
      if is_zero item.expired_at
      then (negsuc 0, d)
      else if ltb_ℤ (until item.expired_at now) (pos 0)
      then (negsuc 1, passive_expire key d)
      else (pos (whole_seconds (pos_part (until item.expired_at now))), d)
]

-- The items that have not expired. `clock n` is the reading at the `n`-th item.
unfoldable pub dump_from : (ℕ → Time) → ℕ → Dict → Map Item
dump_from clock n [] = []
dump_from clock n ((key, item) ∷ d) =
    let rest = dump_from clock (n + 1) d in
    if is_expired item (clock n) then rest else (key, item) ∷ rest

unfoldable pub dump : (ℕ → Time) → Dict → Map Item
unfolding dump_from
dump clock d = dump_from clock 0 d

-- What the runtime gives to active expiration: the clock and `rand.IntN` at each round and sample.
pub record Samples : Type 0 where
  pub clock : ℕ → ℕ → Time
  pub random : ℕ → ℕ → ℕ

-- `rand.IntN(n)`
unfoldable pub int_n : Samples → ℕ → ℕ → ℕ → ℕ
int_n s i j n = s.random i j % n

-- One sample of a round: `checked`, `expired` and the map.
unfoldable pub sample : Samples → List Str → ℕ → ℕ → ℕ × ℕ × Dict → ℕ × ℕ × Dict
sample s names i j (checked, expired, d) = elim (get_elem? names (int_n s i j (length names))) [
  | none ↦ (checked, expired, d)
  | some key ↦ elim (get key d) [
    | none ↦ (checked, expired, d)
    | some item ↦
        if is_expired item (s.clock i j)
        then (checked + 1, expired + 1, delete key d)
        else (checked + 1, expired, d)
  ]
]

-- The samples `j`, `j + 1`, … of round `i`, as many as the first number says.
unfoldable pub samples : Samples → List Str → ℕ → ℕ → ℕ → ℕ × ℕ × Dict → ℕ × ℕ × Dict
samples s names i zero j acc = acc
samples s names i (suc n) j acc = samples s names i n (j + 1) (sample s names i j acc)

-- The rounds from `i` on.
unfoldable pub rounds : Option ExpirationConfig → Samples → ℕ → ℕ → Dict → Dict
rounds config s zero i d = d
rounds config s (suc n) i d =
    let names = keys d in
    let size = get_max_sample_size config in
    let limit = if ltb (length names) size then length names else size in
    let (checked, expired, d') = samples s names i limit 0 (0, 0, d) in
    let more = rounds config s n (i + 1) d' in
    if checked == 0 || ltb (expired * 4) checked then d' else more

unfoldable pub active_expire : Option ExpirationConfig → Samples → Dict → Dict
active_expire config s d =
    if length d == 0 then d else rounds config s (get_max_sample_rounds config) 0 d
