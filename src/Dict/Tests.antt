-- ===== src/Dict/Tests.antt =====
-- The dictionary at a map of two entries, of which one has expired.
use mathlib.Core.Option
use valkeydb.Base.{
  ◌≡◌, refl, ◌&&◌, none, some, [], ◌∷◌, arith, Str, codes, eq_str, true, if◌then◌else◌,
}
use valkeydb.Base.Int.{pos, ltb_ℤ, leb_ℤ, ◌+ℤ◌, ◌≤ℤ◌, wrap64, scale}
use valkeydb.Base.Map.{get, has}
use valkeydb.Clock.{Time, is_zero, after, seconds}
use valkeydb.Item.{Item, value_item, is_expired}
use valkeydb.Dict.{Dict, set, lookup, expire, ttl, Samples, active_expire, get_item}
use valkeydb.Dict.View.{view, lookup_lem, view-set}
use valkeydb.Dict.Expiry.{IsTtl, retimed, ttl_lem, expire_lem}
use valkeydb.Dict.Active.{view-active_expire}

-- A second after the epoch.
abbrev now : Time
now = pos 1_000_000_000

abbrev later : Time
later = pos 5_000_000_000

abbrev old : Item
old = record (value_item (codes "x")) { expired_at = pos 7 }

abbrev two : Dict
two = (codes "old", old) ∷ (codes "new", value_item (codes "y")) ∷ []

get_old : (lookup (codes "old") now two).0 ≡ none
unfolding lookup get_item get is_expired is_zero after eq_str
get_old = refl

get_new : (lookup (codes "new") now two).0 ≡ some (codes "y")
unfolding lookup get_item get is_expired is_zero after eq_str
get_new = refl

-- Ten billion seconds overflow the int64 of nanoseconds.
seconds_overflow : ltb_ℤ (seconds (pos 10_000_000_000)) (pos 0) ≡ true
unfolding seconds wrap64 scale
seconds_overflow = refl

lookup_lem_example :
    ((lookup (codes "old") now two).0
      ≡ Option.map (λ item. item.value) (view now (codes "old") two))
    × ((t : Time) (j : Str) → now ≤ℤ t → view t j (lookup (codes "old") now two).1 ≡ view t j two)
lookup_lem_example = lookup_lem (codes "old") now two

view-set_example :
    Option.map
      (λ item. item.value)
      (view later (codes "old") (set (codes "old") (codes "z") (pos 2_000_000_000) now two))
    ≡ (if eq_str (codes "old") (codes "old")
        then (if ltb_ℤ (pos 0) (pos 2_000_000_000) && ltb_ℤ (now +ℤ pos 2_000_000_000) later
            then none
            else some (codes "z"))
        else Option.map (λ item. item.value) (view later (codes "old") two))
view-set_example =
    view-set (codes "old") (codes "z") (pos 2_000_000_000) now later (codes "old") two (omega arith)

ttl_lem_example :
    IsTtl (pos 3) (view (pos 3) (codes "old") two) (ttl (codes "old") (pos 3) two).0
    × ((t : Time) (j : Str)
        → pos 3 ≤ℤ t
        → view t j (ttl (codes "old") (pos 3) two).1 ≡ view t j two)
ttl_lem_example = ttl_lem (codes "old") (pos 3) two

expire_lem_example :
    ((expire (codes "new") (pos 9) now two).0 ≡ has (codes "new") two)
    × (get (codes "new") (expire (codes "new") (pos 9) now two).1 ≡ (
        if eq_str (codes "new") (codes "new")
        then retimed (leb_ℤ (pos 9) (pos 0)) (now +ℤ pos 9) (get (codes "new") two)
        else get (codes "new") two))
expire_lem_example = expire_lem (codes "new") (pos 9) now (codes "new") two

abbrev draws : Samples
draws = record { clock = λ i j. now; random = λ i j. j }

view-active_expire_example :
    view later (codes "old") (active_expire none draws two) ≡ view later (codes "old") two
view-active_expire_example =
    view-active_expire none draws two later (codes "old") (λ i j. omega arith)
