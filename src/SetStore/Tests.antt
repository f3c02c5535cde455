-- ===== src/SetStore/Tests.antt =====
-- The sets at a map of two sets, of which one has expired.
use valkeydb.Base.{
  ◌+◌, ◌≡◌, refl, ◌&&◌, ◌||◌, not, none, some, List, [], ◌∷◌, Str, codes, eq_str, length,
}
use valkeydb.Base.Int.{pos, ◌≤ℤ◌}
use valkeydb.Base.Map.{IsMap, get, put, has, keys, contains}
use valkeydb.Clock.{Time}
use valkeydb.Item.{Item, zero_item}
use valkeydb.Dict.View.{view}
use valkeydb.SetStore.{Set, sadd, srem, smembers, sismember, scard, item_or_new, add_members}
use valkeydb.SetStore.Members.{members_of, seen, sadd_lem, srem_lem, reads_lem}

abbrev now : Time
now = pos 1_000_000_000

abbrev old : Item
old = record zero_item { members = (codes "a", tt) ∷ []; expired_at = pos 7 }

abbrev two : Set
two =
    (codes "old", old)
    ∷ (codes "new", record zero_item { members = (codes "a", tt) ∷ (codes "b", tt) ∷ [] })
    ∷ []

abbrev named : List Str
named = codes "b" ∷ codes "c" ∷ codes "b" ∷ []

-- "c" alone is new.
sadd_count : (sadd (codes "new") named two).0 ≡ 1
unfolding sadd item_or_new add_members get eq_str put
sadd_count = refl

sadd_lem_example :
    (has (codes "c") (members_of (codes "new") (sadd (codes "new") named two).1) ≡ (
      (eq_str (codes "new") (codes "new") && contains named (codes "c"))
      || has (codes "c") (members_of (codes "new") two)))
    × ((sadd (codes "new") named two).0 + length (members_of (codes "new") two)
        ≡ length (members_of (codes "new") (sadd (codes "new") named two).1))
    × ((item_or_new (get (codes "new") (sadd (codes "new") named two).1)).expired_at
        ≡ (item_or_new (get (codes "new") two)).expired_at)
sadd_lem_example = sadd_lem (codes "new") named two (codes "new") (codes "c")

new-IsMap : IsMap (members_of (codes "new") two)
unfolding item_or_new get eq_str
new-IsMap = (refl, (refl, tt))

srem_lem_example :
    (has (codes "b") (members_of (codes "new") (srem (codes "new") named two).1) ≡ (
      not (eq_str (codes "new") (codes "new") && contains named (codes "b"))
      && has (codes "b") (members_of (codes "new") two)))
    × ((srem (codes "new") named two).0
          + length (members_of (codes "new") (srem (codes "new") named two).1)
        ≡ length (members_of (codes "new") two))
srem_lem_example = srem_lem (codes "new") named two (codes "new") (codes "b") new-IsMap

reads_lem_example :
    ((sismember (codes "old") (codes "a") now two).0
      ≡ has (codes "a") (seen (view now (codes "old") two)))
    × ((scard (codes "old") now two).0 ≡ length (seen (view now (codes "old") two)))
    × ((smembers (codes "old") now two).0 ≡ (elim (view now (codes "old") two) [
      | none ↦ none
      | some item ↦ some (keys item.members)
    ]))
    × ((t : Time) (j : Str)
        → now ≤ℤ t
        → (view t j (sismember (codes "old") (codes "a") now two).1 ≡ view t j two)
          × (view t j (scard (codes "old") now two).1 ≡ view t j two)
          × (view t j (smembers (codes "old") now two).1 ≡ view t j two))
reads_lem_example = reads_lem (codes "old") (codes "a") now two
