-- ===== src/Aof/Items.antt =====
-- The two rewrites of the log.
use valkeydb.Base.{Str, codes, ◌≡◌, refl, ◌≢◌, List-cases, inl, inr, [], ◌∷◌, append-nil, arith}
use valkeydb.Base.Map.{Map}
use valkeydb.Item.{Item}
use valkeydb.Aof.{
  Aof, entry, dict_entries, set_entries, list_entries, hash_entries, expiry_entry, item_entry,
  item_entries, rewrite_entries, rewrite, rewrite_items,
}

-- Items that are strings, and not empty.
abbrev pub AreTexts : Map Item → Type 0
AreTexts [] = Unit
AreTexts ((key, item) ∷ m) = (item.members ≡ []) × (item.value ≢ []) × AreTexts m

-- Items that are sets, and not empty.
abbrev pub AreMembers : Map Item → Type 0
AreMembers [] = Unit
AreMembers ((key, item) ∷ m) = (item.members ≢ []) × AreMembers m

item_entry-text :
    (key value : Str) (item : Item)
    → item.members ≡ []
    → item.value ≡ value
    → value ≢ []
    → item_entry key item ≡ entry (codes "SET" ∷ key ∷ item.value ∷ []) ∷ []
unfolding item_entry
item_entry-text key [] item e f full = absurd (full refl)
item_entry-text key (c ∷ text) item e f full = ground (arith, e, f)

item_entries-strings : (m : Map Item) → AreTexts m → item_entries m ≡ dict_entries m
unfolding item_entries dict_entries
item_entries-strings [] h = refl
item_entries-strings ((key, item) ∷ m) (none_in, full, h) =
    rw (item_entry-text key item.value item none_in refl full, item_entries-strings m h) refl

item_entries-sets : (m : Map Item) → AreMembers m → item_entries m ≡ set_entries m
unfolding item_entries set_entries item_entry expiry_entry
item_entries-sets [] h = refl
item_entries-sets ((key, item) ∷ m) (full, h) = elim (List-cases item.members) [
  | inl e ↦ absurd (full e)
  | inr (x, members, e) ↦ rw (e, item_entry, set_entries, item_entries-sets m h) refl
]

-- On a dump of strings none of which is empty, `Rewrite` writes the log that `RewriteWithLists`
-- writes of these strings alone; and on a dump of sets none of which is empty, the log that it
-- writes of these sets alone.
pub rewrite_items-rewrite :
    (strings sets : Map Item) (a : Aof)
    → AreTexts strings
    → AreMembers sets
    → (rewrite_items strings a ≡ rewrite strings [] [] [] a)
      × (rewrite_items sets a ≡ rewrite [] sets [] [] a)
unfolding rewrite_items rewrite rewrite_entries dict_entries set_entries list_entries hash_entries
rewrite_items-rewrite strings sets a h k = (
  rw (item_entries-strings strings h, append-nil (dict_entries strings)) refl,
  rw (item_entries-sets sets k, append-nil (set_entries sets)) refl,
)
