-- ===== src/ListStore/Dump.antt =====
-- The copies of the lists that persistence and the system commands take.
use valkeydb.Base.{
  ◌≡◌, refl, ◌∙◌, sym, true, Option, none, some, List, [], ◌∷◌, arith, Str, eq_str, eq_str_iff,
  eq_str_refl, length, ◌==◌, ==_iff, Bool-cases, inl, inr,
}
use valkeydb.Base.Map.{Map, IsMap, get}
use valkeydb.Item.{Item}
use valkeydb.Deque.{Deque}
use valkeydb.Deque.Repr.{Repr, read_from-all}
use valkeydb.ListStore.{Lists, dump}
use valkeydb.ListStore.Refine.{Denotes, update}

-- The items that a copy holds for a key.
abbrev pub items_at : Option (List Item) → List Item
items_at none = []
items_at (some items) = items

-- The store without its first key.
Denotes-rest :
    (key : Str) (d : Deque Item) (l : Lists) (f : Str → List Item)
    → get key l ≡ none
    → Denotes ((key, d) ∷ l) f
    → Denotes l (update f key [])
unfolding get
Denotes-rest key d l f fresh s k = elim (Bool-cases (eq_str key k)) [
  | inl here ↦ let same : key ≡ k = (eq_str_iff key k).0 here in rw (here, ← same, fresh) refl
  | inr other ↦ rw other (rw other at (s k))
]

first-Repr :
    (key : Str) (d : Deque Item) (l : Lists) (f : Str → List Item)
    → Denotes ((key, d) ∷ l) f
    → Repr d (f key)
unfolding get
first-Repr key d l f s = rw (eq_str_refl key) at (s key)

length-nil {ℓ} : {A : Type ℓ} (xs : List A) → length xs ≡ 0 → xs ≡ []
length-nil [] e = refl
length-nil (x ∷ xs) e = absurd (omega arith)

empty-items :
    (key : Str) (f : Str → List Item) (m : Map (List Item)) (d : Deque Item)
    → Repr d (f key)
    → d.size == 0 ≡ true
    → ((j : Str) → items_at (get j m) ≡ update f key [] j)
    → get key m ≡ none
    → (j : Str) → items_at (get j m) ≡ f j
empty-items key f m d r z items gone j = elim (Bool-cases (eq_str key j)) [
  | inl here ↦
      let same : key ≡ j = (eq_str_iff key j).0 here in
      let size : d.size ≡ 0 = (==_iff d.size 0).0 z in
      rw (← same, gone) (sym (length-nil (f key) (r.len ∙ size)))
  | inr other ↦ items j ∙ rw other refl
]

full-items :
    (key : Str) (f : Str → List Item) (m : Map (List Item))
    → ((j : Str) → items_at (get j m) ≡ update f key [] j)
    → (j : Str) → items_at (get j ((key, f key) ∷ m)) ≡ f j
unfolding get
full-items key f m items j = elim (Bool-cases (eq_str key j)) [
  | inl here ↦ let same : key ≡ j = (eq_str_iff key j).0 here in rw (here, same) refl
  | inr other ↦ rw other (items j ∙ rw other refl)
]

-- `Dump` never panics, holds each key once, and holds the items of every list.
pub dump-Denotes :
    (l : Lists) (f : Str → List Item)
    → IsMap l
    → Denotes l f
    → (m : Map (List Item)) × (dump l ≡ some m)
      × IsMap m
      × ((j : Str) → items_at (get j m) ≡ f j)
      × ((j : Str) → get j l ≡ none → get j m ≡ none)
unfolding dump get
dump-Denotes [] f once s = ([], refl, tt, (λ j. sym (s j)), λ j e. refl)
dump-Denotes ((key, d) ∷ l) f once s =
    let (m, e, h, items, gone) =
      dump-Denotes l (update f key []) once.1 (Denotes-rest key d l f once.0 s) in
    let r : Repr d (f key) = first-Repr key d l f s in
    elim (Bool-cases (d.size == 0)) [
      | inl z ↦ (
        m,
        rw (e, z) refl,
        h,
        (λ j. empty-items key f m d r z items (gone key once.0) j),
        (λ j n. gone j (ground (arith, n))),
      )
      | inr z ↦ (
        (key, f key) ∷ m,
        rw (e, z, read_from-all r) refl,
        (gone key once.0, h),
        (λ j. full-items key f m items j),
        (λ j n. ground (arith, n, gone j)),
      )
    ]
