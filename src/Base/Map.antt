-- ===== src/Base/Map.antt =====
-- Go maps with string keys, as association lists. `range` visits the entries in the list's order,
-- which Go leaves open: the theorems hold of every list.
use valkeydb.Base.{
  suc, ◌+◌, ◌≡◌, refl, ◌≢◌, Bool, true, false, Option, none, some, List, [], ◌∷◌, arith, Str,
  eq_str, eq_str_iff, length, if◌then◌else◌, ap, ◌||◌,
}

abbrev pub Map {ℓ} : Type ℓ → Type ℓ
Map V = List (Str × V)

module _ {ℓ} {V : Type ℓ} where
  -- `v, ok := m[k]`
  unfoldable pub get : Str → Map V → Option V
  get k [] = none
  get k ((j, v) ∷ m) = if eq_str j k then some v else get k m

  -- `m[k] = v`
  unfoldable pub put : Str → V → Map V → Map V
  put k v [] = (k, v) ∷ []
  put k v ((j, w) ∷ m) = if eq_str j k then (k, v) ∷ m else (j, w) ∷ put k v m

  -- `delete(m, k)`
  unfoldable pub delete : Str → Map V → Map V
  delete k [] = []
  delete k ((j, w) ∷ m) = let rest = delete k m in if eq_str j k then rest else (j, w) ∷ rest

  -- `_, ok := m[k]`
  abbrev pub is_some : Option V → Bool
  is_some none = false
  is_some (some v) = true

  abbrev pub has : Str → Map V → Bool
  has k m = is_some (get k m)

  -- The keys in the order of a `range`.
  unfoldable pub keys : Map V → List Str
  keys [] = []
  keys ((k, v) ∷ m) = k ∷ keys m

  -- No key stands twice.
  abbrev pub IsMap : Map V → Type ℓ
  IsMap [] = Unit
  IsMap ((k, v) ∷ m) = (get k m ≡ none) × IsMap m

  pub get-put :
      (k j : Str) (v : V) (m : Map V) → get j (put k v m) ≡ (if eq_str k j then some v else get j m)
  unfolding get put
  get-put k j v [] = refl
  get-put k j v ((i, w) ∷ m) =
      ground (arith, eq_str_iff k j, eq_str_iff i k, eq_str_iff i j, get-put k j v m)

  pub get-delete :
      (k j : Str) (m : Map V) → get j (delete k m) ≡ (if eq_str k j then none else get j m)
  unfolding get delete
  get-delete k j [] = ground arith
  get-delete k j ((i, w) ∷ m) =
      ground (arith, eq_str_iff k j, eq_str_iff i k, eq_str_iff i j, get-delete k j m)

  pub get-put_self : (k : Str) (v : V) (m : Map V) → get k (put k v m) ≡ some v
  get-put_self k v m = ground (arith, get-put k k v m, eq_str_iff k k)

  pub get-put_ne : (k j : Str) (v : V) (m : Map V) → k ≢ j → get j (put k v m) ≡ get j m
  get-put_ne k j v m h = ground (arith, get-put k j v m, eq_str_iff k j)

  pub get-delete_self : (k : Str) (m : Map V) → get k (delete k m) ≡ none
  get-delete_self k m = ground (arith, get-delete k k m, eq_str_iff k k)

  pub get-delete_ne : (k j : Str) (m : Map V) → k ≢ j → get j (delete k m) ≡ get j m
  get-delete_ne k j m h = ground (arith, get-delete k j m, eq_str_iff k j)

  pub put-IsMap : (k : Str) (v : V) (m : Map V) → IsMap m → IsMap (put k v m)
  unfolding get put
  put-IsMap k v [] h = ground arith
  put-IsMap k v ((i, w) ∷ m) h =
      ground (arith, eq_str_iff i k, eq_str_iff k i, get-put k i v m, put-IsMap k v m h.1)

  pub delete-IsMap : (k : Str) (m : Map V) → IsMap m → IsMap (delete k m)
  unfolding get delete
  delete-IsMap k [] h = tt
  delete-IsMap k ((i, w) ∷ m) h =
      ground (arith, eq_str_iff i k, eq_str_iff k i, get-delete k i m, delete-IsMap k m h.1)

  pub length-put :
      (k : Str) (v : V) (m : Map V)
      → length (put k v m) ≡ (if has k m then length m else length m + 1)
  unfolding get put
  length-put k v [] = omega arith
  length-put k v ((i, w) ∷ m) = ground (arith, length-put k v m)

  delete-absent : (k : Str) (m : Map V) → get k m ≡ none → delete k m ≡ m
  unfolding get delete
  delete-absent k [] h = refl
  delete-absent k ((i, w) ∷ m) h = ground (arith, delete-absent k m)

  -- Deleting a key that is there takes one entry out.
  pub length-delete :
      (k : Str) (m : Map V)
      → IsMap m
      → length m ≡ (if has k m then length (delete k m) + 1 else length (delete k m))
  unfolding get delete
  length-delete k [] h = refl
  length-delete k ((i, w) ∷ m) h =
      ground (arith, eq_str_iff i k, delete-absent k m, length-delete k m h.1)

-- Two maps that answer every lookup alike.
abbrev pub SameMap {ℓ} : {V : Type ℓ} → Map V → Map V → Type ℓ
SameMap m n = (k : Str) → get k m ≡ get k n

-- The name is one of the names.
unfoldable pub contains : List Str → Str → Bool
contains [] key = false
contains (k ∷ names) key = eq_str k key || contains names key

pub contains-keys {ℓ} : {V : Type ℓ} (m : Map V) (key : Str) → contains (keys m) key ≡ has key m
unfolding contains keys get
contains-keys [] key = refl
contains-keys ((k, v) ∷ m) key = ground (arith, contains-keys m key)

pub length-keys {ℓ} : {V : Type ℓ} (m : Map V) → length (keys m) ≡ length m
unfolding keys
length-keys [] = refl
length-keys ((k, v) ∷ m) = ap suc (length-keys m)
