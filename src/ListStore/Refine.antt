-- ===== src/ListStore/Refine.antt =====
-- The store of deques against a list for each key.
use mathlib.Core.Path.{subst}
use mathlib.Core.List.{reverse, reverse-cons}
use valkeydb.Base.{
  ◌≡◌, refl, Option, none, some, List, [], ◌∷◌, ◌++◌, map, Str, eq_str, length, if◌then◌else◌,
  Bool-cases, inl, inr, append-nil, append_assoc,
}
use valkeydb.Base.Map.{get, put, delete, get-put, get-delete}
use valkeydb.Item.{Item, zero_item, value_item}
use valkeydb.Deque.{Deque}
use valkeydb.Deque.Repr.{Repr, TailIn}
use valkeydb.Deque.Push.{new_deque-Repr, push_front-Repr, push_back-Repr}
use valkeydb.ListStore.{Lists, deque_or_new, push_all_front, push_all_back, lpush, rpush}

-- A key with no deque stands for the empty list.
abbrev pub Holds : Option (Deque Item) → List Item → Type 0
Holds none xs = xs ≡ []
Holds (some d) xs = Repr d xs

-- The place at the tail is inside the array.
abbrev pub Steady : Option (Deque Item) → Type 0
Steady none = Unit
Steady (some d) = TailIn d

-- The store stands for the lists `f`, wherever the tails are.
abbrev pub Denotes : Lists → (Str → List Item) → Type 0
Denotes l f = (k : Str) → Holds (get k l) (f k)

-- The store stands for the lists `f`, and the next push to the back of any of them is in range.
pub record Stands (l : Lists) (f : Str → List Item) : Type 0 where
  pub holds : (k : Str) → Holds (get k l) (f k)
  pub steady : (k : Str) → Steady (get k l)

-- `f` with another list at a key.
abbrev pub update : (Str → List Item) → Str → List Item → Str → List Item
update f key xs k = if eq_str key k then xs else f k

pub Stands-put :
    {l : Lists} {f : Str → List Item} (key : Str) {d : Deque Item} {xs : List Item}
    → Stands l f
    → Repr d xs
    → TailIn d
    → Stands (put key d l) (update f key xs)
Stands-put {l} {f} key {d} {xs} s r t = record {
  holds = λ k. elim (Bool-cases (eq_str key k)) [
    | inl e ↦ rw (get-put key k d l, e) r
    | inr e ↦ rw (get-put key k d l, e) (s.holds k)
  ];
  steady = λ k. elim (Bool-cases (eq_str key k)) [
    | inl e ↦ rw (get-put key k d l, e) t
    | inr e ↦ rw (get-put key k d l, e) (s.steady k)
  ];
}

pub Stands-delete :
    {l : Lists} {f : Str → List Item} (key : Str)
    → Stands l f
    → Stands (delete key l) (update f key [])
Stands-delete {l} {f} key s = record {
  holds = λ k. elim (Bool-cases (eq_str key k)) [
    | inl e ↦ rw (get-delete key k l, e) refl
    | inr e ↦ rw (get-delete key k l, e) (s.holds k)
  ];
  steady = λ k. elim (Bool-cases (eq_str key k)) [
    | inl e ↦ rw (get-delete key k l, e) tt
    | inr e ↦ rw (get-delete key k l, e) (s.steady k)
  ];
}

deque_or_new-Repr :
    (o : Option (Deque Item)) (xs : List Item)
    → Holds o xs
    → Steady o
    → Repr (deque_or_new o) xs × TailIn (deque_or_new o)
unfolding deque_or_new
deque_or_new-Repr none xs h t = rw h (new_deque-Repr zero_item)
deque_or_new-Repr (some d) xs h t = (h, t)

reverse_move {ℓ} :
    {A : Type ℓ} (y : A) (ys xs : List A) → reverse ys ++ y ∷ xs ≡ reverse (y ∷ ys) ++ xs
reverse_move y ys xs = rw (reverse-cons y ys, append_assoc (reverse ys) (y ∷ []) xs)

push_all_front-Repr :
    (values : List Str) {d : Deque Item} {xs : List Item}
    → Repr d xs
    → TailIn d
    → (d' : Deque Item) × (push_all_front values d ≡ some d')
      × Repr d' (reverse (map value_item values) ++ xs)
      × TailIn d'
unfolding push_all_front
push_all_front-Repr [] {d} r t = (d, refl, r, t)
push_all_front-Repr (v ∷ values) {d} {xs} r t =
    let (m, e, rm, tm) = push_front-Repr zero_item (value_item v) r in
    let (d', e', r', t') = push_all_front-Repr values rm (tm (inl t)) in
    (
      d',
      rw (e, e'),
      subst (Repr d') (reverse_move (value_item v) (map value_item values) xs) r',
      t',
    )

push_all_back-Repr :
    (values : List Str) {d : Deque Item} {xs : List Item}
    → Repr d xs
    → TailIn d
    → (d' : Deque Item) × (push_all_back values d ≡ some d')
      × Repr d' (xs ++ map value_item values)
      × TailIn d'
unfolding push_all_back
push_all_back-Repr [] {d} {xs} r t = (d, refl, rw (append-nil xs) r, t)
push_all_back-Repr (v ∷ values) {d} {xs} r t =
    let (m, e, rm, tm) = push_back-Repr zero_item (value_item v) r (inl t) in
    let (d', e', r', t') = push_all_back-Repr values rm tm in
    (
      d',
      rw (e, e'),
      subst (Repr d') (append_assoc xs (value_item v ∷ []) (map value_item values)) r',
      t',
    )

-- In a store that stands for a list under each key, `Lpush` never panics: it puts the values
-- before the list one after the other, so the last one comes first, and returns the new length.
-- The other lists are as before.
pub lpush_lem :
    (key : Str) (values : List Str) (l : Lists) (f : Str → List Item)
    → Stands l f
    → (l' : Lists) × (lpush key values l
        ≡ some (length (reverse (map value_item values) ++ f key), l'))
      × Stands l' (update f key (reverse (map value_item values) ++ f key))
unfolding lpush
lpush_lem key values l f s =
    let (r, t) = deque_or_new-Repr (get key l) (f key) (s.holds key) (s.steady key) in
    let (d, e, r', t') = push_all_front-Repr values r t in
    (put key d l, rw (e, r'.len), Stands-put key s r' t')

-- In a store that stands for a list under each key, `Rpush` never panics: it puts the values
-- behind the list in their order, and returns the new length. The other lists are as before.
pub rpush_lem :
    (key : Str) (values : List Str) (l : Lists) (f : Str → List Item)
    → Stands l f
    → (l' : Lists) × (rpush key values l ≡ some (length (f key ++ map value_item values), l'))
      × Stands l' (update f key (f key ++ map value_item values))
unfolding rpush
rpush_lem key values l f s =
    let (r, t) = deque_or_new-Repr (get key l) (f key) (s.holds key) (s.steady key) in
    let (d, e, r', t') = push_all_back-Repr values r t in
    (put key d l, rw (e, r'.len), Stands-put key s r' t')
