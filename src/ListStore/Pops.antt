-- ===== src/ListStore/Pops.antt =====
-- Pops against a list for each key.
use mathlib.Core.Path.{subst}
use mathlib.Core.List.{reverse, reverse-cons, reverse-reverse}
use valkeydb.Base.{
  ℕ, zero, suc, ◌*◌, ◌≤◌, ◌<◌, ◌≡◌, refl, sym, true, Option, none, some, List, [], ◌∷◌, arith, Str,
  eq_str, eq_str_iff, take, drop, Option-cases, Bool-cases, inl, inr, max_alloc, take-nil, drop-nil,
}
use valkeydb.Base.Int.{pos, negsuc}
use valkeydb.Base.Map.{get, put, delete}
use valkeydb.Item.{Item, zero_item}
use valkeydb.Deque.{Deque, pop_front, pop_back, is_empty}
use valkeydb.Deque.Repr.{Repr, TailIn}
use valkeydb.Deque.Pop.{pop_front-Repr, pop_front-empty, pop_back-Repr, pop_back-empty}
use valkeydb.ListStore.{Lists, make_items, item_bytes, pop_loop, pop_items, lpop, rpop}
use valkeydb.ListStore.Refine.{Holds, Steady, Stands, update, Stands-put, Stands-delete}

front_loop :
    (n : ℕ) (d : Deque Item) (xs : List Item)
    → Repr d xs
    → TailIn d
    → (d' : Deque Item) × (pop_loop (pop_front zero_item) n d ≡ some (take n xs, d'))
      × Repr d' (drop n xs)
      × TailIn d'
unfolding pop_loop
front_loop zero d xs r t = (d, refl, r, t)
front_loop (suc n) d [] r t = (d, rw (pop_front-empty zero_item r), r, t)
front_loop (suc n) d (x ∷ xs) r t =
    let (m, e, rm, tail, cap) = pop_front-Repr zero_item r in
    let (d', e', r', t') = front_loop n m xs rm (record { tail_in = rw (tail, cap) t.tail_in }) in
    (d', rw (e, e'), r', t')

back_loop :
    (n : ℕ) (d : Deque Item) (zs : List Item)
    → Repr d (reverse zs)
    → TailIn d
    → (d' : Deque Item) × (pop_loop (pop_back zero_item) n d ≡ some (take n zs, d'))
      × Repr d' (reverse (drop n zs))
      × TailIn d'
unfolding pop_loop
back_loop zero d zs r t = (d, refl, r, t)
back_loop (suc n) d [] r t = (d, rw (pop_back-empty zero_item r), r, t)
back_loop (suc n) d (z ∷ zs) r t =
    let (m, e, rm, tm, cap) = pop_back-Repr zero_item (subst (Repr d) (reverse-cons z zs) r) in
    let (d', e', r', t') = back_loop n m zs rm tm in (d', rw (e, e'), r', t')

is_empty-size : (d : Deque Item) → is_empty d ≡ true → d.size ≡ 0
unfolding is_empty
is_empty-size d h = ground arith

Stands-absent :
    {l : Lists} {f : Str → List Item} (key : Str)
    → Stands l f
    → get key l ≡ none
    → Stands l (update f key [])
Stands-absent {l} {f} key s e = record {
  holds = λ k. elim (Bool-cases (eq_str key k)) [
    | inl same ↦ let p : key ≡ k = (eq_str_iff key k).0 same in rw (same, ← p, e) refl
    | inr other ↦ rw other (s.holds k)
  ];
  steady = s.steady;
}

pub absent-nil : (o : Option (Deque Item)) (xs : List Item) → Holds o xs → o ≡ none → xs ≡ []
absent-nil none xs h e = h
absent-nil (some d) xs h e = cc

pub present-Repr :
    (o : Option (Deque Item)) (xs : List Item) (d : Deque Item)
    → Holds o xs
    → Steady o
    → o ≡ some d
    → Repr d xs × TailIn d
present-Repr none xs d h t e = cc
present-Repr (some c) xs d h t e =
    let same : c ≡ d = cc in (subst (λ x. Repr x xs) same h, subst TailIn same t)

-- What is common to the two pops: from the loop's result to the method's.
module _ (pop : Deque Item → Option (Option Item × Deque Item)) (n : ℕ)
    (small : n * item_bytes ≤ max_alloc) where
  pop_items-some :
      (key : Str) (l : Lists) (f : Str → List Item) (d d' : Deque Item) (taken rest : List Item)
      → Stands l f
      → get key l ≡ some d
      → pop_loop pop n d ≡ some (taken, d')
      → Repr d' rest
      → TailIn d'
      → (l' : Lists) × (pop_items pop key (pos n) l ≡ some (taken, l'))
        × Stands l' (update f key rest)
  unfolding pop_items make_items
  pop_items-some key l f d d' taken rest s e loop r t = elim (Bool-cases (is_empty d')) [
    | inl z ↦ (delete key l, ground (arith, e, loop, z), emptied rest r z)
    | inr z ↦ (put key d' l, ground (arith, e, loop, z), Stands-put key s r t)
  ]
    where
      emptied :
          (rest : List Item)
          → Repr d' rest
          → is_empty d' ≡ true
          → Stands (delete key l) (update f key rest)
      emptied [] r z = Stands-delete key s
      emptied (x ∷ rest) r z = absurd (omega (arith, r.len, is_empty-size d' z))

  pop_items-none :
      (key : Str) (l : Lists) (f : Str → List Item)
      → Stands l f
      → get key l ≡ none
      → (pop_items pop key (pos n) l ≡ some ([], l)) × (f key ≡ []) × Stands l (update f key [])
  unfolding pop_items
  pop_items-none key l f s e =
      (ground (arith, e), absent-nil (get key l) (f key) (s.holds key) e, Stands-absent key s e)

-- In a store that stands for a list under each key, `Lpop` with a count that can be allocated
-- returns the first items, at most so many, and leaves the rest. The other lists are as before.
pub lpop_lem :
    (key : Str) (n : ℕ) (l : Lists) (f : Str → List Item)
    → Stands l f
    → n * item_bytes ≤ max_alloc
    → (l' : Lists) × (lpop key (pos n) l ≡ some (take n (f key), l'))
      × Stands l' (update f key (drop n (f key)))
unfolding lpop
lpop_lem key n l f s small = elim (Option-cases (get key l)) [
  | inl e ↦
      let (gone, z, stands) = pop_items-none (pop_front zero_item) n small key l f s e in
      (l, rw (z, take-nil n) gone, rw (z, drop-nil n) stands)
  | inr (d, e) ↦
      let (r, t) = present-Repr (get key l) (f key) d (s.holds key) (s.steady key) e in
      let (d', loop, r', t') = front_loop n d (f key) r t in
      pop_items-some (pop_front zero_item) n small key l f d d' (take n (f key)) (drop n (f key)) s
        e loop r' t'
]

-- In a store that stands for a list under each key, `Rpop` with a count that can be allocated
-- returns the last items, at most so many and the last one first, and leaves the rest. The other
-- lists are as before.
pub rpop_lem :
    (key : Str) (n : ℕ) (l : Lists) (f : Str → List Item)
    → Stands l f
    → n * item_bytes ≤ max_alloc
    → (l' : Lists) × (rpop key (pos n) l ≡ some (take n (reverse (f key)), l'))
      × Stands l' (update f key (reverse (drop n (reverse (f key)))))
unfolding rpop
rpop_lem key n l f s small = elim (Option-cases (get key l)) [
  | inl e ↦
      let (gone, z, stands) = pop_items-none (pop_back zero_item) n small key l f s e in
      (l, rw (z, take-nil n) gone, rw (z, drop-nil n) stands)
  | inr (d, e) ↦
      let (r, t) = present-Repr (get key l) (f key) d (s.holds key) (s.steady key) e in
      let (d', loop, r', t') =
        back_loop n d (reverse (f key)) (subst (Repr d) (sym (reverse-reverse (f key))) r) t in
      pop_items-some (pop_back zero_item) n small key l f d d' (take n (reverse (f key)))
        (reverse (drop n (reverse (f key)))) s e loop r' t'
]

-- On a key that has a deque, `Lpop` and `Rpop` panic for a negative count, and for one whose
-- items would take more bytes than can be allocated.
pub pop-panics :
    (key : Str) (n : ℕ) (l : Lists) (d : Deque Item)
    → get key l ≡ some d
    → (lpop key (negsuc n) l ≡ none)
      × (rpop key (negsuc n) l ≡ none)
      × (max_alloc < n * item_bytes → (lpop key (pos n) l ≡ none) × (rpop key (pos n) l ≡ none))
unfolding lpop rpop pop_items make_items
pop-panics key n l d e =
    (ground (arith, e), ground (arith, e), λ big. (ground (arith, e), ground (arith, e)))
