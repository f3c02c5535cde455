-- ===== src/ListStore/Ranges.antt =====
-- Ranges of a list, with indices from either end.
use valkeydb.Base.{
  ℕ, suc, ◌+◌, ◌-◌, ◌≤◌, ◌<◌, ◌≡◌, refl, ◌∙◌, ap, sym, ◌⊎◌, true, false, none, some, List, [],
  arith, Str, length, take, drop, ◌==◌, not, take-nil, take-min, drop-all, ==_iff, if◌then◌else◌,
  Option-cases, Bool-cases, inl, inr, length-take, length-drop, get_elem?-take, get_elem?-drop,
}
use valkeydb.Base.Int.{ℤ, pos, negsuc, pos_part, ltb_ℤ, ◌+ℤ◌, ◌-ℤ◌}
use valkeydb.Base.Map.{get}
use valkeydb.Item.{Item}
use valkeydb.Deque.{Deque, read_from}
use valkeydb.Deque.Repr.{Repr, read_from-eq}
use valkeydb.ListStore.{Lists, range_start, range_stop, range_between, lrange}
use valkeydb.ListStore.Refine.{Stands}
use valkeydb.ListStore.Pops.{present-Repr, absent-nil}

-- The place that an index names, from the front, in a list of `n`: a negative one counts from the
-- end, and stops at the front.
abbrev pub place : ℤ → ℕ → ℕ
place (pos a) n = a
place (negsuc a) n = n - suc a

-- The place behind it.
abbrev pub place_behind : ℤ → ℕ → ℕ
place_behind (pos b) n = suc b
place_behind (negsuc b) n = n - b

-- Part of a ring.
read_from-part :
    {d : Deque Item} {xs : List Item} (i n : ℕ)
    → Repr d xs
    → i + n ≤ d.size
    → read_from d i n ≡ some (take n (drop i xs))
read_from-part {d} {xs} i n r h =
    read_from-eq d i n (take n (drop i xs))
      (length-take n (drop i xs) (omega (arith, length-drop i xs, r.len)))
      λ j l.
        r.at (i + j) (omega arith) ∙ sym (get_elem?-take n (drop i xs) j l ∙ get_elem?-drop i xs j)

-- The two adjusted indices against the places.
bounds :
    (start stop : ℤ) (n : ℕ)
    → 0 < n
    → ((ltb_ℤ (range_stop stop n) (range_start start n) ≡ true)
        × ((n ≤ place start n) ⊎ (place_behind stop n ≤ place start n)))
      ⊎ ((ltb_ℤ (range_stop stop n) (range_start start n) ≡ false)
          × (place start n < n)
          × (pos_part (range_start start n) ≡ place start n)
          × (((place_behind stop n ≤ n) × (pos_part (range_stop stop n) + 1 ≡ place_behind stop n))
              ⊎ ((n ≤ place_behind stop n) × (pos_part (range_stop stop n) + 1 ≡ n))))
unfolding range_start range_stop ◌+ℤ◌ ◌-ℤ◌
bounds (pos a) (pos b) n h = ground arith
bounds (pos a) (negsuc b) n h = ground arith
bounds (negsuc a) (pos b) n h = ground arith
bounds (negsuc a) (negsuc b) n h = ground arith

-- What lies between the two places.
abbrev part : ℤ → ℤ → ℕ → List Item → List Item
part start stop n xs = take (place_behind stop n - place start n) (drop (place start n) xs)

part-nil :
    (start stop : ℤ) (n : ℕ) (xs : List Item)
    → length xs ≡ n
    → (n ≤ place start n) ⊎ (place_behind stop n ≤ place start n)
    → part start stop n xs ≡ []
part-nil start stop n xs e (inl far) =
    rw (drop-all (place start n) xs (omega arith)) (take-nil (place_behind stop n - place start n))
part-nil start stop n xs e (inr crossed) =
    let z : place_behind stop n - place start n ≡ 0 = omega arith in rw z refl

range_between-crossed :
    (first last : ℤ) (d : Deque Item)
    → ltb_ℤ last first ≡ true
    → range_between first last d ≡ some ([], true)
unfolding range_between
range_between-crossed first last d e = rw e refl

range_between-read :
    (first last : ℤ) (d : Deque Item) (ys : List Item)
    → ltb_ℤ last first ≡ false
    → read_from d (pos_part first) (pos_part last + 1 - pos_part first) ≡ some ys
    → range_between first last d ≡ some (ys, true)
unfolding range_between
range_between-read first last d ys e r = rw (e, r) refl

range_between-part :
    (start stop : ℤ) {d : Deque Item} {xs : List Item}
    → Repr d xs
    → 0 < d.size
    → range_between (range_start start d.size) (range_stop stop d.size) d
      ≡ some (part start stop d.size xs, true)
range_between-part start stop {d} {xs} r h = elim (bounds start stop d.size h) [
  | inl (e, none_left) ↦
      range_between-crossed (range_start start d.size) (range_stop stop d.size) d e
      ∙ ap (λ ys. some (ys, true)) (sym (part-nil start stop d.size xs r.len none_left))
  | inr (e, inside, p, inl (q, b)) ↦
      range_between-read (range_start start d.size) (range_stop stop d.size) d
        (part start stop d.size xs) e
        (rw (p, b)
          (read_from-part (place start d.size) (place_behind stop d.size - place start d.size) r
            (omega arith)))
  | inr (e, inside, p, inr (q, b)) ↦
      range_between-read (range_start start d.size) (range_stop stop d.size) d
        (part start stop d.size xs) e
        (rw (p, b)
          (read_from-part (place start d.size) (d.size - place start d.size) r (omega arith)
            ∙ ap some (rest inside q)))
]
  where
    rest :
        place start d.size < d.size
        → d.size ≤ place_behind stop d.size
        → take (d.size - place start d.size) (drop (place start d.size) xs)
          ≡ part start stop d.size xs
    rest inside q =
        take-min (d.size - place start d.size) (place_behind stop d.size - place start d.size)
          (drop (place start d.size) xs) (omega (arith, length-drop (place start d.size) xs, r.len))
          (omega (arith, length-drop (place start d.size) xs, r.len))

lrange-absent :
    (key : Str) (start stop : ℤ) (l : Lists)
    → get key l ≡ none
    → lrange key start stop l ≡ some ([], false)
unfolding lrange
lrange-absent key start stop l e = ground (arith, e)

lrange-present :
    (key : Str) (start stop : ℤ) (l : Lists) (d : Deque Item)
    → get key l ≡ some d
    → lrange key start stop l ≡ (
        if d.size == 0
        then some ([], false)
        else range_between (range_start start d.size) (range_stop stop d.size) d)
unfolding lrange
lrange-present key start stop l d e = ground (arith, e)

-- In a store that stands for a list under each key, `Lrange` never panics and returns the items
-- between the two indices, both included, of which a negative one counts from the end: none where
-- they cross or lie outside. The flag tells a list with items from one without.
pub lrange_lem :
    (key : Str) (start stop : ℤ) (l : Lists) (f : Str → List Item)
    → Stands l f
    → lrange key start stop l
      ≡ some (
        take
            (place_behind stop (length (f key)) - place start (length (f key)))
            (drop (place start (length (f key))) (f key)),
        not (length (f key) == 0),
      )
lrange_lem key start stop l f s = elim (Option-cases (get key l)) [
  | inl e ↦
      rw
        (
          absent-nil (get key l) (f key) (s.holds key) e,
          part-nil start stop 0 [] refl (inl (omega arith)),
        )
        (lrange-absent key start stop l e)
  | inr (d, e) ↦
      let r = (present-Repr (get key l) (f key) d (s.holds key) (s.steady key) e).0 in
      lrange-present key start stop l d e ∙ elim (Bool-cases (d.size == 0)) [
        | inl z ↦
            rw
              (
                r.len,
                z,
                part-nil start stop d.size (f key) r.len (inl (ground (arith, ==_iff d.size 0, z))),
              )
              refl
        | inr z ↦
            rw (r.len, z) (range_between-part start stop r (ground (arith, ==_iff d.size 0, z)))
      ]
]
