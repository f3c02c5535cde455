-- ===== src/ListStore/Tests.antt =====
-- The lists at the empty store, and at a list of three.
use valkeydb.Base.{
  ℕ, ◌+◌, ◌<◌, ◌≡◌, refl, some, List, [], ◌∷◌, arith, Str, codes, zero, suc, ◌%◌, get_elem?, inl,
  inr,
}
use valkeydb.Base.Int.{pos, negsuc}
use valkeydb.Base.Map.{get, put}
use valkeydb.Item.{Item, zero_item, value_item}
use valkeydb.Deque.{Deque}
use valkeydb.Deque.Repr.{Repr}
use valkeydb.ListStore.{Lists}
use valkeydb.ListStore.Refine.{Stands, Stands-put, update}
use valkeydb.ListStore.Run.{
  Call, to_left, to_right, from_left, from_right, len, range, Fits, AllFit, answers, run,
  run-answers,
}

empty-Stands : Stands [] (λ k. [])
unfolding get
empty-Stands = record { holds = λ k. refl; steady = λ k. tt }

abbrev pub item : Str → Item
item s = value_item s

abbrev pub ring : Deque Item
ring = record {
  items = item (codes "c") ∷ zero_item ∷ item (codes "a") ∷ item (codes "b") ∷ [];
  head = 2;
  tail = 1;
  size = 3;
  capacity = 4;
}

abbrev pub three : List Item
three = item (codes "a") ∷ item (codes "b") ∷ item (codes "c") ∷ []

ring_at : (i : ℕ) → i < 3 → get_elem? ring.items ((2 + i) % 4) ≡ get_elem? three i
ring_at zero h = refl
ring_at (suc zero) h = refl
ring_at (suc (suc zero)) h = refl
ring_at (suc (suc (suc i))) h = absurd (omega arith)

ring-Repr : Repr ring three
ring-Repr = record {
  cap_pos = omega arith;
  storage = refl;
  head_in = omega arith;
  len = refl;
  fits = omega arith;
  tail_at = inl refl;
  at = ring_at;
}

-- A full ring after a sort, with its tail behind the array.
abbrev pub sorted_ring : Deque Item
sorted_ring = record {
  items = item (codes "a") ∷ item (codes "b") ∷ item (codes "c") ∷ item (codes "d") ∷ [];
  head = 0;
  tail = 4;
  size = 4;
  capacity = 4;
}

sorted_at :
    (i : ℕ) → i < 4 → get_elem? sorted_ring.items ((0 + i) % 4) ≡ get_elem? sorted_ring.items i
sorted_at zero h = refl
sorted_at (suc zero) h = refl
sorted_at (suc (suc zero)) h = refl
sorted_at (suc (suc (suc zero))) h = refl
sorted_at (suc (suc (suc (suc i)))) h = absurd (omega arith)

pub sorted-Repr : Repr sorted_ring sorted_ring.items
sorted-Repr = record {
  cap_pos = omega arith;
  storage = refl;
  head_in = omega arith;
  len = refl;
  fits = omega arith;
  tail_at = inr (refl, refl);
  at = sorted_at;
}

abbrev pub store : Lists
store = (codes "k", ring) ∷ []

abbrev pub lists : Str → List Item
lists = update (λ k. []) (codes "k") three

pub store-Stands : Stands store lists
unfolding put
store-Stands = Stands-put (codes "k") empty-Stands ring-Repr (record { tail_in = omega arith })

abbrev values : List Str
values = codes "x" ∷ codes "y" ∷ []

abbrev calls : List Call
calls =
    to_left (codes "k") values
    ∷ from_right (codes "k") 2
    ∷ range (codes "k") (pos 1) (negsuc 0)
    ∷ to_right (codes "j") values
    ∷ from_left (codes "j") 5
    ∷ len (codes "j")
    ∷ []

calls-AllFit : AllFit calls
unfolding AllFit Fits
calls-AllFit = (tt, (omega arith, (tt, (tt, (omega arith, (tt, tt))))))

run-answers_example : run store calls ≡ some (answers lists calls)
run-answers_example = run-answers calls store lists store-Stands calls-AllFit
