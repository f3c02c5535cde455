-- ===== src/ListStore.antt =====
-- internal/datastructure/list.go: lists of items in deques. `none` is a run-time panic. A method
-- returns the store beside its result. Locks are not modelled: a method is one step.
pub mod Refine
pub mod Pops
pub mod Ranges
pub mod Run
pub mod Dump
pub mod Tests
use valkeydb.Base.{
  ℕ, zero, suc, ◌+◌, ◌-◌, ◌*◌, ◌^◌, Bool, true, false, not, Option, none, some, List, [], ◌∷◌, Str,
  lt_str, ltb, ◌==◌, ◌||◌, length, max_alloc, if◌then◌else◌, ◌>>=◌,
}
use valkeydb.Base.Int.{ℤ, pos, negsuc, pos_part, ◌+ℤ◌, ◌-ℤ◌, ltb_ℤ}
use valkeydb.Base.Map.{Map, get, put, delete}
use valkeydb.Item.{Item, zero_item, value_item}
use valkeydb.Deque
use valkeydb.Deque.{
  Deque, new_deque, push_front, push_back, pop_front, pop_back, is_empty, read_from,
}

abbrev pub Lists : Type 0
Lists = Map (Deque Item)

-- `l.items[key]`, with a new deque where that is nil.
unfoldable pub deque_or_new : Option (Deque Item) → Deque Item
deque_or_new none = new_deque zero_item
deque_or_new (some d) = d

unfoldable pub push_all_front : List Str → Deque Item → Option (Deque Item)
push_all_front [] d = some d
push_all_front (v ∷ values) d = do
  d' ← push_front zero_item (value_item v) d
  push_all_front values d'

unfoldable pub push_all_back : List Str → Deque Item → Option (Deque Item)
push_all_back [] d = some d
push_all_back (v ∷ values) d = do d' ← push_back zero_item (value_item v) d; push_all_back values d'

unfoldable pub lpush : Str → List Str → Lists → Option (ℕ × Lists)
lpush key values l = do
  d ← push_all_front values (deque_or_new (get key l))
  some (d.size, put key d l)

unfoldable pub rpush : Str → List Str → Lists → Option (ℕ × Lists)
rpush key values l = do
  d ← push_all_back values (deque_or_new (get key l))
  some (d.size, put key d l)

-- `make([]Item, 0, count)` panics for a negative count, and above the runtime's largest allocation;
-- an `Item` takes 48 bytes.
abbrev pub item_bytes : ℕ
item_bytes = 48

unfoldable pub make_items : ℤ → Option ℕ
make_items (negsuc n) = none
make_items (pos n) = if ltb max_alloc (n * item_bytes) then none else some n

module _ (pop : Deque Item → Option (Option Item × Deque Item)) where
  -- The loop over `count`, which stops at an empty deque.
  unfoldable pub pop_loop : ℕ → Deque Item → Option (List Item × Deque Item)
  pop_loop zero d = some ([], d)
  pop_loop (suc count) d = pop d >>= λ (item, d'). elim item [
    | none ↦ some ([], d')
    | some v ↦ pop_loop count d' >>= λ (rest, d''). some (v ∷ rest, d'')
  ]

  unfoldable pub pop_items : Str → ℤ → Lists → Option (List Item × Lists)
  pop_items key count l = elim (get key l) [
    | none ↦ some ([], l)
    | some d ↦ do
      n ← make_items count
      popped ← pop_loop n d
      some (popped.0, if is_empty popped.1 then delete key l else put key popped.1 l)
  ]

unfoldable pub lpop : Str → ℤ → Lists → Option (List Item × Lists)
lpop key count l = pop_items (pop_front zero_item) key count l

unfoldable pub rpop : Str → ℤ → Lists → Option (List Item × Lists)
rpop key count l = pop_items (pop_back zero_item) key count l

unfoldable pub llen : Str → Lists → ℕ
llen key l = elim (get key l) [ none ↦ 0 | some d ↦ d.size ]

-- The index of the first item, after the two adjustments.
unfoldable pub range_start : ℤ → ℕ → ℤ
range_start start size =
    let from_end = if ltb_ℤ start (pos 0) then start +ℤ pos size else start in
    if ltb_ℤ from_end (pos 0) then pos 0 else from_end

-- The index of the last one.
unfoldable pub range_stop : ℤ → ℕ → ℤ
range_stop stop size =
    let from_end = if ltb_ℤ stop (pos 0) then stop +ℤ pos size else stop in
    if ltb_ℤ from_end (pos size) then from_end else pos size -ℤ pos 1

-- From `first` to `last`, both included.
unfoldable pub range_between : ℤ → ℤ → Deque Item → Option (List Item × Bool)
range_between first last d = if ltb_ℤ last first then some ([], true) else (do
  items ← read_from d (pos_part first) (pos_part last + 1 - pos_part first)
  some (items, true))

unfoldable pub lrange : Str → ℤ → ℤ → Lists → Option (List Item × Bool)
lrange key start stop l = elim (get key l) [
  | none ↦ some ([], false)
  | some d ↦
      if d.size == 0
      then some ([], false)
      else range_between (range_start start d.size) (range_stop stop d.size) d
]

-- `strconv.ParseFloat` and `<` on float64, which the source takes from the runtime.
pub record Floats : Type 1 where
  pub Float : Type 0
  pub parse_float : Str → Option Float
  pub less : Float → Float → Bool

module _ (floats : Floats) where
  unfoldable pub less_number : Option floats.Float → Option floats.Float → Bool → Bool
  less_number (some a) (some b) as_text = floats.less a b
  less_number _ _ as_text = as_text

  -- The comparison that `Sort` hands to the deque.
  unfoldable pub less : Bool → Bool → Item → Item → Bool
  less asc alpha i j =
      let as_text = lt_str i.value j.value in
      let before =
        if alpha
        then as_text
        else less_number (floats.parse_float i.value) (floats.parse_float j.value) as_text in
      if asc then before else not before

  -- `sort_slice` is `sort.Slice`.
  module _ (sort_slice : (Item → Item → Bool) → List Item → List Item) where
    unfoldable pub sort : Str → Bool → Bool → Lists → Option Lists
    sort key asc alpha l = elim (get key l) [
      | none ↦ some l
      | some d ↦ Deque.sort (sort_slice (less asc alpha)) d >>= λ d'. some (put key d' l)
    ]

unfoldable pub dump : Lists → Option (Map (List Item))
dump [] = some []
dump ((key, d) ∷ l) = do
  rest ← dump l
  if d.size == 0 then some rest else (read_from d 0 d.size >>= λ items. some ((key, items) ∷ rest))
