-- ===== src/Deque.antt =====
-- internal/datastructure/deque.go: a growing ring buffer. `none` is a run-time panic (an index out
-- of range). The capacity is 4 at first and doubles, so the source never divides by zero.
pub mod Repr
pub mod Write
pub mod Push
pub mod Pop
pub mod Sort
pub mod Run
mod Tests
use valkeydb.Base.{
  ℕ, zero, suc, ◌+◌, ◌-◌, ◌*◌, ◌%◌, Bool, Option, none, some, List, [], ◌∷◌, ltb, ◌==◌, length,
  get_elem?, set, replicate, if◌then◌else◌, ◌>>=◌,
}

pub record Deque {ℓ} (A : Type ℓ) : Type ℓ where
  pub items : List A
  pub head : ℕ
  pub tail : ℕ
  pub size : ℕ
  pub capacity : ℕ

-- `items[i] = v`, which panics out of range.
unfoldable pub write? {ℓ} : {A : Type ℓ} → List A → ℕ → A → Option (List A)
write? items i v = if ltb i (length items) then some (set items i v) else none

module _ {ℓ} {A : Type ℓ} where
  unfoldable pub is_empty : Deque A → Bool
  is_empty d = d.size == 0

  unfoldable pub shift_left : Deque A → ℕ → ℕ
  shift_left d pos = (pos + d.capacity - 1) % d.capacity

  unfoldable pub shift_right : Deque A → ℕ → ℕ
  shift_right d pos = (pos + 1) % d.capacity

  -- The loop over `i` that reads `d.items[(d.head + i) % d.capacity]`, `n` rounds from `i` on.
  unfoldable pub read_from : Deque A → ℕ → ℕ → Option (List A)
  read_from d i zero = some []
  read_from d i (suc n) = do
    v ← get_elem? d.items ((d.head + i) % d.capacity)
    rest ← read_from d (i + 1) n
    some (v ∷ rest)

  -- The loop over `i` that writes `items[i] = temp[i]`, from `i` on.
  unfoldable pub write_from : List A → ℕ → List A → Option (List A)
  write_from items i [] = some items
  write_from items i (v ∷ temp) = do items' ← write? items i v; write_from items' (i + 1) temp

-- `zero` is Go's zero value of the element type.
module _ {ℓ} {A : Type ℓ} (zero : A) where
  unfoldable pub new_deque : Deque A
  new_deque = record { items = replicate 4 zero; head = 0; tail = 0; size = 0; capacity = 4 }

  -- The loop reads the old ring and writes the new array.
  unfoldable pub resize : Deque A → Option (Deque A)
  resize d = do
    let cap = 2 * d.capacity
    temp ← read_from d 0 d.size
    items ← write_from (replicate cap zero) 0 temp
    some (record { items = items; head = 0; tail = d.size; size = d.size; capacity = cap })

  unfoldable pub make_room : Deque A → Option (Deque A)
  make_room d = if d.size == d.capacity then resize d else some d

  unfoldable pub push_front : A → Deque A → Option (Deque A)
  unfolding shift_left
  push_front item d = do
    d' ← make_room d
    let head = shift_left d' d'.head
    items ← write? d'.items head item
    some (record d' { items = items; head = head; size = d'.size + 1 })

  unfoldable pub push_back : A → Deque A → Option (Deque A)
  unfolding shift_right
  push_back item d = do
    d' ← make_room d
    items ← write? d'.items d'.tail item
    some (record d' { items = items; tail = shift_right d' d'.tail; size = d'.size + 1 })

  -- The element that is returned, if there is one, and the deque.
  unfoldable pub pop_front : Deque A → Option (Option A × Deque A)
  unfolding is_empty shift_right
  pop_front d = if is_empty d then some (none, d) else do
    value ← get_elem? d.items d.head
    items ← write? d.items d.head zero
    some (some value, record d { items = items; head = shift_right d d.head; size = d.size - 1 })

  unfoldable pub pop_back : Deque A → Option (Option A × Deque A)
  unfolding is_empty shift_left
  pop_back d = if is_empty d then some (none, d) else do
    let tail = shift_left d d.tail
    value ← get_elem? d.items tail
    items ← write? d.items tail zero
    some (some value, record d { items = items; tail = tail; size = d.size - 1 })

-- `sort_slice` is `sort.Slice` at the comparison `less`.
module _ {ℓ} {A : Type ℓ} (sort_slice : List A → List A) where
  unfoldable pub sort : Deque A → Option (Deque A)
  unfolding is_empty
  sort d = if is_empty d then some d else do
    temp ← read_from d 0 d.size
    items ← write_from d.items 0 (sort_slice temp)
    some (record d { items = items; head = 0; tail = d.size })
