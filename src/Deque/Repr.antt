-- ===== src/Deque/Repr.antt =====
-- When a deque stands for a list, and what the loops over the ring do then.
use valkeydb.Base.{
  ℕ, zero, suc, ◌+◌, ◌%◌, ◌≤◌, ◌<◌, ◌≡◌, refl, ◌⊎◌, ◌∙◌, ap, none, some, List, [], ◌∷◌, arith,
  length, get_elem?, set, length-set, get_elem?-set_self, get_elem?-set_ne,
}
use valkeydb.Deque.{Deque, write?, read_from, write_from}

-- The ring holds `xs`, oldest at the head. `tail` is the place behind the last element; after a sort
-- of a full ring it is the capacity instead of 0.
pub record Repr {ℓ} {A : Type ℓ} (d : Deque A) (xs : List A) : Type ℓ where
  pub cap_pos : 0 < d.capacity
  pub storage : length d.items ≡ d.capacity
  pub head_in : d.head < d.capacity
  pub len : length xs ≡ d.size
  pub fits : d.size ≤ d.capacity
  pub tail_at :
      (d.tail ≡ (d.head + d.size) % d.capacity)
      ⊎ ((d.tail ≡ d.capacity) × ((d.head + d.size) % d.capacity ≡ 0))
  pub at : (i : ℕ) → i < d.size → get_elem? d.items ((d.head + i) % d.capacity) ≡ get_elem? xs i

-- The next push to the back writes inside the array.
pub record TailIn {ℓ} {A : Type ℓ} (d : Deque A) : Type ℓ where
  pub tail_in : d.tail < d.capacity

module _ {ℓ} {A : Type ℓ} where
  pub write?-some :
      (items : List A) (i : ℕ) (v : A) → i < length items → write? items i v ≡ some (set items i v)
  unfolding write?
  write?-some items i v h = ground arith

  pub write?-none : (items : List A) (i : ℕ) (v : A) → length items ≤ i → write? items i v ≡ none
  unfolding write?
  write?-none items i v h = ground arith

  -- A loop that meets the elements of `ys` one after the other reads `ys`.
  pub read_from-eq :
      (d : Deque A) (i n : ℕ) (ys : List A)
      → length ys ≡ n
      → ((j : ℕ) → j < n → get_elem? d.items ((d.head + (i + j)) % d.capacity) ≡ get_elem? ys j)
      → read_from d i n ≡ some ys
  unfolding read_from
  read_from-eq d i zero [] e h = refl
  read_from-eq d i zero (y ∷ ys) e h = absurd (omega arith)
  read_from-eq d i (suc n) [] e h = absurd (omega arith)
  read_from-eq d i (suc n) (y ∷ ys) e h =
      rw (
        first,
        read_from-eq d (i + 1) n ys (omega arith) (λ j l. next j l ∙ h (suc j) (omega arith)),
      )
    where
      first : get_elem? d.items ((d.head + i) % d.capacity) ≡ some y
      first =
          ap (λ k. get_elem? d.items ((d.head + k) % d.capacity)) (omega arith) ∙ h 0 (omega arith)

      next :
          (j : ℕ)
          → j < n
          → get_elem? d.items ((d.head + (i + 1 + j)) % d.capacity)
            ≡ get_elem? d.items ((d.head + (i + suc j)) % d.capacity)
      next j l = ap (λ k. get_elem? d.items ((d.head + k) % d.capacity)) (omega arith)

  -- The loop of writes from `i` on: it stays inside, and changes nothing before `i`.
  pub write_from-lem :
      (items : List A) (i : ℕ) (temp : List A)
      → i + length temp ≤ length items
      → (out : List A) × (write_from items i temp ≡ some out)
        × (length out ≡ length items)
        × ((j : ℕ) → j < length temp → get_elem? out (i + j) ≡ get_elem? temp j)
        × ((j : ℕ) → j < i → get_elem? out j ≡ get_elem? items j)
  unfolding write_from
  write_from-lem items i [] h = (items, refl, refl, (λ j l. absurd (omega arith)), (λ j l. refl))
  write_from-lem items i (v ∷ temp) h =
      let (out, e, len, here, before) =
        write_from-lem (set items i v) (i + 1) temp (omega (arith, length-set items i v)) in
      (
        out,
        ground (arith, write?-some items i v),
        len ∙ length-set items i v,
        at_i out here before,
        (λ j l. before j (omega arith) ∙ get_elem?-set_ne items i j v (omega arith)),
      )
    where
      at_i :
          (out : List A)
          → ((j : ℕ) → j < length temp → get_elem? out (i + 1 + j) ≡ get_elem? temp j)
          → ((j : ℕ) → j < i + 1 → get_elem? out j ≡ get_elem? (set items i v) j)
          → (j : ℕ) → j < suc (length temp)
          → get_elem? out (i + j) ≡ get_elem? (v ∷ temp) j
      at_i out here before zero l =
          ap (get_elem? out) (omega arith)
          ∙ before i (omega arith)
          ∙ get_elem?-set_self items i v (omega arith)
      at_i out here before (suc j) l = ap (get_elem? out) (omega arith) ∙ here j (omega arith)

  -- Reading a whole ring gives the list that it stands for.
  pub read_from-all : {d : Deque A} {xs : List A} → Repr d xs → read_from d 0 d.size ≡ some xs
  read_from-all {d} {xs} r =
      read_from-eq d 0 d.size xs r.len
        λ j l. ap (λ k. get_elem? d.items ((d.head + k) % d.capacity)) (omega arith) ∙ r.at j l
