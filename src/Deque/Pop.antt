-- ===== src/Deque/Pop.antt =====
-- Pops at both ends.
use valkeydb.Base.{
  ℕ, suc, ◌+◌, ◌-◌, ◌%◌, ◌≤◌, ◌<◌, ◌≡◌, refl, sym, inl, inr, ◌∙◌, ap, none, some, List, [], ◌∷◌,
  ◌++◌, arith, length, get_elem?, set, length-set, get_elem?-set_ne, mod_turn, length-append,
  get_elem?-append_left, get_elem?-append_last,
}
use valkeydb.Deque.{Deque, pop_front, pop_back}
use valkeydb.Deque.Repr.{Repr, TailIn, write?-some}

-- One step to the right and `i` more is `i + 1` to the right.
turn_on : (h i c : ℕ) → h < c → i + 1 ≤ c → (h + suc i) % c ≡ ((h + 1) % c + i) % c
turn_on h i c hh hi =
    omega (arith, mod_turn (h + suc i) c, mod_turn (h + 1) c, mod_turn ((h + 1) % c + i) c)

module _ {ℓ} {A : Type ℓ} {d : Deque A} {xs : List A} {x : A} (z : A) (r : Repr d (x ∷ xs)) where
  head_at : get_elem? d.items d.head ≡ some x
  head_at =
      ap (get_elem? d.items) (omega (arith, r.head_in, mod_turn (d.head + 0) d.capacity))
      ∙ r.at 0 (omega (arith, r.len))

  behind_head_at :
      (i : ℕ)
      → i < d.size - 1
      → get_elem? (set d.items d.head z) (((d.head + 1) % d.capacity + i) % d.capacity)
        ≡ get_elem? xs i
  behind_head_at i l =
      get_elem?-set_ne d.items _ _ z
        (rw (← here) (omega (arith, l, r.fits, r.head_in, mod_turn (d.head + suc i) d.capacity)))
      ∙ ap (get_elem? d.items) (sym here)
      ∙ r.at (suc i) (omega (arith, l))
    where
      here : (d.head + suc i) % d.capacity ≡ ((d.head + 1) % d.capacity + i) % d.capacity
      here = turn_on d.head i d.capacity r.head_in (omega (arith, l, r.fits))

  behind_head-Repr :
      Repr
        (record d {
          items = set d.items d.head z;
          head = (d.head + 1) % d.capacity;
          size = d.size - 1;
        })
        xs
  behind_head-Repr = record {
    cap_pos = r.cap_pos;
    storage = length-set d.items _ z ∙ r.storage;
    head_in = omega (arith, mod_turn (d.head + 1) d.capacity, r.head_in);
    len = omega (arith, r.len);
    fits = omega (arith, r.fits);
    tail_at = elim r.tail_at [
      | inl e ↦ inl (e ∙ round)
      | inr (e, at_zero) ↦ inr (e, sym round ∙ at_zero)
    ];
    at = behind_head_at;
  }
    where
      round :
          (d.head + d.size) % d.capacity ≡ ((d.head + 1) % d.capacity + (d.size - 1)) % d.capacity
      round =
          ap (λ k. (d.head + k) % d.capacity) (omega (arith, r.len))
          ∙ turn_on d.head (d.size - 1) d.capacity r.head_in (omega (arith, r.len, r.fits))

module _ {ℓ} {A : Type ℓ} {d : Deque A} (xs : List A) (x z : A) (r : Repr d (xs ++ x ∷ [])) where
  size_last : d.size ≡ length xs + 1
  size_last = omega (arith, r.len, length-append xs (x ∷ []))

  last_place : (d.tail + d.capacity - 1) % d.capacity ≡ (d.head + length xs) % d.capacity
  last_place = omega (
    arith,
    size_last,
    r.tail_at,
    r.head_in,
    r.fits,
    mod_turn (d.head + d.size) d.capacity,
    mod_turn (d.tail + d.capacity - 1) d.capacity,
    mod_turn (d.head + length xs) d.capacity,
  )

  last_in : (d.tail + d.capacity - 1) % d.capacity < d.capacity
  last_in =
      rw last_place
        (omega (arith, size_last, r.head_in, r.fits, mod_turn (d.head + length xs) d.capacity))

  last_at : get_elem? d.items ((d.tail + d.capacity - 1) % d.capacity) ≡ some x
  last_at =
      ap (get_elem? d.items) last_place
      ∙ r.at (length xs) (omega (arith, size_last))
      ∙ get_elem?-append_last xs x (length xs) refl

  before_last_at :
      (i : ℕ)
      → i < d.size - 1
      → get_elem?
          (set d.items ((d.tail + d.capacity - 1) % d.capacity) z)
          ((d.head + i) % d.capacity)
        ≡ get_elem? xs i
  before_last_at i l =
      get_elem?-set_ne d.items _ _ z (
        rw last_place (
          omega (
            arith,
            size_last,
            l,
            r.fits,
            r.head_in,
            mod_turn (d.head + length xs) d.capacity,
            mod_turn (d.head + i) d.capacity,
          )))
      ∙ r.at i (omega (arith, l))
      ∙ get_elem?-append_left xs (x ∷ []) i (omega (arith, size_last, l))

  before_last-Repr :
      Repr
        (record d {
          items = set d.items ((d.tail + d.capacity - 1) % d.capacity) z;
          tail = (d.tail + d.capacity - 1) % d.capacity;
          size = d.size - 1;
        })
        xs
  before_last-Repr = record {
    cap_pos = r.cap_pos;
    storage = length-set d.items _ z ∙ r.storage;
    head_in = r.head_in;
    len = omega (arith, size_last);
    fits = omega (arith, r.fits);
    tail_at = inl (last_place ∙ ap (λ k. (d.head + k) % d.capacity) (omega (arith, size_last)));
    at = before_last_at;
  }

module _ {ℓ} {A : Type ℓ} (zero_value : A) where
  -- An empty deque is left as it is.
  pub pop_front-empty : {d : Deque A} → Repr d [] → pop_front zero_value d ≡ some (none, d)
  unfolding pop_front
  pop_front-empty r = ground (arith, r.len)

  pub pop_back-empty : {d : Deque A} → Repr d [] → pop_back zero_value d ≡ some (none, d)
  unfolding pop_back
  pop_back-empty r = ground (arith, r.len)

  -- A pop from the front gives the first element and leaves the others; it cleared the place.
  pub pop_front-Repr :
      {d : Deque A} {xs : List A} {x : A}
      → Repr d (x ∷ xs)
      → (d' : Deque A) × (pop_front zero_value d ≡ some (some x, d'))
        × Repr d' xs
        × (d'.tail ≡ d.tail)
        × (d'.capacity ≡ d.capacity)
  unfolding pop_front
  pop_front-Repr {d} {xs} {x} r = (
    record d {
      items = set d.items d.head zero_value;
      head = (d.head + 1) % d.capacity;
      size = d.size - 1;
    },
    ground (
      arith,
      head_at zero_value r,
      r.len,
      r.storage,
      r.head_in,
      write?-some d.items d.head zero_value,
    ),
    behind_head-Repr zero_value r,
    refl,
    refl,
  )

  pub pop_back-Repr :
      {d : Deque A} {xs : List A} {x : A}
      → Repr d (xs ++ x ∷ [])
      → (d' : Deque A) × (pop_back zero_value d ≡ some (some x, d'))
        × Repr d' xs
        × TailIn d'
        × (d'.capacity ≡ d.capacity)
  unfolding pop_back
  pop_back-Repr {d} {xs} {x} r = (
    record d {
      items = set d.items ((d.tail + d.capacity - 1) % d.capacity) zero_value;
      tail = (d.tail + d.capacity - 1) % d.capacity;
      size = d.size - 1;
    },
    ground (
      arith,
      last_at xs x zero_value r,
      size_last xs x zero_value r,
      r.storage,
      last_in xs x zero_value r,
      write?-some d.items ((d.tail + d.capacity - 1) % d.capacity) zero_value,
    ),
    before_last-Repr xs x zero_value r,
    record { tail_in = last_in xs x zero_value r },
    refl,
  )
