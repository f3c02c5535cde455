-- ===== src/Deque/Push.antt =====
-- Growing, and pushes at both ends.
use valkeydb.Base.{
  ◌+◌, ◌-◌, ◌*◌, ◌%◌, ◌<◌, ◌≡◌, refl, ◌⊎◌, inl, inr, ◌∙◌, ap, some, List, [], ◌∷◌, ◌++◌, arith,
  get_elem?, set, replicate, mod_turn, length-replicate,
}
use native.Mathlib.Decide.{ℕ_discrete}
use valkeydb.Deque.{Deque, resize, make_room, push_front, push_back, new_deque}
use valkeydb.Deque.Repr.{Repr, TailIn, write?-some, read_from-all, write_from-lem}
use valkeydb.Deque.Write.{before_head, front-Repr, back-Repr}

module _ {ℓ} {A : Type ℓ} (zero_value : A) where
  pub new_deque-Repr : Repr (new_deque zero_value) [] × TailIn (new_deque zero_value)
  unfolding new_deque
  new_deque-Repr = (
    record {
      cap_pos = omega arith;
      storage = refl;
      head_in = omega arith;
      len = refl;
      fits = omega arith;
      tail_at = inl (omega arith);
      at = λ i l. absurd (omega arith);
    },
    record { tail_in = omega arith },
  )

  -- Growing keeps the list, doubles the capacity, and leaves room.
  pub resize-Repr :
      {d : Deque A} {xs : List A}
      → Repr d xs
      → (d' : Deque A) × (resize zero_value d ≡ some d')
        × Repr d' xs
        × TailIn d'
        × (d'.capacity ≡ 2 * d.capacity)
  unfolding resize
  resize-Repr {d} {xs} r =
      let (out, e, len, here, _) =
        write_from-lem (replicate (2 * d.capacity) zero_value) 0 xs
          (omega (arith, length-replicate (2 * d.capacity) zero_value, r)) in
      (
        record { items = out; head = 0; tail = d.size; size = d.size; capacity = 2 * d.capacity },
        rw (read_from-all r, e),
        record {
          cap_pos = omega arith;
          storage = len ∙ length-replicate (2 * d.capacity) zero_value;
          head_in = omega arith;
          len = r.len;
          fits = omega arith;
          tail_at = inl (omega (arith, mod_turn (0 + d.size) (2 * d.capacity)));
          at = λ i l.
              ap (get_elem? out) (omega (arith, mod_turn (0 + i) (2 * d.capacity)))
              ∙ here i (omega (arith, r.len));
        },
        record { tail_in = omega arith },
        refl,
      )

  -- Room for one more is made exactly where the ring is full.
  pub make_room-Repr :
      {d : Deque A} {xs : List A}
      → Repr d xs
      → (d' : Deque A) × (make_room zero_value d ≡ some d')
        × Repr d' xs
        × (d'.size < d'.capacity)
        × (TailIn d ⊎ (d.size ≡ d.capacity) → TailIn d')
  unfolding make_room
  make_room-Repr {d} {xs} r = elim (ℕ_discrete d.size d.capacity) [
    | yes full ↦
        let (d', e, r', t, c) = resize-Repr r in
        (d', ground (arith, e), r', omega (arith, c, r.cap_pos, r.len, r'.len, full), λ _. t)
    | no room ↦ (
      d,
      ground arith,
      r,
      omega (arith, r.fits),
      λ t. elim t [ inl t ↦ t | inr full ↦ absurd (room full) ],
    )
  ]

  -- A push to the front never panics, and puts the element before the others.
  pub push_front-Repr :
      {d : Deque A} {xs : List A} (x : A)
      → Repr d xs
      → (d' : Deque A) × (push_front zero_value x d ≡ some d')
        × Repr d' (x ∷ xs)
        × (TailIn d ⊎ (d.size ≡ d.capacity) → TailIn d')
  unfolding push_front
  push_front-Repr {d} {xs} x r =
      let (m, e, rm, room, tail) = make_room-Repr r in
      (
        record m {
          items = set m.items ((m.head + m.capacity - 1) % m.capacity) x;
          head = (m.head + m.capacity - 1) % m.capacity;
          size = m.size + 1;
        },
        rw (
          e,
          write?-some m.items ((m.head + m.capacity - 1) % m.capacity) x
              (omega (arith, before_head x rm room, rm.storage)),
        ),
        front-Repr x rm room,
        λ t. record { tail_in = (tail t).tail_in },
      )

  -- A push to the back puts the element behind the others, where the place at `tail` is inside the
  -- array or the ring is full.
  pub push_back-Repr :
      {d : Deque A} {xs : List A} (x : A)
      → Repr d xs
      → TailIn d ⊎ (d.size ≡ d.capacity)
      → (d' : Deque A) × (push_back zero_value x d ≡ some d') × Repr d' (xs ++ x ∷ []) × TailIn d'
  unfolding push_back
  push_back-Repr {d} {xs} x r t =
      let (m, e, rm, room, tail) = make_room-Repr r in
      let inside : m.tail < m.capacity = (tail t).tail_in in
      (
        record m {
          items = set m.items m.tail x;
          tail = (m.tail + 1) % m.capacity;
          size = m.size + 1;
        },
        rw (e, write?-some m.items m.tail x (omega (arith, inside, rm.storage))),
        back-Repr x rm room inside,
        record { tail_in = omega (arith, mod_turn (m.tail + 1) m.capacity, inside) },
      )
