-- ===== src/Deque/Sort.antt =====
-- Sorting in place.
use valkeydb.Base.{
  ◌+◌, ◌<◌, ◌≡◌, refl, ◌≢◌, inl, inr, ◌∙◌, ap, none, some, List, [], ◌∷◌, arith, length, get_elem?,
  ◌>>=◌, mod_turn,
}
use native.Mathlib.Decide.{ℕ_discrete}
use valkeydb.Deque.{Deque, sort, pop_front, push_back, make_room}
use valkeydb.Deque.Repr.{Repr, write?-none, read_from-all, write_from-lem}
use valkeydb.Deque.Pop.{pop_front-Repr}

-- A push to the back of a ring with room writes at `tail`, also where that is out of range.
push_back_outside {ℓ} :
    {A : Type ℓ} (z x : A) {d : Deque A} {xs : List A}
    → Repr d xs
    → d.tail ≡ d.capacity
    → d.size ≢ d.capacity
    → push_back z x d ≡ none
unfolding push_back make_room
push_back_outside z x {d} r t room = ground (arith, write?-none d.items d.tail x, r.storage)

module _ {ℓ} {A : Type ℓ} (sort_slice : List A → List A)
    (same_length : (xs : List A) → length (sort_slice xs) ≡ length xs) where
  -- A sort never panics; the deque then stands for the sorted list, from place 0 on, with `tail` at
  -- the number of elements.
  pub sort-Repr :
      {d : Deque A} {xs : List A}
      → Repr d xs
      → 0 < d.size
      → (d' : Deque A) × (sort sort_slice d ≡ some d')
        × Repr d' (sort_slice xs)
        × (d'.tail ≡ d.size)
        × (d'.size ≡ d.size)
        × (d'.capacity ≡ d.capacity)
  unfolding sort
  sort-Repr {d} {xs} r some_in =
      let (out, e, len, here, _) =
        write_from-lem d.items 0 (sort_slice xs)
          (omega (arith, r.len, r.fits, r.storage, same_length xs)) in
      (
        record d { items = out; head = 0; tail = d.size },
        ground (arith, read_from-all r, e),
        record {
          cap_pos = r.cap_pos;
          storage = len ∙ r.storage;
          head_in = r.cap_pos;
          len = same_length xs ∙ r.len;
          fits = r.fits;
          tail_at = elim (ℕ_discrete d.size d.capacity) [
            | yes full ↦
                inr (full, omega (arith, full, r.cap_pos, mod_turn (0 + d.size) d.capacity))
            | no room ↦ inl (omega (arith, room, r.fits, mod_turn (0 + d.size) d.capacity))
          ];
          at = λ i l.
              ap (get_elem? out) (omega (arith, r.fits, mod_turn (0 + i) d.capacity))
              ∙ here i (omega (arith, r.len, same_length xs));
        },
        refl,
        refl,
        refl,
      )

  -- Where the sort keeps the number of elements: after sorting a full ring, a pop from the front
  -- and a push to the back panic, whatever the elements are.
  pub sort_full-panics :
      {d : Deque A} {xs : List A} (z x : A)
      → Repr d xs
      → d.size ≡ d.capacity
      → (sort sort_slice d >>= λ d'. pop_front z d' >>= λ popped. push_back z x popped.1) ≡ none
  sort_full-panics {d} {xs} z x r full =
      let (d', e, r', t, s, c) = sort-Repr r (omega (arith, r.cap_pos, full)) in
      rw e
        (after_pop d' (sort_slice xs) r' (omega (arith, t, s, c, full)) (omega (arith, s, c, full)))
    where
      after_pop :
          (d' : Deque A) (ys : List A)
          → Repr d' ys
          → d'.tail ≡ d'.capacity
          → d'.size ≡ d'.capacity
          → (pop_front z d' >>= λ popped. push_back z x popped.1) ≡ none
      after_pop d' [] r' t s = absurd (omega (arith, r'.cap_pos, r'.len, s))
      after_pop d' (y ∷ ys) r' t s =
          let (d'', e, r'', t'', c'') = pop_front-Repr z r' in
          rw e (
            push_back_outside z x r'' (omega (arith, t, t'', c''))
              (omega (arith, r'.len, r''.len, s, c'')))
