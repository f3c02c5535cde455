-- ===== src/Deque/Write.antt =====
-- Writes at both ends of a ring with room.
use valkeydb.Base.{
  ℕ, zero, suc, ◌+◌, ◌-◌, ◌%◌, ◌<◌, ◌≡◌, sym, ◌≢◌, inl, inr, ◌∙◌, ap, List, [], ◌∷◌, ◌++◌, arith,
  get_elem?, set, length-set, get_elem?-set_self, get_elem?-set_ne, mod_turn, length-append,
  get_elem?-append_left, get_elem?-append_last,
}
use native.Mathlib.Decide.{dec_lt}
use valkeydb.Deque.{Deque}
use valkeydb.Deque.Repr.{Repr}

-- One place to the left and `i + 1` to the right is `i` to the right.
turn_back : (h i c : ℕ) → h < c → i < c → (h + i) % c ≡ ((h + c - 1) % c + suc i) % c
turn_back h i c hh hi =
    omega (arith, mod_turn (h + c - 1) c, mod_turn (h + i) c, mod_turn ((h + c - 1) % c + suc i) c)

-- The place to the left of the head is none of the places in use.
turn_back-ne : (h i c : ℕ) → h < c → i + 1 < c → (h + c - 1) % c ≢ (h + i) % c
turn_back-ne h i c hh hi = omega (arith, mod_turn (h + c - 1) c, mod_turn (h + i) c)

-- A write in front of the head of a ring with room, and one behind its last element.
module _ {ℓ} {A : Type ℓ} {m : Deque A} {xs : List A} (x : A) (r : Repr m xs)
    (room : m.size < m.capacity) where
  pub before_head : (m.head + m.capacity - 1) % m.capacity < m.capacity
  before_head = omega (arith, mod_turn (m.head + m.capacity - 1) m.capacity, r.cap_pos, r.head_in)

  round :
      (m.head + m.size) % m.capacity
      ≡ ((m.head + m.capacity - 1) % m.capacity + (m.size + 1)) % m.capacity
  round =
      turn_back m.head m.size m.capacity r.head_in room
      ∙ ap (λ k. ((m.head + m.capacity - 1) % m.capacity + k) % m.capacity) (omega arith)

  front_at :
      (i : ℕ)
      → i < m.size + 1
      → get_elem?
          (set m.items ((m.head + m.capacity - 1) % m.capacity) x)
          (((m.head + m.capacity - 1) % m.capacity + i) % m.capacity)
        ≡ get_elem? (x ∷ xs) i
  front_at zero l =
      ap (get_elem? (set m.items ((m.head + m.capacity - 1) % m.capacity) x)) (
        omega
          (arith, before_head, mod_turn ((m.head + m.capacity - 1) % m.capacity + 0) m.capacity))
      ∙ get_elem?-set_self m.items _ x (omega (arith, before_head, r.storage))
  front_at (suc i) l =
      get_elem?-set_ne m.items _ _ x
        (rw (← here) (turn_back-ne m.head i m.capacity r.head_in (omega arith)))
      ∙ ap (get_elem? m.items) (sym here)
      ∙ r.at i (omega arith)
    where
      here :
          (m.head + i) % m.capacity ≡ ((m.head + m.capacity - 1) % m.capacity + suc i) % m.capacity
      here = turn_back m.head i m.capacity r.head_in (omega arith)

  pub front-Repr :
      Repr
        (record m {
          items = set m.items ((m.head + m.capacity - 1) % m.capacity) x;
          head = (m.head + m.capacity - 1) % m.capacity;
          size = m.size + 1;
        })
        (x ∷ xs)
  front-Repr = record {
    cap_pos = r.cap_pos;
    storage = length-set m.items _ x ∙ r.storage;
    head_in = before_head;
    len = omega (arith, r.len);
    fits = omega (arith, room);
    tail_at = elim r.tail_at [ inl e ↦ inl (e ∙ round) | inr (e, z) ↦ inr (e, sym round ∙ z) ];
    at = front_at;
  }

  back_at :
      m.tail < m.capacity
      → (i : ℕ) → i < m.size + 1
      → get_elem? (set m.items m.tail x) ((m.head + i) % m.capacity) ≡ get_elem? (xs ++ x ∷ []) i
  back_at t i l = elim (dec_lt i m.size) [
    | yes p ↦
        get_elem?-set_ne m.items m.tail ((m.head + i) % m.capacity) x (
          omega (
            arith,
            t,
            p,
            r.tail_at,
            mod_turn (m.head + m.size) m.capacity,
            mod_turn (m.head + i) m.capacity,
          ))
        ∙ r.at i p
        ∙ sym (get_elem?-append_left xs (x ∷ []) i (omega (arith, r.len)))
    | no p ↦
        ap (get_elem? (set m.items m.tail x)) (
          omega (
            arith,
            r.tail_at,
            t,
            mod_turn (m.head + m.size) m.capacity,
            mod_turn (m.head + i) m.capacity,
          ))
        ∙ get_elem?-set_self m.items m.tail x (omega (arith, t, r.storage))
        ∙ sym (get_elem?-append_last xs x i (omega (arith, r.len)))
  ]

  pub back-Repr :
      m.tail < m.capacity
      → Repr
          (record m {
            items = set m.items m.tail x;
            tail = (m.tail + 1) % m.capacity;
            size = m.size + 1;
          })
          (xs ++ x ∷ [])
  back-Repr t = record {
    cap_pos = r.cap_pos;
    storage = length-set m.items _ x ∙ r.storage;
    head_in = r.head_in;
    len = omega (arith, r.len, length-append xs (x ∷ []));
    fits = omega (arith, room);
    tail_at = inl (
        omega (
          arith,
          t,
          r.tail_at,
          mod_turn (m.head + m.size) m.capacity,
          mod_turn (m.tail + 1) m.capacity,
          mod_turn (m.head + (m.size + 1)) m.capacity,
        ));
    at = back_at t;
  }
