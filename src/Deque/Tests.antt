-- ===== src/Deque/Tests.antt =====
-- Runs of the deque, and the theorems at concrete rings.
use mathlib.Core.Logic.{inl}
use valkeydb.Base.{
  ℕ, zero, suc, ◌+◌, ◌%◌, ◌<◌, get_elem?, ◌≡◌, refl, none, some, List, [], ◌∷◌, arith, ◌>>=◌,
}
use valkeydb.Deque.{
  Deque, new_deque, push_front, push_back, pop_front, pop_back, sort, make_room, resize, read_from,
  write_from, write?,
}
use valkeydb.Deque.Repr.{Repr}
use valkeydb.Deque.Push.{new_deque-Repr}
use valkeydb.Deque.Sort.{sort_full-panics}
use valkeydb.Deque.Run.{Op, to_front, to_back, from_front, from_back, run, answers, run_refines}

abbrev script : List (Op ℕ)
script =
    to_back 1
    ∷ to_back 2
    ∷ to_front 3
    ∷ to_back 4
    ∷ to_back 5
    ∷ from_front
    ∷ from_back
    ∷ from_front
    ∷ to_front 6
    ∷ from_back
    ∷ []

run-script : run 0 (new_deque 0) script ≡ some (some 3 ∷ some 5 ∷ some 1 ∷ some 4 ∷ [])
unfolding run new_deque push_front push_back pop_front pop_back make_room resize read_from
    write_from write?
run-script = refl

run_refines_example : run 0 (new_deque 0) script ≡ some (answers [] script)
run_refines_example =
    run_refines 0 script [] (new_deque 0) (new_deque-Repr 0).0 (new_deque-Repr 0).1

-- Three elements in a ring that starts at place 3.
abbrev wrapped : Deque ℕ
wrapped = record { items = 8 ∷ 9 ∷ 0 ∷ 7 ∷ []; head = 3; tail = 2; size = 3; capacity = 4 }

-- A full ring that starts at place 1.
abbrev full : Deque ℕ
full = record { items = 4 ∷ 1 ∷ 2 ∷ 3 ∷ []; head = 1; tail = 1; size = 4; capacity = 4 }

full_at :
    (i : ℕ)
    → i < 4
    → get_elem? {A = ℕ} (4 ∷ 1 ∷ 2 ∷ 3 ∷ []) ((1 + i) % 4)
      ≡ get_elem? {A = ℕ} (1 ∷ 2 ∷ 3 ∷ 4 ∷ []) i
full_at zero h = refl
full_at (suc zero) h = refl
full_at (suc (suc zero)) h = refl
full_at (suc (suc (suc zero))) h = refl
full_at (suc (suc (suc (suc i)))) h = absurd (omega arith)

full-Repr : Repr full (1 ∷ 2 ∷ 3 ∷ 4 ∷ [])
full-Repr = record {
  cap_pos = omega arith;
  storage = refl;
  head_in = omega arith;
  len = refl;
  fits = omega arith;
  tail_at = inl refl;
  at = full_at;
}

sort_full-panics_example :
    (sort (λ xs. xs) full >>= λ d. pop_front 0 d >>= λ popped. push_back 0 5 popped.1) ≡ none
sort_full-panics_example = sort_full-panics (λ xs. xs) (λ xs. refl) 0 5 full-Repr refl
