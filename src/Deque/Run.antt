-- ===== src/Deque/Run.antt =====
-- A deque against the list that it stands for, over any sequence of calls.
use valkeydb.Base.{
  ◌≡◌, refl, Option-cases, inl, inr, Option, none, some, List, [], ◌∷◌, ◌++◌, arith, ◌>>=◌,
}
use mathlib.Core.Path.{subst}
use valkeydb.Deque.{Deque, push_front, push_back, pop_front, pop_back}
use valkeydb.Deque.Repr.{Repr, TailIn}
use valkeydb.Deque.Push.{push_front-Repr, push_back-Repr}
use valkeydb.Deque.Pop.{pop_front-Repr, pop_front-empty, pop_back-Repr, pop_back-empty}

pub data Op {ℓ} (A : Type ℓ) : Type ℓ where
  to_front : A → Op A
  to_back : A → Op A
  from_front : Op A
  from_back : Op A

module _ {ℓ} {A : Type ℓ} where
  -- The list without its last element, and that element.
  unfoldable pub split_last : List A → Option (List A × A)
  split_last [] = none
  split_last (x ∷ xs) = elim (split_last xs) [
    | none ↦ some ([], x)
    | some (ys, y) ↦ some (x ∷ ys, y)
  ]

  pub split_last-none : (xs : List A) → split_last xs ≡ none → xs ≡ []
  unfolding split_last
  split_last-none [] h = refl
  split_last-none (x ∷ xs) h = ground arith

  pub split_last-some : (xs ys : List A) (y : A) → split_last xs ≡ some (ys, y) → xs ≡ ys ++ y ∷ []
  unfolding split_last
  split_last-some [] ys y h = ground arith
  split_last-some (x ∷ xs) ys y h = elim (Option-cases (split_last xs)) [
    | inl e ↦ only (rw e at h) (split_last-none xs e)
    | inr ((zs, z), e) ↦ more zs z (rw e at h) (split_last-some xs zs z e)
  ]
    where
      only :
          ◌≡◌ {A = Option (List A × A)} (some ([], x)) (some (ys, y))
          → xs ≡ []
          → x ∷ xs ≡ ys ++ y ∷ []
      only e n = let p : [] ≡ ys = cc in let q : x ≡ y = cc in rw (← p, ← q, n)

      more :
          (zs : List A) (z : A)
          → ◌≡◌ {A = Option (List A × A)} (some (x ∷ zs, z)) (some (ys, y))
          → xs ≡ zs ++ z ∷ []
          → x ∷ xs ≡ ys ++ y ∷ []
      more zs z e n = let p : x ∷ zs ≡ ys = cc in let q : z ≡ y = cc in rw (← p, ← q, n)

  -- What a list answers to the calls.
  unfoldable pub answers : List A → List (Op A) → List (Option A)
  unfolding split_last
  answers xs [] = []
  answers xs (to_front x ∷ ops) = answers (x ∷ xs) ops
  answers xs (to_back x ∷ ops) = answers (xs ++ x ∷ []) ops
  answers xs (from_front ∷ ops) = elim xs [
    | [] ↦ none ∷ answers [] ops
    | x ∷ rest ↦ some x ∷ answers rest ops
  ]
  answers xs (from_back ∷ ops) = elim (split_last xs) [
    | none ↦ none ∷ answers xs ops
    | some (ys, y) ↦ some y ∷ answers ys ops
  ]

  -- What a deque answers; `none` if one of the calls panics.
  unfoldable pub run : A → Deque A → List (Op A) → Option (List (Option A))
  run z d [] = some []
  run z d (to_front x ∷ ops) = push_front z x d >>= λ d'. run z d' ops
  run z d (to_back x ∷ ops) = push_back z x d >>= λ d'. run z d' ops
  run z d (from_front ∷ ops) = do
    popped ← pop_front z d
    rest ← run z popped.1 ops
    some (popped.0 ∷ rest)
  run z d (from_back ∷ ops) = do
    popped ← pop_back z d
    rest ← run z popped.1 ops
    some (popped.0 ∷ rest)

  -- A ring that stands for a list, with its tail inside the array, answers any sequence of pushes
  -- and pops at its two ends as the list does, and none of them panics.
  pub run_refines :
      (z : A) (ops : List (Op A)) (xs : List A) (d : Deque A)
      → Repr d xs
      → TailIn d
      → run z d ops ≡ some (answers xs ops)
  unfolding run answers
  run_refines z [] xs d r t = refl
  run_refines z (to_front x ∷ ops) xs d r t =
      let (d', e, r', t') = push_front-Repr z x r in
      rw e (run_refines z ops (x ∷ xs) d' r' (t' (inl t)))
  run_refines z (to_back x ∷ ops) xs d r t =
      let (d', e, r', t') = push_back-Repr z x r (inl t) in
      rw e (run_refines z ops (xs ++ x ∷ []) d' r' t')
  run_refines z (from_front ∷ ops) [] d r t =
      rw (pop_front-empty z r) (ground (arith, run_refines z ops [] d r t))
  run_refines z (from_front ∷ ops) (x ∷ xs) d r t =
      let (d', e, r', t', c') = pop_front-Repr z r in
      rw e (ground (arith, run_refines z ops xs d' r' (record { tail_in = rw (t', c') t.tail_in })))
  run_refines z (from_back ∷ ops) xs d r t = elim (Option-cases (split_last xs)) [
    | inl e ↦
        let r' : Repr d [] = subst (Repr d) (split_last-none xs e) r in
        rw (pop_back-empty z r') (ground (arith, e, run_refines z ops xs d r t))
    | inr ((ys, y), e) ↦
        let (d', e', r', t', c') = pop_back-Repr z (subst (Repr d) (split_last-some xs ys y e) r) in
        rw e' (ground (arith, e, run_refines z ops ys d' r' t'))
  ]
