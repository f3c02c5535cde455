-- ===== src/ListStore/Run.antt =====
-- The store of deques against a list for each key, over any sequence of calls.
use mathlib.Core.List.{reverse}
use valkeydb.Base.{
  ℕ, ◌-◌, ◌*◌, ◌≤◌, ◌≡◌, refl, sym, Bool, not, Option, some, List, [], ◌∷◌, ◌++◌, map, Str, length,
  take, drop, ◌==◌, ◌>>=◌, Option-cases, inl, inr, max_alloc,
}
use valkeydb.Base.Int.{ℤ, pos}
use valkeydb.Base.Map.{get}
use valkeydb.Item.{Item, value_item}
use valkeydb.ListStore.{Lists, item_bytes, lpush, rpush, lpop, rpop, llen, lrange}
use valkeydb.ListStore.Refine.{Stands, update, lpush_lem, rpush_lem}
use valkeydb.ListStore.Pops.{present-Repr, absent-nil, lpop_lem, rpop_lem}
use valkeydb.ListStore.Ranges.{place, place_behind, lrange_lem}

pub data Call : Type 0 where
  to_left : Str → List Str → Call
  to_right : Str → List Str → Call
  from_left : Str → ℕ → Call
  from_right : Str → ℕ → Call
  len : Str → Call
  range : Str → ℤ → ℤ → Call

pub data Answer : Type 0 where
  size : ℕ → Answer
  items : List Item → Answer
  found : List Item → Bool → Answer

-- The items of a pop can be allocated.
unfoldable pub Fits : Call → Type 0
Fits (to_left key values) = Unit
Fits (to_right key values) = Unit
Fits (from_left key n) = n * item_bytes ≤ max_alloc
Fits (from_right key n) = n * item_bytes ≤ max_alloc
Fits (len key) = Unit
Fits (range key start stop) = Unit

-- What a list for each key answers to a call, and the lists after it.
unfoldable pub ask : Call → (Str → List Item) → Answer × (Str → List Item)
ask (to_left key values) f =
    let xs = reverse (map value_item values) ++ f key in (size (length xs), update f key xs)
ask (to_right key values) f =
    let xs = f key ++ map value_item values in (size (length xs), update f key xs)
ask (from_left key n) f = (items (take n (f key)), update f key (drop n (f key)))
ask (from_right key n) f =
    let xs = reverse (f key) in (items (take n xs), update f key (reverse (drop n xs)))
ask (len key) f = (size (length (f key)), f)
ask (range key start stop) f =
    let n = length (f key) in
    (
      found (take (place_behind stop n - place start n) (drop (place start n) (f key)))
          (not (n == 0)),
      f,
    )

-- What the store answers, and the store after the call; `none` is a panic.
unfoldable pub call : Call → Lists → Option (Answer × Lists)
call (to_left key values) l = lpush key values l >>= λ (n, l'). some (size n, l')
call (to_right key values) l = rpush key values l >>= λ (n, l'). some (size n, l')
call (from_left key n) l = lpop key (pos n) l >>= λ (xs, l'). some (items xs, l')
call (from_right key n) l = rpop key (pos n) l >>= λ (xs, l'). some (items xs, l')
call (len key) l = some (size (llen key l), l)
call (range key start stop) l = lrange key start stop l >>= λ (xs, b). some (found xs b, l)

llen_lem : (key : Str) (l : Lists) (f : Str → List Item) → Stands l f → llen key l ≡ length (f key)
unfolding llen
llen_lem key l f s = elim (Option-cases (get key l)) [
  | inl e ↦ rw (e, llen, absent-nil (get key l) (f key) (s.holds key) e) refl
  | inr (d, e) ↦
      let r = (present-Repr (get key l) (f key) d (s.holds key) (s.steady key) e).0 in
      rw (e, llen) (sym r.len)
]

-- One call.
call-ask :
    (c : Call) (l : Lists) (f : Str → List Item)
    → Stands l f
    → Fits c
    → (l' : Lists) × (call c l ≡ some ((ask c f).0, l')) × Stands l' (ask c f).1
unfolding call ask Fits
call-ask (to_left key values) l f s h =
    let (l', e, s') = lpush_lem key values l f s in (l', rw e refl, s')
call-ask (to_right key values) l f s h =
    let (l', e, s') = rpush_lem key values l f s in (l', rw e refl, s')
call-ask (from_left key n) l f s h = let (l', e, s') = lpop_lem key n l f s h in (l', rw e refl, s')
call-ask (from_right key n) l f s h =
    let (l', e, s') = rpop_lem key n l f s h in (l', rw e refl, s')
call-ask (len key) l f s h = (l, rw (llen_lem key l f s) refl, s)
call-ask (range key start stop) l f s h = (l, rw (lrange_lem key start stop l f s) refl, s)

unfoldable pub AllFit : List Call → Type 0
AllFit [] = Unit
AllFit (c ∷ calls) = Fits c × AllFit calls

unfoldable pub answers : (Str → List Item) → List Call → List Answer
answers f [] = []
answers f (c ∷ calls) = (ask c f).0 ∷ answers (ask c f).1 calls

unfoldable pub run : Lists → List Call → Option (List Answer)
run l [] = some []
run l (c ∷ calls) = do called ← call c l; rest ← run called.1 calls; some (called.0 ∷ rest)

-- A store that stands for a list under each key, and in which no deque has its tail outside the
-- array (a sort of a full one leaves it there), answers any sequence of `Lpush`, `Rpush`, `Lpop`,
-- `Rpop` (of counts that can be allocated), `Llen` and `Lrange` on any keys as these lists do, and
-- no call panics.
pub run-answers :
    (calls : List Call) (l : Lists) (f : Str → List Item)
    → Stands l f
    → AllFit calls
    → run l calls ≡ some (answers f calls)
unfolding run answers AllFit
run-answers [] l f s h = refl
run-answers (c ∷ calls) l f s (h, hs) =
    let (l', e, s') = call-ask c l f s h in rw (e, run-answers calls l' (ask c f).1 s' hs) refl
