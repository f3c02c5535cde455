-- ===== src/Server/Restore/Sequences.antt =====
-- The lists of a snapshot, loaded at the start of the server.
use valkeydb.Base.{
  ◌≡◌, refl, ap, sym, false, none, some, List, [], ◌∷◌, ◌++◌, map, arith, Str, eq_str, eq_str_iff,
  length, ◌==◌, Bool-cases, append-nil, inl, inr,
}
use valkeydb.Base.Map.{Map, IsMap, get}
use valkeydb.Item.{Item, value_item}
use valkeydb.Aof.{values_of}
use valkeydb.ListStore.{Lists, dump}
use valkeydb.ListStore.Refine.{Denotes, Stands, update, rpush_lem}
use valkeydb.Server.Persist.{load_lists}
use valkeydb.ListStore.Dump.{items_at, dump-Denotes}

pub Stands-ext :
    (l : Lists) (f g : Str → List Item) → ((k : Str) → f k ≡ g k) → Stands l f → Stands l g
Stands-ext l f g same s = record { holds = λ k. rw (← same k) (s.holds k); steady = s.steady }

-- A list of the store with the values of a snapshot's behind it.
abbrev pub extended : (Str → List Item) → Map (List Item) → Str → List Item
extended f m k = f k ++ map value_item (values_of (items_at (get k m)))

extended-cons :
    (f : Str → List Item) (key : Str) (items : List Item) (m : Map (List Item)) (k : Str)
    → get key m ≡ none
    → extended (update f key (f key ++ map value_item (values_of items))) m k
      ≡ extended f ((key, items) ∷ m) k
unfolding get values_of
extended-cons f key items m k e = elim (Bool-cases (eq_str key k)) [
  | inl here ↦
      let same : key ≡ k = (eq_str_iff key k).0 here in
      let gone : get k m ≡ none = rw (← same) e in
      rw (here, gone, same) (append-nil (f k ++ map value_item (values_of items)))
  | inr other ↦ rw other refl
]

extended-empty :
    (f : Str → List Item) (key : Str) (m : Map (List Item)) (k : Str)
    → get key m ≡ none
    → extended f m k ≡ extended f ((key, []) ∷ m) k
unfolding get values_of
extended-empty f key m k e = elim (Bool-cases (eq_str key k)) [
  | inl here ↦
      let same : key ≡ k = (eq_str_iff key k).0 here in
      let gone : get k m ≡ none = rw (← same) e in rw (here, gone) refl
  | inr other ↦ rw other refl
]

-- Loading a snapshot never panics and puts the values of its lists behind the lists that are there.
pub load_lists_lem :
    (m : Map (List Item)) (l : Lists) (f : Str → List Item)
    → IsMap m
    → Stands l f
    → (l' : Lists) × (load_lists m l ≡ some l') × Stands l' (extended f m)
unfolding load_lists get values_of
load_lists_lem [] l f once s =
    (l, refl, Stands-ext l f (extended f []) (λ k. sym (append-nil (f k))) s)
load_lists_lem ((key, []) ∷ m) l f once s =
    let (l', e, s') = load_lists_lem m l f once.1 s in
    (l', e, Stands-ext l' _ _ (λ k. extended-empty f key m k once.0) s')
load_lists_lem ((key, i ∷ is) ∷ m) l f once s =
    let (next, e, s1) = rpush_lem key (values_of (i ∷ is)) l f s in
    let (l', e', s') = load_lists_lem m next _ once.1 s1 in
    let some_in : length (i ∷ is) == 0 ≡ false = ground arith in
    (l', rw (some_in, e) e', Stands-ext l' _ _ (λ k. extended-cons f key (i ∷ is) m k once.0) s')

-- Where the store has each key once and stands for a list under each: the lists, dumped and
-- loaded into an empty store, are there again, each item with its value; neither step panics.
pub load_lists-dump :
    (l : Lists) (f : Str → List Item)
    → IsMap l
    → Denotes l f
    → (m : Map (List Item)) × (l' : Lists) × (dump l ≡ some m)
      × (load_lists m [] ≡ some l')
      × Stands l' (λ k. map value_item (values_of (f k)))
unfolding get
load_lists-dump l f once s =
    let (m, e, h, items, _) = dump-Denotes l f once s in
    let (l', e', s') =
      load_lists_lem m [] (λ k. []) h (record { holds = λ k. refl; steady = λ k. tt }) in
    (m, l', e, e', Stands-ext l' _ _ (λ k. ap (λ xs. map value_item (values_of xs)) (items k)) s')
