-- ===== src/HashStore/Invariant.antt =====
-- No empty hash stays in the store, and no key or field stands twice.
use valkeydb.Base.{
  ℕ, ◌+◌, ◌<◌, ◌≤◌, ◌≡◌, some, List, [], ◌∷◌, arith, Str, length, eq_str, ◌==◌, if◌then◌else◌,
  Option-cases, inl, inr, Bool-cases,
}
use valkeydb.Base.Map.{
  Map, IsMap, get, put, delete, has, put-IsMap, delete-IsMap, get-put, get-delete, length-put,
}
use valkeydb.HashStore.{HashMap, fields_of, is_even, put_pairs, hset, delete_fields, hdel}
use valkeydb.HashStore.Fields.{delete_fields-count}

pub record IsValid (h : HashMap) : Type 0 where
  pub keys_once : IsMap h
  pub hashes : (key : Str) (hash : Map Str) → get key h ≡ some hash → (0 < length hash) × IsMap hash

fields_of-IsMap : (h : HashMap) (key : Str) → IsValid h → IsMap (fields_of (get key h))
unfolding fields_of
fields_of-IsMap h key v = elim (Option-cases (get key h)) [
  | inl e ↦ rw (e, fields_of) tt
  | inr (hash, e) ↦ rw (e, fields_of) (v.hashes key hash e).1
]

IsValid-put :
    (key : Str) (hash : Map Str) (h : HashMap)
    → IsValid h
    → 0 < length hash
    → IsMap hash
    → IsValid (put key hash h)
IsValid-put key hash h v some_in m = record {
  keys_once = put-IsMap key hash h v.keys_once;
  hashes = λ k found e. elim (Bool-cases (eq_str key k)) [
    | inl here ↦
        let same : hash ≡ found = ground (arith, here, e, get-put key k hash h) in
        rw (← same) (some_in, m)
    | inr other ↦ v.hashes k found (ground (arith, other, e, get-put key k hash h))
  ];
}

IsValid-delete : (key : Str) (h : HashMap) → IsValid h → IsValid (delete key h)
IsValid-delete key h v = record {
  keys_once = delete-IsMap key h v.keys_once;
  hashes = λ k found e. v.hashes k found (ground (arith, e, get-delete key k h));
}

put_pairs-IsMap :
    (pairs : List Str) (added : ℕ) (hash : Map Str)
    → IsMap hash
    → IsMap (put_pairs added pairs hash).1
unfolding put_pairs
put_pairs-IsMap [] added hash m = m
put_pairs-IsMap (f ∷ []) added hash m = m
put_pairs-IsMap (f ∷ value ∷ rest) added hash m =
    put_pairs-IsMap rest _ (put f value hash) (put-IsMap f value hash m)

-- The hash never shrinks.
put_pairs-le :
    (pairs : List Str) (added : ℕ) (hash : Map Str)
    → length hash ≤ length (put_pairs added pairs hash).1
unfolding put_pairs
put_pairs-le [] added hash = omega arith
put_pairs-le (f ∷ []) added hash = omega arith
put_pairs-le (f ∷ value ∷ rest) added hash = ground (
  arith,
  put_pairs-le rest added (put f value hash),
  put_pairs-le rest (added + 1) (put f value hash),
  length-put f value hash,
)

length-put_pos : (f value : Str) (hash : Map Str) → 0 < length (put f value hash)
unfolding put
length-put_pos f value [] = omega arith
length-put_pos f value (x ∷ hash) = ground arith

put_pairs-pos :
    (f value : Str) (rest : List Str) (hash : Map Str)
    → 0 < length (put_pairs 0 (f ∷ value ∷ rest) hash).1
unfolding put_pairs
put_pairs-pos f value rest hash = omega (
  arith,
  length-put_pos f value hash,
  put_pairs-le rest (if has f hash then 0 else 0 + 1) (put f value hash),
)

-- `Hset` of a field, a value and whatever follows them, on a valid store (each key and each field
-- once, no hash empty), leaves a valid one.
pub hset-IsValid :
    (key field value : Str) (rest : List Str) (h : HashMap)
    → IsValid h
    → IsValid (hset key (field ∷ value ∷ rest) h).1
unfolding hset is_even
hset-IsValid key field value rest h v = elim (Bool-cases (is_even rest)) [
  | inl e ↦ rw e (
      IsValid-put key _ h v (put_pairs-pos field value rest _)
        (put_pairs-IsMap (field ∷ value ∷ rest) 0 _ (fields_of-IsMap h key v)))
  | inr e ↦ rw e v
]

-- `Hdel` on a valid store (each key and each field once, no hash empty) leaves a valid one.
pub hdel-IsValid :
    (key : Str) (fields : List Str) (h : HashMap) → IsValid h → IsValid (hdel key fields h).1
unfolding hdel
hdel-IsValid key fields h v = elim (Option-cases (get key h)) [
  | inl e ↦ rw (e, hdel) v
  | inr (hash, e) ↦
      let m : IsMap hash = (v.hashes key hash e).1 in
      let left = (delete_fields 0 fields hash).1 in
      elim (Bool-cases (length left == 0)) [
        | inl z ↦ rw (e, hdel, z) (IsValid-delete key h v)
        | inr z ↦
            rw (e, hdel, z)
              (IsValid-put key left h v (ground (arith, z)) (delete_fields-count fields 0 hash m).1)
      ]
]
