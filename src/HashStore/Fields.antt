-- ===== src/HashStore/Fields.antt =====
-- What the commands on fields read and write.
use valkeydb.Base.{
  ℕ, ◌+◌, ◌≡◌, refl, ◌∙◌, ap, true, Option, none, some, List, [], ◌∷◌, arith, Str, eq_str,
  eq_str_iff, ◌&&◌, length, if◌then◌else◌, Option-cases, inl, inr,
}
use valkeydb.Base.Map.{
  contains, Map, IsMap, get, put, delete, has, get-put, get-delete, delete-IsMap, length-put,
  length-delete,
}
use valkeydb.HashStore.{
  HashMap, fields_of, is_even, put_pairs, hset, hget, delete_fields, hdel, hlen,
}

-- The value that a list of fields and values gives a field: the last one, if it is named.
unfoldable pub assigned : List Str → Str → Option Str → Option Str
assigned [] field old = old
assigned (f ∷ []) field old = old
assigned (f ∷ value ∷ rest) field old =
    assigned rest field (if eq_str f field then some value else old)

put_pairs-get :
    (pairs : List Str) (added : ℕ) (hash : Map Str) (field : Str)
    → get field (put_pairs added pairs hash).1 ≡ assigned pairs field (get field hash)
unfolding put_pairs assigned
put_pairs-get [] added hash field = refl
put_pairs-get (f ∷ []) added hash field = refl
put_pairs-get (f ∷ value ∷ rest) added hash field =
    put_pairs-get rest (if has f hash then added else added + 1) (put f value hash) field
    ∙ ap (assigned rest field) (get-put f field value hash)

put_pairs-count :
    (pairs : List Str) (added : ℕ) (hash : Map Str)
    → added + length (put_pairs added pairs hash).1 ≡ (put_pairs added pairs hash).0 + length hash
unfolding put_pairs
put_pairs-count [] added hash = refl
put_pairs-count (f ∷ []) added hash = refl
put_pairs-count (f ∷ value ∷ rest) added hash = ground (
  arith,
  length-put f value hash,
  put_pairs-count rest added (put f value hash),
  put_pairs-count rest (added + 1) (put f value hash),
)

pub hget-eq : (key field : Str) (h : HashMap) → hget key field h ≡ get field (fields_of (get key h))
unfolding hget fields_of get
hget-eq key field h = ground arith

pub hlen-eq : (key : Str) (h : HashMap) → hlen key h ≡ length (fields_of (get key h))
unfolding hlen fields_of
hlen-eq key h = ground arith

hget-absent : (key field : Str) (h : HashMap) → get key h ≡ none → hget key field h ≡ none
unfolding hget
hget-absent key field h e = ground (arith, e)

get-of_empty : (field : Str) (hash : Map Str) → length hash ≡ 0 → get field hash ≡ none
unfolding get
get-of_empty field [] e = refl
get-of_empty field (x ∷ hash) e = absurd (omega arith)

-- `Hset` with fields and values in pairs gives each named field its last value and keeps the others,
-- leaves the other keys alone, and returns by how many fields the hash has grown.
pub hset_lem :
    (key : Str) (pairs : List Str) (h : HashMap) (j field : Str)
    → is_even pairs ≡ true
    → (hget j field (hset key pairs h).1
        ≡ (if eq_str key j then assigned pairs field (hget j field h) else hget j field h))
      × ((hset key pairs h).0 + hlen key h ≡ hlen key (hset key pairs h).1)
unfolding hset fields_of
hset_lem key pairs h j field even =
    let hash = fields_of (get key h) in
    let result = (put_pairs 0 pairs hash).1 in
    ground (
      arith,
      hget-eq j field h,
      hget-eq j field (put key result h),
      hlen-eq key h,
      hlen-eq key (put key result h),
      get-put key j result h,
      get-put key key result h,
      eq_str_iff key j,
      eq_str_iff key key,
      put_pairs-get pairs 0 hash field,
      put_pairs-count pairs 0 hash,
    )

delete_fields-get :
    (names : List Str) (count : ℕ) (hash : Map Str) (field : Str)
    → get field (delete_fields count names hash).1
      ≡ (if contains names field then none else get field hash)
unfolding delete_fields contains
delete_fields-get [] count hash field = refl
delete_fields-get (f ∷ names) count hash field = ground (
  arith,
  delete_fields-get names count hash field,
  delete_fields-get names (count + 1) (delete f hash) field,
  get-delete f field hash,
  eq_str_iff f field,
)

pub delete_fields-count :
    (names : List Str) (count : ℕ) (hash : Map Str)
    → IsMap hash
    → ((delete_fields count names hash).0 + length (delete_fields count names hash).1
        ≡ count + length hash)
      × IsMap (delete_fields count names hash).1
unfolding delete_fields
delete_fields-count [] count hash m = ground arith
delete_fields-count (f ∷ names) count hash m = ground (
  arith,
  delete_fields-count names count hash m,
  delete_fields-count names (count + 1) (delete f hash) (delete-IsMap f hash m),
  length-delete f hash m,
)

-- `Hdel` on a hash with each field once takes exactly the named fields out of it, leaves the
-- other keys alone, and returns how many fields that were.
pub hdel_lem :
    (key : Str) (names : List Str) (h : HashMap) (j field : Str)
    → IsMap (fields_of (get key h))
    → (hget j field (hdel key names h).1
        ≡ (if eq_str key j && contains names field then none else hget j field h))
      × ((hdel key names h).0 + hlen key (hdel key names h).1 ≡ hlen key h)
unfolding hdel fields_of
hdel_lem key names h j field m = elim (Option-cases (get key h)) [
  | inl e ↦ ground (arith, e, hget-absent j field h, eq_str_iff key j)
  | inr (hash, e) ↦
      let result = (delete_fields 0 names hash).1 in
      ground (
        arith,
        e,
        hget-eq j field h,
        hget-eq j field (put key result h),
        hlen-eq key h,
        hlen-eq key (put key result h),
        hget-eq j field (delete key h),
        hlen-eq key (delete key h),
        get-put key j result h,
        get-put key key result h,
        get-delete key j h,
        get-delete key key h,
        eq_str_iff key j,
        eq_str_iff key key,
        delete_fields-get names 0 hash field,
        delete_fields-count names 0 hash,
        get-of_empty field result,
        hget-absent j field (delete key h),
      )
]
