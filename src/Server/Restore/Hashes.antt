-- ===== src/Server/Restore/Hashes.antt =====
-- The hashes of a snapshot, loaded at the start of the server.
use valkeydb.Base.{
  ◌≡◌, refl, Option, none, some, [], ◌∷◌, arith, Str, eq_str, eq_str_iff, if◌then◌else◌,
}
use valkeydb.Base.Map.{Map, IsMap, get}
use valkeydb.HashStore.{HashMap, hset, hget, is_even}
use valkeydb.HashStore.Fields.{assigned, hset_lem}
use valkeydb.Server.Persist.{load_fields, load_hashes}

abbrev pub or_else : Option Str → Option Str → Option Str
or_else none old = old
or_else (some v) old = some v

load_fields-get :
    (key : Str) (hash : Map Str) (h : HashMap) (j field : Str)
    → IsMap hash
    → hget j field (load_fields key hash h)
      ≡ (if eq_str key j then or_else (get field hash) (hget j field h) else hget j field h)
unfolding load_fields get is_even assigned
load_fields-get key [] h j field m = ground arith
load_fields-get key ((f, v) ∷ hash) h j field m = ground (
  arith,
  m.0,
  eq_str_iff f field,
  load_fields-get key hash (hset key (f ∷ v ∷ []) h).1 j field m.1,
  (hset_lem key (f ∷ v ∷ []) h j field refl).0,
)

abbrev pub AreMaps : HashMap → Type 0
AreMaps [] = Unit
AreMaps ((key, hash) ∷ m) = IsMap hash × AreMaps m

hget-cons :
    (key : Str) (hash : Map Str) (m : HashMap) (j field : Str)
    → hget j field ((key, hash) ∷ m) ≡ (if eq_str key j then get field hash else hget j field m)
unfolding hget get
hget-cons key hash m j field = ground arith

hget-absent : (m : HashMap) (j field : Str) → get j m ≡ none → hget j field m ≡ none
unfolding hget
hget-absent m j field e = ground (arith, e)

-- Loading hashes that have each key and each field once gives each field its value again; the
-- other fields keep what they had.
pub load_hashes_lem :
    (m h : HashMap) (j field : Str)
    → IsMap m
    → AreMaps m
    → hget j field (load_hashes m h) ≡ or_else (hget j field m) (hget j field h)
unfolding load_hashes hget get
load_hashes_lem [] h j field once maps = refl
load_hashes_lem ((key, hash) ∷ m) h j field once maps = ground (
  arith,
  once.0,
  eq_str_iff key j,
  hget-cons key hash m j field,
  hget-absent m j field,
  load_fields-get key hash h j field maps.0,
  load_hashes_lem m (load_fields key hash h) j field once.1 maps.1,
)
