-- ===== src/Aof.antt =====
-- internal/persistence/aof.go: the append-only file, as the bytes it holds. Writes and `Sync` are
-- taken to succeed, as the callers drop the error; Aof.Io has the errors.
pub mod Load
pub mod Rewrite
pub mod Torn
pub mod Items
pub mod Prefix
pub mod Io
pub mod Acked
pub mod Lost
mod Tests
use valkeydb.Base.{
  ℕ, zero, suc, ◌+◌, Bool, true, false, not, ◌&&◌, ◌||◌, Option, none, some, List, [], ◌∷◌, ◌++◌,
  Str, codes, length, if◌then◌else◌,
}
use valkeydb.Base.Map.{Map, keys}
use valkeydb.Decimal.{format_int}
use valkeydb.Clock.{Time, is_zero, to_unix_milli}
use valkeydb.Item.{Item}
use valkeydb.Resp.{
  RespType, simple_string, bulk_string, array, Value, Values, nil, cons, bulk, array_value, type_of,
  text_of, items_of, to_list, encode, Decoded, ok, failed, panicked, out_of_fuel, bind, decode,
}

-- `file` is what stands at the path. The open handle is on that file, or, after a rewrite has put
-- another one in its place, on `unlinked`.
pub record Aof : Type 0 where
  pub file : Str
  pub unlinked : Option Str
  pub enabled : Bool
  pub replaying : Bool

unfoldable pub open_aof : Str → Bool → Aof
open_aof file enabled =
    if enabled
    then record { file = file; unlinked = none; enabled = true; replaying = false }
    else record { file = []; unlinked = none; enabled = false; replaying = false }

unfoldable pub append : Value → Aof → Aof
append v a = if not a.enabled || a.replaying then a else elim a.unlinked [
  | none ↦ record a { file = a.file ++ encode v }
  | some old ↦ record a { unlinked = some (old ++ encode v) }
]

unfoldable pub is_array : RespType → Bool
is_array array = true
is_array _ = false

unfoldable pub is_text : RespType → Bool
is_text bulk_string = true
is_text simple_string = true
is_text _ = false

-- `dispatch` gives `none` where the command panics.
module _ {ℓ} {S : Type ℓ} (dispatch : Str → List Value → S → Option S) where
  -- One value of the file: a command is dispatched, anything else is passed over.
  unfoldable pub load_value : Value → S → Option S
  load_value v s = elim (to_list (items_of v)) [
    | [] ↦ some s
    | cmd ∷ args ↦
        if is_array (type_of v) && is_text (type_of cmd)
        then dispatch (text_of cmd) args s
        else some s
  ]

  -- The loop ends at the first error, which is also the end of the file.
  unfoldable pub load_loop : ℕ → Str → S → Decoded S
  load_loop zero file s = out_of_fuel
  load_loop (suc fuel) file s = elim (decode file) [
    | ok (v, rest) ↦ elim (load_value v s) [ none ↦ panicked | some s' ↦ load_loop fuel rest s' ]
    | failed ↦ ok s
    | panicked ↦ panicked
    | out_of_fuel ↦ out_of_fuel
  ]

  -- Each value takes a byte at least.
  unfoldable pub load : Aof → S → Decoded S
  load a s = if a.enabled then load_loop (length a.file + 1) a.file s else ok s

-- `{Type: Array, Items: …}` of bulk strings.
unfoldable pub bulks : List Str → Values
bulks [] = nil
bulks (t ∷ texts) = cons (bulk t) (bulks texts)

abbrev pub entry : List Str → Value
entry texts = array_value (bulks texts)

abbrev pub pexpireat : Str → Time → Value
pexpireat key at = entry (codes "PEXPIREAT" ∷ key ∷ format_int (to_unix_milli at) ∷ [])

-- The entry for the expiry of an item, if it has one.
unfoldable pub expiry_entry : Str → Item → List Value
expiry_entry key item = if is_zero item.expired_at then [] else pexpireat key item.expired_at ∷ []

unfoldable pub dict_entries : Map Item → List Value
dict_entries [] = []
dict_entries ((key, item) ∷ rest) =
    entry (codes "SET" ∷ key ∷ item.value ∷ []) ∷ (expiry_entry key item ++ dict_entries rest)

unfoldable pub set_entries : Map Item → List Value
set_entries [] = []
set_entries ((key, item) ∷ rest) = elim item.members [
  | [] ↦ set_entries rest
  | m ∷ members ↦
      entry (codes "SADD" ∷ key ∷ keys (m ∷ members)) ∷ (expiry_entry key item ++ set_entries rest)
]

unfoldable pub values_of : List Item → List Str
values_of [] = []
values_of (item ∷ items) = item.value ∷ values_of items

unfoldable pub list_entries : Map (List Item) → List Value
list_entries [] = []
list_entries ((key, items) ∷ rest) = elim items [
  | [] ↦ list_entries rest
  | i ∷ is ↦ entry (codes "RPUSH" ∷ key ∷ values_of (i ∷ is)) ∷ list_entries rest
]

unfoldable pub field_entries : Str → Map Str → List Value
field_entries key [] = []
field_entries key ((field, value) ∷ rest) =
    entry (codes "HSET" ∷ key ∷ field ∷ value ∷ []) ∷ field_entries key rest

unfoldable pub hash_entries : Map (Map Str) → List Value
hash_entries [] = []
hash_entries ((key, hash) ∷ rest) = field_entries key hash ++ hash_entries rest

unfoldable pub encode_entries : List Value → Str
encode_entries [] = []
encode_entries (v ∷ vs) = encode v ++ encode_entries vs

-- The entries that `RewriteWithLists` writes to the new file.
unfoldable pub rewrite_entries : Map Item → Map Item → Map (List Item) → Map (Map Str) → List Value
rewrite_entries dict_dump set_dump list_dump hash_dump =
    dict_entries dict_dump
    ++ (set_entries set_dump ++ (list_entries list_dump ++ hash_entries hash_dump))

-- `os.Rename` puts the new file at the path. The handle stays on the old one.
unfoldable pub rewrite : Map Item → Map Item → Map (List Item) → Map (Map Str) → Aof → Aof
rewrite dict_dump set_dump list_dump hash_dump a = if not a.enabled then a else record a {
  file = encode_entries (rewrite_entries dict_dump set_dump list_dump hash_dump);
  unlinked = some (elim a.unlinked [ none ↦ a.file | some old ↦ old ]);
}

-- `Rewrite`: one dump of items, which are sets where they have members, and strings where they have
-- a text.
unfoldable pub item_entry : Str → Item → List Value
item_entry key item = elim item.members [
  | [] ↦ elim item.value [ [] ↦ [] | c ∷ text ↦ entry (codes "SET" ∷ key ∷ item.value ∷ []) ∷ [] ]
  | m ∷ members ↦ entry (codes "SADD" ∷ key ∷ keys (m ∷ members)) ∷ []
]

unfoldable pub item_entries : Map Item → List Value
item_entries [] = []
item_entries ((key, item) ∷ rest) =
    item_entry key item ++ (expiry_entry key item ++ item_entries rest)

unfoldable pub rewrite_items : Map Item → Aof → Aof
rewrite_items dump a = if not a.enabled then a else record a {
  file = encode_entries (item_entries dump);
  unlinked = some (elim a.unlinked [ none ↦ a.file | some old ↦ old ]);
}
