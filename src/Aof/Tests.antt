-- ===== src/Aof/Tests.antt =====
-- The log at two commands, the last of which is cut off at its end.
use valkeydb.Base.{
  ◌≡◌, refl, ◌≢◌, Option, none, some, List, [], ◌∷◌, ◌++◌, arith, Str, codes, ◌≤◌, length, true,
  false, take,
}
use valkeydb.Base.Map.{Map}
use valkeydb.Item.{Item, zero_item, value_item}
use valkeydb.Resp.{
  Value, Values, failed, out_of_fuel, bind, bulk, array_value, decode, decode_with, read_array,
  read_line, read_string, count_items, nil, cons, encode,
}
use valkeydb.Resp.RoundTrip.{IsWire, bulk_wire, array_wire, none_wire, next_wire}
use valkeydb.Aof.{Aof, open_aof, load, encode_entries, rewrite, rewrite_entries, rewrite_items}
use valkeydb.Decimal.{format_ℕ, digits}
use valkeydb.Aof.Load.{AllWire, replay_all, load-total, append_all, load-append_all}
use valkeydb.Aof.Rewrite.{append_all-rewrite}
use valkeydb.Aof.Torn.{whole, load-cut}
use valkeydb.Aof.Io.{Outcome, synced, cut_at, not_synced}
use valkeydb.Aof.Lost.{all_synced, load-lost}
use valkeydb.Aof.Acked.{append_each, intact, behind, opened, load-append_each}
use valkeydb.Aof.Items.{rewrite_items-rewrite}

-- The commands that were dispatched, the last one first.
abbrev dispatch : Str → List Value → List Str → Option (List Str)
dispatch cmd args s = some (cmd ∷ s)

abbrev get_a : Value
get_a = array_value (cons (bulk (codes "GET")) (cons (bulk (codes "a")) nil))

abbrev ping : Value
ping = array_value (cons (bulk (codes "PING")) nil)

get_a-IsWire : IsWire get_a
unfolding count_items
get_a-IsWire = array_wire _ (omega arith) (
    next_wire _ _ (bulk_wire (codes "GET") (omega arith))
      (next_wire _ _ (bulk_wire (codes "a") (omega arith)) none_wire))

ping-IsWire : IsWire ping
unfolding count_items
ping-IsWire =
    array_wire _ (omega arith) (next_wire _ _ (bulk_wire (codes "PING") (omega arith)) none_wire)

abbrev two : List Value
two = get_a ∷ ping ∷ []

abbrev torn : Str
torn = codes "*1"

decode-torn : decode torn ≡ failed
unfolding decode decode_with read_array read_line read_string
decode-torn = refl

abbrev file : Aof
file = record {
  file = encode_entries two ++ torn;
  unlinked = none;
  enabled = true;
  replaying = false;
}

load-total_example : load dispatch file [] ≢ out_of_fuel
load-total_example = load-total dispatch file []

load-append_all_example :
    load dispatch (append_all (ping ∷ []) (open_aof (encode_entries (get_a ∷ [])) true)) []
    ≡ replay_all dispatch ((get_a ∷ []) ++ ping ∷ []) []
load-append_all_example =
    load-append_all dispatch (get_a ∷ []) (ping ∷ []) [] (get_a-IsWire, (ping-IsWire, tt))

append_all-rewrite_example :
    (append_all two (rewrite ((codes "k", value_item (codes "v")) ∷ []) [] [] [] file)).file
    ≡ encode_entries (rewrite_entries ((codes "k", value_item (codes "v")) ∷ []) [] [] [])
append_all-rewrite_example =
    append_all-rewrite ((codes "k", value_item (codes "v")) ∷ []) [] [] [] two file refl

abbrev strings : Map Item
strings = (codes "k", value_item (codes "v")) ∷ []

abbrev sets : Map Item
sets = (codes "s", record zero_item { members = (codes "m", tt) ∷ [] }) ∷ []

rewrite_items-rewrite_example :
    (rewrite_items strings file ≡ rewrite strings [] [] [] file)
    × (rewrite_items sets file ≡ rewrite [] sets [] [] file)
rewrite_items-rewrite_example =
    rewrite_items-rewrite strings sets file (refl, (λ e. cc), tt) ((λ e. cc), tt)

-- The file of two commands, at 21 of its 34 bytes: the first command takes 20.
abbrev cut_file : Aof
cut_file = record file { file = take 21 (encode_entries two) }

whole-two : whole 21 two ≡ get_a ∷ []
unfolding whole encode count_items format_ℕ digits
whole-two = refl

load-cut_example : load dispatch cut_file [] ≡ replay_all dispatch (whole 21 two) []
load-cut_example = load-cut dispatch two 21 cut_file [] refl refl (get_a-IsWire, (ping-IsWire, tt))

-- Three appends, of which the second stops behind one byte.
abbrev calls : List (Outcome × Value)
calls = (not_synced, get_a) ∷ (cut_at 1, ping) ∷ (synced, ping) ∷ []

calls-AllWire : AllWire ((ping ∷ []) ++ intact calls)
unfolding intact
calls-AllWire = (ping-IsWire, (get_a-IsWire, tt))

load-append_each_example :
    load dispatch (append_each calls (opened (ping ∷ []))).aof []
    ≡ bind
        (replay_all dispatch ((ping ∷ []) ++ intact calls) [])
        (λ s. load dispatch (open_aof (behind calls) true) s)
load-append_each_example = load-append_each dispatch (ping ∷ []) calls [] calls-AllWire

abbrev ping_items : Values
ping_items = cons (bulk (codes "PING")) nil

one_digit : 1 ≤ length (format_ℕ (count_items ping_items))
unfolding format_ℕ digits count_items
one_digit = omega arith

load-lost_example :
    load dispatch
      (append_each
        (all_synced (get_a ∷ [])
          ++ (cut_at 2, array_value ping_items) ∷ (synced, array_value ping_items) ∷ calls)
        (opened (ping ∷ []))).aof
      []
    ≡ replay_all dispatch ((ping ∷ []) ++ get_a ∷ []) []
load-lost_example =
    load-lost dispatch (ping ∷ []) (get_a ∷ []) ping_items ping_items 1 calls []
      (ping-IsWire, (get_a-IsWire, tt)) one_digit
