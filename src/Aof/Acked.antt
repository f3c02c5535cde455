-- ===== src/Aof/Acked.antt =====
-- What the next load finds of a log some of whose appends have failed.
use valkeydb.Base.{
  ℕ, ◌≡◌, refl, ◌∙◌, ap, sym, true, false, Option, List, [], ◌∷◌, ◌++◌, arith, Str, take,
  append_assoc, append-nil,
}
use valkeydb.Resp.{Value, bind, encode}
use valkeydb.Aof.{Aof, open_aof, load, encode_entries}
use valkeydb.Aof.Load.{AllWire, IsOpen, append-eq, replay_all, encode_entries-append}
use valkeydb.Aof.Prefix.{load-prefix}
use valkeydb.Aof.Io.{Log, Outcome, synced, cut_at, not_synced, write_bytes, written, append_io}

unfoldable pub append_each : List (Outcome × Value) → Log → Log
append_each [] l = l
append_each ((o, v) ∷ calls) l = append_each calls (append_io o v l).1

-- The entries before the first one that is cut off, and the bytes from that one on.
unfoldable pub intact : List (Outcome × Value) → List Value
intact [] = []
intact ((synced, v) ∷ calls) = v ∷ intact calls
intact ((not_synced, v) ∷ calls) = v ∷ intact calls
intact ((cut_at n, v) ∷ calls) = []

bytes : Outcome → Value → Str
bytes synced v = encode v
bytes not_synced v = encode v
bytes (cut_at n) v = take n (encode v)

all_bytes : List (Outcome × Value) → Str
all_bytes [] = []
all_bytes ((o, v) ∷ calls) = bytes o v ++ all_bytes calls

unfoldable pub behind : List (Outcome × Value) → Str
unfolding all_bytes bytes
behind [] = []
behind ((synced, v) ∷ calls) = behind calls
behind ((not_synced, v) ∷ calls) = behind calls
behind ((cut_at n, v) ∷ calls) = take n (encode v) ++ all_bytes calls

all_bytes-split :
    (calls : List (Outcome × Value))
    → all_bytes calls ≡ encode_entries (intact calls) ++ behind calls
unfolding all_bytes bytes intact behind encode_entries
all_bytes-split [] = refl
all_bytes-split ((synced, v) ∷ calls) =
    ap (λ t. encode v ++ t) (all_bytes-split calls)
    ∙ sym (append_assoc (encode v) (encode_entries (intact calls)) (behind calls))
all_bytes-split ((not_synced, v) ∷ calls) =
    ap (λ t. encode v ++ t) (all_bytes-split calls)
    ∙ sym (append_assoc (encode v) (encode_entries (intact calls)) (behind calls))
all_bytes-split ((cut_at n, v) ∷ calls) = refl

-- A log that takes appends.
record Takes (l : Log) : Type 0 where
  is_open : IsOpen l.aof
  not_closed : l.closed ≡ false

written-eq :
    (o : Outcome) (v : Value) (a : Aof)
    → IsOpen a
    → (written o v a).1 ≡ record a { file = a.file ++ bytes o v }
unfolding written bytes write_bytes
written-eq synced v a h = append-eq v a h
written-eq not_synced v a h = append-eq v a h
written-eq (cut_at n) v a h = ground (arith, h.linked)

append_io-eq :
    (o : Outcome) (v : Value) (l : Log)
    → Takes l
    → (append_io o v l).1 ≡ record l { aof = record l.aof { file = l.aof.file ++ bytes o v } }
unfolding append_io
append_io-eq o v l t =
    ground (arith, t.is_open.on, t.is_open.writing, t.not_closed, written-eq o v l.aof t.is_open)

append_each-file :
    (calls : List (Outcome × Value)) (l : Log)
    → Takes l
    → append_each calls l ≡ record l { aof = record l.aof { file = l.aof.file ++ all_bytes calls } }
unfolding append_each all_bytes
append_each-file [] l t =
    ap (λ f. record l { aof = record l.aof { file = f } }) (sym (append-nil l.aof.file))
append_each-file ((o, v) ∷ calls) l t =
    ap (append_each calls) (append_io-eq o v l t)
    ∙ append_each-file calls (record l { aof = record l.aof { file = l.aof.file ++ bytes o v } })
        (record {
          is_open = record {
            on = t.is_open.on;
            writing = t.is_open.writing;
            linked = t.is_open.linked;
          };
          not_closed = t.not_closed;
        })
    ∙ ap (λ f. record l { aof = record l.aof { file = f } })
        (append_assoc l.aof.file (bytes o v) (all_bytes calls))

abbrev pub opened : List Value → Log
opened old = record { aof = open_aof (encode_entries old) true; closed = false }

module _ {ℓ} {S : Type ℓ} (dispatch : Str → List Value → S → Option S) where
  -- Whatever comes of the appends to a log that is opened with old entries in it, where these and
  -- the ones before the first append that is cut off are fit for the wire: the next load replays
  -- all of these, in order, before it reads anything that was written from that append on.
  pub load-append_each :
      (old : List Value) (calls : List (Outcome × Value)) (s : S)
      → AllWire (old ++ intact calls)
      → load dispatch (append_each calls (opened old)).aof s
        ≡ bind
            (replay_all dispatch (old ++ intact calls) s)
            (λ s'. load dispatch (open_aof (behind calls) true) s')
  unfolding open_aof
  load-append_each old calls s w =
      rw
        (append_each-file calls (opened old) (record {
          is_open = record { on = refl; writing = refl; linked = refl };
          not_closed = refl;
        }))
        (load-prefix dispatch (old ++ intact calls) (behind calls) _ s refl split w)
    where
      split :
          encode_entries old ++ all_bytes calls
          ≡ encode_entries (old ++ intact calls) ++ behind calls
      split =
          ap (λ t. encode_entries old ++ t) (all_bytes-split calls)
          ∙ sym (append_assoc (encode_entries old) (encode_entries (intact calls)) (behind calls))
          ∙ ap (λ t. t ++ behind calls) (sym (encode_entries-append old (intact calls)))

-- An append that is cut off, and one behind it.
pub behind-next :
    (n : ℕ) (v v' : Value) (later : List (Outcome × Value))
    → (rest : Str) × (behind ((cut_at n, v) ∷ (synced, v') ∷ later)
        ≡ take n (encode v) ++ (encode v' ++ rest))
unfolding behind all_bytes bytes
behind-next n v v' later = (all_bytes later, refl)
