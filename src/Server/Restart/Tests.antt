-- ===== src/Server/Restart/Tests.antt =====
-- A server with a string, a set, a hash and a list that has been sorted, closed and started again.
use valkeydb.Base.{
  eq_str, Str, List, if◌then◌else◌, Bool-cases, inl, inr, ℕ, ◌≡◌, refl, subst, true, false, some,
  [], ◌∷◌, codes,
}
use valkeydb.Base.Int.{pos}
use valkeydb.Base.Map.{get}
use valkeydb.Clock.{Time, is_zero, after}
use valkeydb.Config.{Config}
use valkeydb.Config.Tests.{shipped}
use valkeydb.Item.{Item, value_item, zero_item, is_expired}
use valkeydb.Dict
use valkeydb.SetStore
use valkeydb.HashStore
use valkeydb.ListStore
use valkeydb.ListStore.Refine.{Denotes}
use valkeydb.ListStore.Tests.{sorted_ring, sorted-Repr}
use valkeydb.Deque.{read_from}
use valkeydb.Aof.{open_aof}
use valkeydb.Resp.{ok}
use valkeydb.Rdb.{Snapshot, Disk, Rdb, Storage, decoded, in_use}
use valkeydb.Rdb.Files.{IsCodec}
use valkeydb.Command.{Db}
use valkeydb.Command.Tests.{env}
use valkeydb.Server.Persist.{take_snapshot}
use valkeydb.Server.Lifecycle.{initialize, close_server, new_db}
use valkeydb.Server.Restart.{AreStores, Restored, fresh, initialize-close_server}

abbrev config : Config
config = record shipped {
  persistence = record shipped.persistence {
    aof = record shipped.persistence.aof { enabled = false };
  };
}

abbrev clock : ℕ → Time
clock n = pos 5

abbrev db : Db
db = record (new_db (open_aof [] false)) {
  dict = (codes "k", record (value_item (codes "v")) { expired_at = pos 9 }) ∷ [];
  set = (codes "s", record zero_item { members = (codes "m", tt) ∷ [] }) ∷ [];
  hash = (codes "h", (codes "f", codes "1") ∷ []) ∷ [];
  list = (codes "l", sorted_ring) ∷ [];
}

abbrev snapshot : Snapshot
snapshot = record {
  dict_data = db.dict;
  set_data = db.set;
  list_data = (codes "l", sorted_ring.items) ∷ [];
  hash_data = db.hash;
}

abbrev storage : Storage
storage = record {
  encode_gob = λ s. (codes "gob", true);
  decode_gob = λ bytes. decoded snapshot;
  denied = λ path. false;
}

abbrev lists : Str → List Item
lists k = if eq_str (codes "l") k then sorted_ring.items else []

list-Denotes : Denotes db.list lists
unfolding get
list-Denotes k = elim (Bool-cases (eq_str (codes "l") k)) [
  | inl e ↦ rw e sorted-Repr
  | inr e ↦ rw e refl
]

stores : AreStores lists db
unfolding get
stores = record {
  dict = (refl, tt);
  set = (refl, tt);
  members = ((refl, tt), tt);
  list = (refl, tt);
  stands = list-Denotes;
  hash = (refl, tt);
  fields = ((refl, tt), tt);
}

taken : take_snapshot clock clock db ≡ some snapshot
unfolding take_snapshot Dict.dump Dict.dump_from SetStore.dump SetStore.dump_from HashStore.dump
    ListStore.dump read_from is_expired is_zero after
taken = refl

carries : IsCodec storage snapshot
carries = record { writes = λ e. cc; completes = refl; reads = refl }

codec : (s : Snapshot) → take_snapshot clock clock db ≡ some s → IsCodec storage s
codec s e = let same : snapshot ≡ s = cc (e, taken) in subst (IsCodec storage) same carries

initialize-close_server_example :
    (r' : Rdb) × (disk' : Disk) × (close_server config storage clock clock db
        (record { file = in_use; enabled = true })
        []
      ≡ some (r', disk'))
    × (r'' : Rdb) × (db' : Db) × (initialize config storage (λ n. env) clock clock true [] disk'
        ≡ ok (db', r'', disk'))
    × Restored fresh clock clock lists db db'
initialize-close_server_example =
    initialize-close_server config storage (λ n. env) clock clock lists db
      (record { file = in_use; enabled = true }) [] [] refl refl refl refl stores codec
