-- ===== src/Rdb/Tests.antt =====
-- Saves and loads over a disk that has an old snapshot.
use valkeydb.Base.{◌≡◌, refl, ◌≢◌, true, false, [], ◌∷◌, codes}
use valkeydb.Base.Map.{get}
use valkeydb.Item.{value_item}
use valkeydb.Rdb.{
  Snapshot, Disk, Rdb, Storage, decoded, unexpected_eof, in_use, loaded, nothing, save, load,
}
use valkeydb.Rdb.Files.{IsCodec, load-save, load-save_torn}

abbrev small : Snapshot
small = record {
  dict_data = (codes "k", value_item (codes "v")) ∷ [];
  set_data = [];
  list_data = [];
  hash_data = [];
}

abbrev storage : Storage
storage = record {
  encode_gob = λ s. (codes "gob", true);
  decode_gob = λ bytes. decoded small;
  denied = λ path. false;
}

abbrev full : Storage
full = record {
  encode_gob = λ s. (codes "g", false);
  decode_gob = λ bytes. unexpected_eof;
  denied = λ path. false;
}

abbrev rdb : Rdb
rdb = record { file = in_use; enabled = true }

abbrev disk : Disk
disk = (codes "dump.rdb", codes "old") ∷ (codes "other", codes "x") ∷ []

carries : IsCodec storage small
carries = record { writes = λ e. cc; completes = refl; reads = refl }

apart : codes "dump.rdb" ≢ codes "other"
apart e = cc

load-save_example :
    (disk' : Disk) × (save storage rdb small (codes "dump.rdb") disk ≡ (true, disk'))
    × (load storage rdb (codes "dump.rdb") disk' ≡ loaded small)
    × (get (codes "other") disk' ≡ get (codes "other") disk)
load-save_example =
    load-save storage rdb small (codes "dump.rdb") (codes "other") disk refl refl carries apart

load-save_torn_example :
    (disk' : Disk) × (save full rdb small (codes "dump.rdb") disk ≡ (false, disk'))
    × (load full rdb (codes "dump.rdb") disk' ≡ nothing)
load-save_torn_example =
    load-save_torn full rdb small (codes "dump.rdb") (codes "g") disk refl refl refl (λ e. cc) refl
