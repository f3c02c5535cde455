-- ===== src/Rdb/Files.antt =====
-- Snapshots that are saved and loaded again.
use valkeydb.Base.{◌≡◌, refl, ◌≢◌, ◌∙◌, ap, true, false, some, [], ◌∷◌, Str}
use valkeydb.Base.Map.{get, put, get-put_self, get-put_ne}
use valkeydb.Rdb.{
  Snapshot, Disk, Rdb, Storage, decoded, unexpected_eof, loaded, nothing, in_use, open_rdb, created,
  save, load, load_bytes, load_snapshot,
}

-- What encoding/gob promises of a value that it encodes: it writes something, and decodes it again.
pub record IsCodec (storage : Storage) (snapshot : Snapshot) : Type 0 where
  pub writes : (storage.encode_gob snapshot).0 ≢ []
  pub completes : (storage.encode_gob snapshot).1 ≡ true
  pub reads : storage.decode_gob (storage.encode_gob snapshot).0 ≡ decoded snapshot

module _ (storage : Storage) where
  load_bytes-cons :
      (bytes : Str)
      → bytes ≢ []
      → load_bytes storage (some bytes) ≡ load_snapshot storage (storage.decode_gob bytes)
  unfolding load_bytes
  load_bytes-cons [] h = absurd (h refl)
  load_bytes-cons (c ∷ bytes) h = refl

  pub load-put :
      (r : Rdb) (path bytes : Str) (disk : Disk)
      → r.enabled ≡ true
      → storage.denied path ≡ false
      → bytes ≢ []
      → load storage r path (put path bytes disk) ≡ load_snapshot storage (storage.decode_gob bytes)
  unfolding load
  load-put r path bytes disk on free h =
      rw (on, free, get-put_self path bytes disk) (load_bytes-cons bytes h)

  pub open_rdb-put :
      (path bytes : Str) (disk : Disk)
      → storage.denied path ≡ false
      → open_rdb storage path true (put path bytes disk)
        ≡ some (record { file = in_use; enabled = true }, put path bytes disk)
  unfolding open_rdb created
  open_rdb-put path bytes disk free = rw (free, get-put_self path bytes disk) refl

  -- Where snapshots are enabled, the path may be written and gob can carry the snapshot: what is
  -- saved is loaded again, whatever stood at the path; other paths keep their files.
  pub load-save :
      (r : Rdb) (snapshot : Snapshot) (path other : Str) (disk : Disk)
      → r.enabled ≡ true
      → storage.denied path ≡ false
      → IsCodec storage snapshot
      → path ≢ other
      → (disk' : Disk) × (save storage r snapshot path disk ≡ (true, disk'))
        × (load storage r path disk' ≡ loaded snapshot)
        × (get other disk' ≡ get other disk)
  unfolding save load_snapshot
  load-save r snapshot path other disk on free codec apart = (
    put path (storage.encode_gob snapshot).0 disk,
    rw (on, free, codec.completes) refl,
    load-put r path _ disk on free codec.writes ∙ ap (load_snapshot storage) codec.reads,
    get-put_ne path other _ disk apart,
  )

  -- Where gob has written a part of the snapshot when it fails, one that ends too early to be
  -- decoded: `Save` answers an error, and the snapshot that stood at the path before is lost; a load
  -- finds nothing there and reports no error.
  pub load-save_torn :
      (r : Rdb) (snapshot : Snapshot) (path part : Str) (disk : Disk)
      → r.enabled ≡ true
      → storage.denied path ≡ false
      → storage.encode_gob snapshot ≡ (part, false)
      → part ≢ []
      → storage.decode_gob part ≡ unexpected_eof
      → (disk' : Disk) × (save storage r snapshot path disk ≡ (false, disk'))
        × (load storage r path disk' ≡ nothing)
  unfolding save load_snapshot
  load-save_torn r snapshot path part disk on free fails some_part cut = (
    put path part disk,
    rw (on, free, fails) refl,
    load-put r path part disk on free some_part ∙ ap (load_snapshot storage) cut,
  )
