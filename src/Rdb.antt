-- ===== src/Rdb.antt =====
-- internal/persistence/rdb.go: snapshots in files. encoding/gob is a parameter, and so is what the
-- system refuses; a disk is the bytes at each path.
pub mod Files
mod Tests
use valkeydb.Base.{Bool, true, false, not, Option, none, some, List, [], ◌∷◌, Str, if◌then◌else◌}
use valkeydb.Base.Map.{Map, get, put}
use valkeydb.Item.{Item}

pub record Snapshot : Type 0 where
  pub dict_data : Map Item
  pub set_data : Map Item
  pub list_data : Map (List Item)
  pub hash_data : Map (Map Str)

abbrev pub Disk : Type 0
Disk = Map Str

-- The handle that `OpenRDB` keeps, which only `Close` uses.
pub data Handle : Type 0 where
  no_file in_use released : Handle

pub record Rdb : Type 0 where
  pub file : Handle
  pub enabled : Bool

-- What gob makes of a file: io.EOF, io.ErrUnexpectedEOF, or another error.
pub data GobResult : Type 0 where
  decoded : Snapshot → GobResult
  eof unexpected_eof gob_error : GobResult

-- `encode_gob` gives what it writes, and whether it succeeds. `denied` names the paths that the
-- system refuses to open or to create for a reason other than that nothing is there.
pub record Storage : Type 0 where
  pub encode_gob : Snapshot → Str × Bool
  pub decode_gob : Str → GobResult
  pub denied : Str → Bool

-- A snapshot, `nil, nil`, or an error.
pub data Loaded : Type 0 where
  loaded : Snapshot → Loaded
  nothing load_error : Loaded

module _ (storage : Storage) where
  created : Str → Option Str → Disk → Disk
  created path none disk = put path [] disk
  created path (some bytes) disk = disk

  -- `none` is an error.
  unfoldable pub open_rdb : Str → Bool → Disk → Option (Rdb × Disk)
  unfolding created
  open_rdb path enabled disk =
      if not enabled
      then some (record { file = no_file; enabled = false }, disk)
      else if storage.denied path
      then none
      else some (record { file = in_use; enabled = true }, created path (get path disk) disk)

  -- The result is `false` for an error. The file is emptied before anything is written.
  unfoldable pub save : Rdb → Snapshot → Str → Disk → Bool × Disk
  save r snapshot path disk =
      if not r.enabled
      then (true, disk)
      else if storage.denied path
      then (false, disk)
      else ((storage.encode_gob snapshot).1, put path (storage.encode_gob snapshot).0 disk)

  unfoldable pub load_snapshot : GobResult → Loaded
  load_snapshot (decoded snapshot) = loaded snapshot
  load_snapshot eof = nothing
  load_snapshot unexpected_eof = nothing
  load_snapshot gob_error = load_error

  unfoldable pub load_bytes : Option Str → Loaded
  load_bytes none = nothing
  load_bytes (some []) = nothing
  load_bytes (some (c ∷ bytes)) = load_snapshot (storage.decode_gob (c ∷ bytes))

  unfoldable pub load : Rdb → Str → Disk → Loaded
  load r path disk =
      if not r.enabled
      then nothing
      else if storage.denied path
      then load_error
      else load_bytes (get path disk)

-- `false` is the error of closing a file twice.
unfoldable pub close_handle : Handle → Bool × Handle
close_handle no_file = (false, no_file)
close_handle in_use = (true, released)
close_handle released = (false, released)

unfoldable pub close : Rdb → Bool × Rdb
close r =
    if not r.enabled
    then (true, r)
    else ((close_handle r.file).0, record r { file = (close_handle r.file).1 })
