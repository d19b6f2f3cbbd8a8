-- ===== src/Items.antt =====
-- client/proto.h and client/proto.c: the list of the files that the client announces. The first
-- `count` items of the array are the list.
pub mod Add
mod Tests
use win16sync.Prelude.{
  ℕ, ◌+◌, Bool, true, false, Option, none, some, List, [], ◌∷◌, ◌++◌, length, leb, if◌then◌else◌,
  Text, codes, text_eq,
}
use mathlib.Core.Option
use win16sync.Text.{copy_text}
use win16sync.Path.{path_capacity, local_path_capacity}
use win16sync.Crc.{file_crc32}
use win16sync.Cache.{Cache, max_files, lookup_cached_crc, remember_cached_crc, forget_cached_crc}
use win16sync.Client.{ProtoClient, set_error}

pub record FileItem : Type 0 where
  pub path : Text
  pub local_path : Text
  pub size : ℕ
  pub crc32 : ℕ
  pub dos_stamp : ℕ

-- proto_find_item, with `none` for -1.
unfoldable pub find_item : List FileItem → Text → Option ℕ
find_item [] path = none
find_item (item ∷ items) path =
    if text_eq item.path path then some 0 else Option.map (λ i. i + 1) (find_item items path)

-- What is around a call: the tick count when the table is searched and when it is written, whether
-- malloc succeeds, and the files, `none` for one that does not open.
pub record Surroundings : Type 0 where
  pub looked : ℕ
  pub written : ℕ
  pub malloc_ok : Bool
  pub read : Text → Option Text

-- The values of the file that is added.
pub record Entry : Type 0 where
  pub path : Text
  pub local_path : Text
  pub size : ℕ
  pub dos_stamp : ℕ

abbrev pub new_item : Entry → ℕ → FileItem
new_item entry crc = record {
  path = copy_text [] entry.path path_capacity;
  local_path = copy_text [] entry.local_path local_path_capacity;
  size = entry.size;
  crc32 = crc;
  dos_stamp = entry.dos_stamp;
}

module _ {Socket : Type 0} (s : Surroundings) where
  -- The checksum after the file has been read.
  unfoldable pub read_checksum :
      ProtoClient Socket → Entry → Option ℕ → Option ℕ × ProtoClient Socket
  read_checksum client entry none =
      (none, set_error client (codes "CRC32 konnte nicht berechnet werden"))
  read_checksum client entry (some crc) = (
    some crc,
    record client {
      cache =
          remember_cached_crc s.malloc_ok s.written client.cache entry.path entry.size
            entry.dos_stamp crc;
    },
  )

  -- The checksum after the table has been searched.
  unfoldable pub known_checksum :
      ProtoClient Socket → Entry → Option ℕ → Option ℕ × ProtoClient Socket
  known_checksum client entry (some crc) = (some crc, client)
  known_checksum client entry none =
      read_checksum client entry (file_crc32 (s.read entry.local_path))

  -- By `crc_disabled`.
  unfoldable pub checksum_by : Bool → ProtoClient Socket → Entry → Option ℕ × ProtoClient Socket
  checksum_by true client entry =
      (some 0, record client { cache = forget_cached_crc client.cache entry.path })
  checksum_by false client entry = known_checksum client entry (
      lookup_cached_crc client.cache_recheck_enabled s.looked client.cache entry.path entry.size
        entry.dos_stamp)

  abbrev pub checksum : ProtoClient Socket → Entry → Option ℕ × ProtoClient Socket
  checksum client entry = checksum_by client.crc_disabled client entry

  unfoldable pub append_item :
      List FileItem
      → Entry
      → Option ℕ × ProtoClient Socket
      → Bool × ProtoClient Socket × List FileItem
  append_item items entry (none, client) = (false, client, items)
  append_item items entry (some crc, client) = (true, client, items ++ new_item entry crc ∷ [])

  unfoldable pub add_file_item :
      ProtoClient Socket → List FileItem → Entry → Bool × ProtoClient Socket × List FileItem
  add_file_item client items entry =
      if leb max_files (length items)
      then (false, set_error client (codes "Zu viele Dateien im Sync-Ordner"), items)
      else append_item items entry (checksum client entry)
