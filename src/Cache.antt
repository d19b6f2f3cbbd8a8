-- ===== src/Cache.antt =====
-- client/proto.h and client/proto.c: the table of known checksums. A file whose size and time stamp
-- have not changed is not read again. The table is allocated on first use, holds at most
-- PROTO_MAX_FILES items and drops its oldest item when it is full. The items are the first
-- `cache_count` of the array.
pub mod Find
pub mod Invariant
mod Room
pub mod Remember
mod Tests
use mathlib.Core.Option
use win16sync.Prelude.{
  ℕ, ◌+◌, ◌-◌, ◌%◌, ◌^◌, Bool, true, false, not, ◌&&◌, ◌||◌, Option, none, some, List, [], ◌∷◌,
  ◌++◌, leb, ◌==◌, if◌then◌else◌, length, take, drop, Text, text_eq,
}
use win16sync.Path.{path_capacity, is_empty}
use win16sync.Text.{copy_text}

-- PROTO_MAX_FILES
abbrev pub max_files : ℕ
max_files = 128

-- PROTO_CACHE_RECHECK_MS
abbrev pub recheck_ms : ℕ
recheck_ms = 300000

-- ProtoCacheItem
pub record CacheItem : Type 0 where
  pub path : Text
  pub size : ℕ
  pub crc32 : ℕ
  pub dos_stamp : ℕ
  pub checked_tick : ℕ

-- `cache_items`, `cache_count` and `cache_capacity` of ProtoClient.
pub record Cache : Type 0 where
  pub allocated : Bool
  pub items : List CacheItem
  pub capacity : ℕ

-- The table of a new client.
abbrev pub no_cache : Cache
no_cache = record { allocated = false; items = []; capacity = 0 }

-- `now - then` on 32-bit ticks.
abbrev pub elapsed : ℕ → ℕ → ℕ
elapsed now then_tick = (now + 2 ^ 32 - then_tick) % 2 ^ 32

-- What the loop of proto_lookup_cached_crc does at the first item with the path.
abbrev pub item_crc : Bool → ℕ → ℕ → ℕ → CacheItem → Option ℕ
item_crc recheck_enabled now size dos_stamp item =
    if not (item.size == size) || not (item.dos_stamp == dos_stamp)
    then none
    else if recheck_enabled && leb recheck_ms (elapsed now item.checked_tick)
    then none
    else some item.crc32

pub lookup_loop : Bool → ℕ → Text → ℕ → ℕ → List CacheItem → Option ℕ
lookup_loop recheck_enabled now path size dos_stamp [] = none
lookup_loop recheck_enabled now path size dos_stamp (item ∷ items) =
    let rest = lookup_loop recheck_enabled now path size dos_stamp items in
    if text_eq item.path path then item_crc recheck_enabled now size dos_stamp item else rest

-- proto_lookup_cached_crc: the checksum, or `none` where it returns 0.
unfoldable pub lookup_cached_crc : Bool → ℕ → Cache → Text → ℕ → ℕ → Option ℕ
lookup_cached_crc recheck_enabled now cache path size dos_stamp =
    if cache.allocated
    then lookup_loop recheck_enabled now path size dos_stamp cache.items
    else none

-- The item that proto_remember_cached_crc writes.
abbrev pub new_item : ℕ → Text → ℕ → ℕ → ℕ → CacheItem
new_item now path size dos_stamp crc32 = record {
  path = copy_text [] path path_capacity;
  size = size;
  crc32 = crc32;
  dos_stamp = dos_stamp;
  checked_tick = now;
}

-- The first loop of proto_remember_cached_crc: `none` where no item has the path.
unfoldable pub update_loop : Text → CacheItem → List CacheItem → Option (List CacheItem)
update_loop path item [] = none
update_loop path item (old ∷ items) =
    let rest = update_loop path item items in
    if text_eq old.path path then some (item ∷ items) else Option.map (◌∷◌ old) rest

-- The array with room for one more item at its end.
abbrev pub make_room : Cache → List CacheItem
make_room cache =
    if leb cache.capacity (length cache.items)
    then take (cache.capacity - 1) (drop 1 cache.items)
    else cache.items

abbrev pub add_item : CacheItem → Cache → Cache
add_item item cache = record cache { items = make_room cache ++ item ∷ [] }

-- proto_remember_cached_crc; `malloc_ok` says whether an allocation succeeds.
unfoldable pub remember_cached_crc : Bool → ℕ → Cache → Text → ℕ → ℕ → ℕ → Cache
remember_cached_crc malloc_ok now cache path size dos_stamp crc32 =
    let item = new_item now path size dos_stamp crc32 in
    if is_empty path then cache else elim (update_loop path item cache.items) [
      | some items ↦ record cache { items = items }
      | none ↦
          if cache.allocated
          then add_item item cache
          else if malloc_ok
          then add_item item (record { allocated = true; items = []; capacity = max_files })
          else cache
    ]

-- The loop of proto_forget_cached_crc.
unfoldable pub forget_loop : Text → List CacheItem → List CacheItem
forget_loop path [] = []
forget_loop path (item ∷ items) =
    let rest = forget_loop path items in if text_eq item.path path then items else item ∷ rest

unfoldable pub forget_cached_crc : Cache → Text → Cache
forget_cached_crc cache path =
    if not cache.allocated || is_empty path
    then cache
    else record cache { items = forget_loop path cache.items }
