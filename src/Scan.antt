-- ===== src/Scan.antt =====
-- client/proto.c: proto_scan_recursive, which lists the files of a directory and of those below it.
-- `none` is the undefined behaviour of a `sprintf` beyond its array.
pub mod Place
pub mod Listing
pub mod Order
pub mod Sorted
pub mod Kept
mod Tests
use win16sync.Prelude.{
  ℕ, zero, suc, ◌+◌, ◌*◌, ◌^◌, Bool, true, false, not, ◌&&◌, ◌||◌, Option, none, some, List, [],
  ◌∷◌, ◌++◌, map, length, leb, ltb, ◌==◌, if◌then◌else◌, Text, codes, text_eq,
}
use win16sync.Text.{copy_text}
use win16sync.Path.{path_capacity, local_path_capacity, temp_name, is_empty, local_join}
use win16sync.Name.{to_upper, is_valid_component}
use win16sync.Client.{ProtoClient, set_error}
use win16sync.Items.{FileItem, Surroundings, Entry, add_file_item}

-- `struct find_t`, with `_A_SUBDIR` of its attributes.
pub record Found : Type 0 where
  pub name : Text
  pub is_directory : Bool
  pub size : ℕ
  pub wr_date : ℕ
  pub wr_time : ℕ

-- What the scan meets: what _dos_findfirst and _dos_findnext give for a pattern, what is around the
-- adding of the n-th item, and what the stack holds when a name of a directory is tested.
pub record Disk : Type 0 where
  pub find : Text → List Found
  pub around : ℕ → Surroundings
  pub stale : Text → Text → Text

-- PROTO_MAX_FILE_SIZE
abbrev pub max_file_size : ℕ
max_file_size = 2147483648

-- The client's own files.
abbrev pub is_reserved : Text → Bool
is_reserved upper =
    text_eq upper temp_name
    || text_eq upper (codes "W16SYNC.LOG")
    || text_eq upper (codes "W16SYNC.INI")
    || text_eq upper (codes "W16NEW.EXE")
    || text_eq upper (codes "W16UPD.INI")

abbrev pub is_dots : Text → Bool
is_dots name = text_eq name (codes ".") || text_eq name (codes "..")

-- `protocol_path`, with `none` where `sprintf` writes beyond it.
unfoldable pub protocol_path : Text → Text → Option Text
protocol_path prefix upper =
    if is_empty prefix
    then some (copy_text [] upper path_capacity)
    else if ltb (length prefix + 1 + length upper) path_capacity
    then some (prefix ++ b'/' ∷ upper)
    else none

abbrev pub entry_of : Text → Text → Found → Entry
entry_of protocol local found = record {
  path = protocol;
  local_path = local;
  size = found.size;
  dos_stamp = found.wr_date * 2 ^ 16 + found.wr_time;
}

-- The success, the client and the list; `none` is beyond what the language defines.
abbrev pub Ran : Type 0 → Type 0
Ran Socket = Option (Bool × ProtoClient Socket × List FileItem)

-- The scan of a directory, by its local path and its path in the protocol.
abbrev pub Scanner : Type 0 → Type 0
Scanner Socket = Text → Text → ProtoClient Socket → List FileItem → Ran Socket

-- Deep enough for any directory.
abbrev pub scan_depth : ℕ
scan_depth = 145

-- strcmp(left, right) <= 0
unfoldable pub text_le : Text → Text → Bool
text_le [] right = true
text_le (x ∷ left) [] = false
text_le (x ∷ left) (y ∷ right) =
    let rest = text_le left right in if ltb x y then true else x == y && rest

-- proto_compare_items(left, right) <= 0
abbrev pub item_le : FileItem → FileItem → Bool
item_le left right = text_le left.path right.path

-- `qsort` with proto_compare_items.
unfoldable pub insert_item : FileItem → List FileItem → List FileItem
insert_item item [] = item ∷ []
insert_item item (first ∷ items) =
    let rest = insert_item item items in
    if item_le item first then item ∷ first ∷ items else first ∷ rest

unfoldable pub sort_items : List FileItem → List FileItem
sort_items [] = []
sort_items (item ∷ items) = insert_item item (sort_items items)

-- The end of proto_scan_directory.
unfoldable pub sort_ran : {Socket : Type 0} → Ran Socket → Ran Socket
sort_ran none = none
sort_ran (some (false, client, items)) = some (false, client, items)
sort_ran (some (true, client, items)) = some (true, client, sort_items items)

module _ {Socket : Type 0} (disk : Disk) where
  unfoldable pub scan_file : Text → Entry → ProtoClient Socket → List FileItem → Ran Socket
  scan_file upper entry client items =
      if leb entry.size max_file_size && not (is_reserved upper)
      then some (add_file_item (disk.around (length items)) client items entry)
      else some (true, client, items)

  -- One entry with its two paths, by whether it is a directory.
  unfoldable pub scan_kind :
      Scanner Socket → Bool → Text → Entry → ProtoClient Socket → List FileItem → Ran Socket
  scan_kind recurse true upper entry client items = recurse entry.local_path entry.path client items
  scan_kind recurse false upper entry client items = scan_file upper entry client items

  unfoldable pub scan_local :
      Scanner Socket
      → Found
      → Text
      → Text
      → Option Text
      → ProtoClient Socket
      → List FileItem
      → Ran Socket
  scan_local recurse found upper protocol none client items =
      some (false, set_error client (codes "Lokaler Pfad zu lang"), items)
  scan_local recurse found upper protocol (some local) client items =
      scan_kind recurse found.is_directory upper (entry_of protocol local found) client items

  unfoldable pub scan_valid :
      Scanner Socket
      → Text
      → Found
      → Text
      → Option Text
      → ProtoClient Socket
      → List FileItem
      → Ran Socket
  scan_valid recurse current found upper none client items = none
  scan_valid recurse current found upper (some protocol) client items =
      scan_local recurse found upper protocol (local_join local_path_capacity current found.name)
        client items

  -- The body of the loop.
  unfoldable pub scan_found :
      Scanner Socket → Text → Text → Found → ProtoClient Socket → List FileItem → Ran Socket
  scan_found recurse current prefix found client items =
      let upper = map to_upper (copy_text [] found.name 16) in
      if is_dots found.name
        || not (is_valid_component (disk.stale current found.name) upper (not found.is_directory))
      then some (true, client, items)
      else scan_valid recurse current found upper (protocol_path prefix upper) client items

  -- A failure ends the scan.
  unfoldable pub proceed :
      (ProtoClient Socket → List FileItem → Ran Socket) → Ran Socket → Ran Socket
  proceed more none = none
  proceed more (some (false, client, items)) = some (false, client, items)
  proceed more (some (true, client, items)) = more client items

  unfoldable pub scan_all :
      Scanner Socket → Text → Text → List Found → ProtoClient Socket → List FileItem → Ran Socket
  scan_all recurse current prefix [] client items = some (true, client, items)
  scan_all recurse current prefix (found ∷ more) client items =
      proceed (scan_all recurse current prefix more)
        (scan_found recurse current prefix found client items)

  unfoldable pub scan_pattern :
      Scanner Socket → Text → Text → Option Text → ProtoClient Socket → List FileItem → Ran Socket
  scan_pattern recurse current prefix none client items =
      some (false, set_error client (codes "Pfadmuster zu lang"), items)
  scan_pattern recurse current prefix (some pattern) client items =
      scan_all recurse current prefix (disk.find pattern) client items

  -- `depth` bounds the levels; every level makes the local path longer.
  unfoldable pub scan_recursive : ℕ → Scanner Socket
  scan_recursive zero current prefix client items = none
  scan_recursive (suc depth) current prefix client items =
      scan_pattern (scan_recursive depth) current prefix
        (local_join local_path_capacity current (codes "*.*")) client items

  unfoldable pub scan_directory : Text → ProtoClient Socket → Ran Socket
  scan_directory root client = sort_ran (scan_recursive scan_depth root [] client [])
