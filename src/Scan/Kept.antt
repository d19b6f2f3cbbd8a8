-- ===== src/Scan/Kept.antt =====
-- A scan leaves the connection and the settings of the client as they are.
use win16sync.Prelude.{
  ℕ, zero, suc, refl, Bool, true, false, not, ◌&&◌, ◌||◌, Option, none, some, List, [], ◌∷◌, map,
  length, leb, Text, codes, Bool-cases, inl, inr,
}
use win16sync.Cache.{Cache, max_files}
use win16sync.Client.{ProtoClient}
use win16sync.Crc.{file_crc32}
use win16sync.Items.{
  FileItem, Surroundings, Entry, read_checksum, known_checksum, checksum_by, append_item,
  add_file_item,
}
use win16sync.Name.{to_upper, is_valid_component}
use win16sync.Path.{local_path_capacity, local_join}
use win16sync.Scan.{
  Found, Disk, Ran, Scanner, is_reserved, max_file_size, is_dots, protocol_path, entry_of,
  scan_depth, sort_ran, scan_file, scan_kind, scan_local, scan_valid, scan_found, proceed, scan_all,
  scan_pattern, scan_recursive, scan_directory,
}
use win16sync.Text.{copy_text}
use win16sync.Wire.Kept.{IsKept, IsKept-refl, IsKept-trans, set_error-IsKept}

module _ {Socket : Type 0} where
  cache-IsKept :
      (client : ProtoClient Socket) (cache : Cache)
      → IsKept client (record client { cache = cache })
  cache-IsKept client cache = record {
    socket = refl;
    ready = refl;
    unchecked = refl;
    bounded = λ h. h;
  }

  known_checksum-IsKept :
      (s : Surroundings) (client : ProtoClient Socket) (entry : Entry) (found : Option ℕ)
      → IsKept client (known_checksum s client entry found).1
  unfolding known_checksum read_checksum
  known_checksum-IsKept s client entry (some crc) = IsKept-refl client
  known_checksum-IsKept s client entry none = read (file_crc32 (s.read entry.local_path))
    where
      read : (crc : Option ℕ) → IsKept client (read_checksum s client entry crc).1
      read none = set_error-IsKept client _
      read (some crc) = cache-IsKept client _

  checksum_by-IsKept :
      (s : Surroundings) (unchecked : Bool) (client : ProtoClient Socket) (entry : Entry)
      → IsKept client (checksum_by s unchecked client entry).1
  unfolding checksum_by
  checksum_by-IsKept s true client entry = cache-IsKept client _
  checksum_by-IsKept s false client entry = known_checksum-IsKept s client entry _

  append_item-IsKept :
      (s : Surroundings) (client : ProtoClient Socket) (items : List FileItem) (entry : Entry)
      (r : Option ℕ × ProtoClient Socket)
      → IsKept client r.1
      → IsKept client (append_item s items entry r).1
  unfolding append_item
  append_item-IsKept s client items entry (none, after) h = h
  append_item-IsKept s client items entry (some crc, after) h = h

  add_file_item-IsKept :
      (s : Surroundings) (client : ProtoClient Socket) (items : List FileItem) (entry : Entry)
      → IsKept client (add_file_item s client items entry).1
  unfolding add_file_item
  add_file_item-IsKept s client items entry = elim (Bool-cases (leb max_files (length items))) [
    | inl full ↦ rw full (set_error-IsKept client _)
    | inr room ↦ rw room (
        append_item-IsKept s client items entry (checksum_by s client.crc_disabled client entry)
          (checksum_by-IsKept s client.crc_disabled client entry))
  ]

  -- The client after a scan, if the scan stays in its arrays.
  abbrev pub RanKept : ProtoClient Socket → Ran Socket → Type 0
  RanKept client none = Unit
  RanKept client (some (ok, after, items)) = IsKept client after

  RanKept-trans :
      (client after : ProtoClient Socket) (r : Ran Socket)
      → IsKept client after
      → RanKept after r
      → RanKept client r
  RanKept-trans client after none h k = tt
  RanKept-trans client after (some (ok, last, items)) h k = IsKept-trans h k

  abbrev IsKeeping : Scanner Socket → Type 0
  IsKeeping scan =
      (local path : Text) (client : ProtoClient Socket) (items : List FileItem)
      → RanKept client (scan local path client items)

  module _ (disk : Disk) where
    scan_kind-RanKept :
        (recurse : Scanner Socket) (directory : Bool) (upper : Text) (entry : Entry)
        (client : ProtoClient Socket) (items : List FileItem)
        → IsKeeping recurse
        → RanKept client (scan_kind disk recurse directory upper entry client items)
    unfolding scan_kind scan_file
    scan_kind-RanKept recurse true upper entry client items h =
        h entry.local_path entry.path client items
    scan_kind-RanKept recurse false upper entry client items h =
        elim (Bool-cases (leb entry.size max_file_size && not (is_reserved upper))) [
          | inl ours ↦
              rw ours (add_file_item-IsKept (disk.around (length items)) client items entry)
          | inr left ↦ rw left (IsKept-refl client)
        ]

    scan_local-RanKept :
        (recurse : Scanner Socket) (found : Found) (upper protocol : Text) (local : Option Text)
        (client : ProtoClient Socket) (items : List FileItem)
        → IsKeeping recurse
        → RanKept client (scan_local disk recurse found upper protocol local client items)
    unfolding scan_local
    scan_local-RanKept recurse found upper protocol none client items h = set_error-IsKept client _
    scan_local-RanKept recurse found upper protocol (some local) client items h =
        scan_kind-RanKept recurse found.is_directory upper (entry_of protocol local found) client
          items h

    scan_valid-RanKept :
        (recurse : Scanner Socket) (current : Text) (found : Found) (upper : Text)
        (protocol : Option Text) (client : ProtoClient Socket) (items : List FileItem)
        → IsKeeping recurse
        → RanKept client (scan_valid disk recurse current found upper protocol client items)
    unfolding scan_valid
    scan_valid-RanKept recurse current found upper none client items h = tt
    scan_valid-RanKept recurse current found upper (some protocol) client items h =
        scan_local-RanKept recurse found upper protocol
          (local_join local_path_capacity current found.name) client items h

    scan_found-RanKept :
        (recurse : Scanner Socket) (current prefix : Text) (found : Found)
        (client : ProtoClient Socket) (items : List FileItem)
        → IsKeeping recurse
        → RanKept client (scan_found disk recurse current prefix found client items)
    unfolding scan_found
    scan_found-RanKept recurse current prefix found client items h =
        let upper = map to_upper (copy_text [] found.name 16) in
        let test =
          is_dots found.name
          || not
              (is_valid_component (disk.stale current found.name) upper (not found.is_directory)) in
        elim (Bool-cases test) [
          | inl passed ↦ rw passed (IsKept-refl client)
          | inr kept ↦ rw kept (
              scan_valid-RanKept recurse current found upper (protocol_path prefix upper) client
                items h)
        ]

    proceed-RanKept :
        (more : ProtoClient Socket → List FileItem → Ran Socket) (client : ProtoClient Socket)
        (r : Ran Socket)
        → ((c : ProtoClient Socket) (items : List FileItem) → RanKept c (more c items))
        → RanKept client r
        → RanKept client (proceed disk more r)
    unfolding proceed
    proceed-RanKept more client none h k = tt
    proceed-RanKept more client (some (false, after, items)) h k = k
    proceed-RanKept more client (some (true, after, items)) h k =
        RanKept-trans client after (more after items) k (h after items)

    scan_all-RanKept :
        (recurse : Scanner Socket) (current prefix : Text) (found : List Found)
        (client : ProtoClient Socket) (items : List FileItem)
        → IsKeeping recurse
        → RanKept client (scan_all disk recurse current prefix found client items)
    unfolding scan_all
    scan_all-RanKept recurse current prefix [] client items h = IsKept-refl client
    scan_all-RanKept recurse current prefix (found ∷ more) client items h =
        proceed-RanKept (scan_all disk recurse current prefix more) client
          (scan_found disk recurse current prefix found client items)
          (λ c later. scan_all-RanKept recurse current prefix more c later h)
          (scan_found-RanKept recurse current prefix found client items h)

    scan_pattern-RanKept :
        (recurse : Scanner Socket) (current prefix : Text) (pattern : Option Text)
        (client : ProtoClient Socket) (items : List FileItem)
        → IsKeeping recurse
        → RanKept client (scan_pattern disk recurse current prefix pattern client items)
    unfolding scan_pattern
    scan_pattern-RanKept recurse current prefix none client items h = set_error-IsKept client _
    scan_pattern-RanKept recurse current prefix (some pattern) client items h =
        scan_all-RanKept recurse current prefix (disk.find pattern) client items h

    scan_recursive-RanKept : (depth : ℕ) → IsKeeping (scan_recursive disk depth)
    unfolding scan_recursive
    scan_recursive-RanKept zero current prefix client items = tt
    scan_recursive-RanKept (suc depth) current prefix client items =
        scan_pattern-RanKept (scan_recursive disk depth) current prefix
          (local_join local_path_capacity current (codes "*.*")) client items
          (scan_recursive-RanKept depth)

    sort_ran-RanKept :
        (client : ProtoClient Socket) (r : Ran Socket)
        → RanKept client r
        → RanKept client (sort_ran r)
    unfolding sort_ran
    sort_ran-RanKept client none h = tt
    sort_ran-RanKept client (some (false, after, items)) h = h
    sort_ran-RanKept client (some (true, after, items)) h = h

    pub scan_directory-RanKept :
        (root : Text) (client : ProtoClient Socket)
        → RanKept client (scan_directory disk root client)
    unfolding scan_directory
    scan_directory-RanKept root client =
        sort_ran-RanKept client (scan_recursive disk scan_depth root [] client [])
          (scan_recursive-RanKept scan_depth root [] client [])
