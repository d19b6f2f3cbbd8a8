-- ===== src/Items/Add.antt =====
-- What proto_add_file_item adds, and where proto_find_item finds it.
use win16sync.Prelude.{
  ℕ, ◌≤◌, ◌<◌, ◌≡◌, refl, ap, sym, Bool, true, false, Option, none, some, List, [], ◌∷◌, ◌++◌,
  length, leb, Text, text_eq, text_eq_iff, arith, Bool-cases, inl, inr, All, length-append,
  take_all, take,
}
use mathlib.Core.Path.{subst}
use win16sync.Text.Laws.{copy_text-take}
use win16sync.Path.{path_capacity, local_path_capacity, is_empty}
use win16sync.Crc.{file_crc32}
use win16sync.Cache.{max_files, lookup_cached_crc}
use win16sync.Cache.Invariant.{IsValid, forget_cached_crc-IsValid}
use win16sync.Cache.Remember.{remember_cached_crc-Remembers}
use win16sync.Client.{ProtoClient, set_error}
use win16sync.Items.{
  FileItem, Surroundings, Entry, find_item, new_item, read_checksum, known_checksum, checksum_by,
  checksum, append_item, add_file_item,
}

-- No item of the list has the path.
abbrev pub IsNew : Text → List FileItem → Type 0
IsNew path = All (λ item. text_eq item.path path ≡ false)

find_item-append :
    (items : List FileItem) (item : FileItem)
    → IsNew item.path items
    → find_item (items ++ item ∷ []) item.path ≡ some (length items)
unfolding find_item
find_item-append [] item h = rw ((text_eq_iff item.path item.path).1 refl) refl
find_item-append (first ∷ items) item (other, h) =
    rw (other, find_item-append items item h) (ap some (omega arith))

-- The checksum that an entry has, by the switch, by the table or by its file.
abbrev pub entry_crc : Bool → Option ℕ → Option ℕ → Option ℕ
entry_crc true known file = some 0
entry_crc false (some crc) file = some crc
entry_crc false none file = file

-- The item for a file: its path, what its array holds of its local path, its size, its checksum
-- and its time stamp.
abbrev pub item_of_file : Entry → ℕ → FileItem
item_of_file entry crc = record {
  path = entry.path;
  local_path = take 143 entry.local_path;
  size = entry.size;
  crc32 = crc;
  dos_stamp = entry.dos_stamp;
}

new_item-whole :
    (entry : Entry) (crc : ℕ)
    → length entry.path < path_capacity
    → new_item entry crc ≡ item_of_file entry crc
new_item-whole entry crc fits = rw (
  copy_text-take [] entry.path path_capacity (omega arith),
  take_all 143 entry.path (omega arith),
  copy_text-take [] entry.local_path local_path_capacity (omega arith),
)

module _ {Socket : Type 0} (s : Surroundings) where
  abbrev pub crc_of : ProtoClient Socket → Entry → Option ℕ
  crc_of client entry =
      entry_crc client.crc_disabled
        (lookup_cached_crc client.cache_recheck_enabled s.looked client.cache entry.path entry.size
          entry.dos_stamp)
        (file_crc32 (s.read entry.local_path))

  module _ (client : ProtoClient Socket) (entry : Entry) (v : IsValid client.cache)
      (filled : is_empty entry.path ≡ false) (fits : length entry.path < path_capacity) where
    read_checksum_lem :
        (file : Option ℕ)
        → ((read_checksum s client entry file).0 ≡ file)
          × IsValid (read_checksum s client entry file).1.cache
    unfolding read_checksum set_error
    read_checksum_lem none = (refl, v)
    read_checksum_lem (some crc) = (
      refl,
      (remember_cached_crc-Remembers s.malloc_ok s.written entry.path entry.size entry.dos_stamp crc
          v filled fits).0,
    )

    known_checksum_lem :
        (found : Option ℕ)
        → ((known_checksum s client entry found).0
            ≡ entry_crc false found (file_crc32 (s.read entry.local_path)))
          × IsValid (known_checksum s client entry found).1.cache
    unfolding known_checksum
    known_checksum_lem (some crc) = (refl, v)
    known_checksum_lem none = read_checksum_lem (file_crc32 (s.read entry.local_path))

    pub checksum_by_lem :
        (disabled : Bool)
        → ((checksum_by s disabled client entry).0
            ≡ entry_crc disabled
                (lookup_cached_crc client.cache_recheck_enabled s.looked client.cache entry.path
                  entry.size entry.dos_stamp)
                (file_crc32 (s.read entry.local_path)))
          × IsValid (checksum_by s disabled client entry).1.cache
    unfolding checksum_by
    checksum_by_lem true = (refl, (forget_cached_crc-IsValid entry.path v filled).0)
    checksum_by_lem false = known_checksum_lem (
        lookup_cached_crc client.cache_recheck_enabled s.looked client.cache entry.path entry.size
          entry.dos_stamp)

  -- What proto_add_file_item has done: the item is last in the list, with the checksum of the table
  -- or of the file, and is found under its path. Or the list is full or the file does not open,
  -- and the list is as it was.
  abbrev pub Adds :
      ProtoClient Socket
      → List FileItem
      → Entry
      → Bool × ProtoClient Socket × List FileItem
      → Type 0
  Adds client items entry (true, after, list) =
      ((crc : ℕ) × (crc_of client entry ≡ some crc) × (list ≡ items ++ item_of_file entry crc ∷ []))
      × (find_item list entry.path ≡ some (length items))
      × (length list ≤ max_files)
      × IsValid after.cache
  Adds client items entry (false, after, list) =
      (list ≡ items) × (length items < max_files → crc_of client entry ≡ none) × IsValid after.cache

  append_item-Adds :
      (client : ProtoClient Socket) (items : List FileItem) (entry : Entry)
      → length entry.path < path_capacity
      → IsNew entry.path items
      → length items < max_files
      → (result : Option ℕ × ProtoClient Socket) → result.0 ≡ crc_of client entry
      → IsValid result.1.cache
      → Adds client items entry (append_item s items entry result)
  unfolding append_item
  append_item-Adds client items entry fits new room (none, after) e v = (refl, (λ _. sym e), v)
  append_item-Adds client items entry fits new room (some crc, after) e v =
      let item = new_item entry crc in
      let same = new_item-whole entry crc fits in
      let whole : item.path ≡ entry.path = ap (λ i. i.path) same in
      (
        (crc, sym e, ap (λ i. items ++ i ∷ []) same),
        subst (λ p. find_item (items ++ item ∷ []) p ≡ some (length items)) whole
            (find_item-append items item (subst (λ p. IsNew p items) (sym whole) new)),
        omega (arith, length-append items (item ∷ [])),
        v,
      )

  -- Each call of proto_add_file_item for a path that is not empty, fits its array and is not in the
  -- list yet, with a table of checksums that keeps its invariant. Either the file is added last,
  -- with its path, its local path up to 143 characters, its size, its time stamp and its checksum:
  -- 0 where checksums are off, else what the table knows, else that of the file's contents;
  -- proto_find_item then finds it there. Or the list is unchanged, since it is full or the checksum
  -- is not known and the file does not open. The list stays within its array, and the table of
  -- checksums keeps its invariant.
  pub add_file_item-Adds :
      (client : ProtoClient Socket) (items : List FileItem) (entry : Entry)
      → IsValid client.cache
      → is_empty entry.path ≡ false
      → length entry.path < path_capacity
      → IsNew entry.path items
      → Adds client items entry (add_file_item s client items entry)
  unfolding add_file_item set_error
  add_file_item-Adds client items entry v filled fits new =
      elim (Bool-cases (leb max_files (length items))) [
        | inl full ↦ rw full (refl, (λ room. absurd (ground arith)), v)
        | inr room ↦
            let (crc, valid) = checksum_by_lem client entry v filled fits client.crc_disabled in
            rw room (
              append_item-Adds client items entry fits new (ground arith) (checksum s client entry)
                crc valid)
      ]
