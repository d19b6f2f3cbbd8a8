-- ===== src/Scan/Listing.antt =====
-- What the scan lists, on disks whose names are those of DOS.
use win16sync.Prelude.{
  ℕ, zero, suc, ◌+◌, ◌≤◌, ◌<◌, ◌≡◌, refl, ap, sym, ◌∙◌, Bool, true, false, not, ◌&&◌, ◌||◌, Option,
  none, some, List, [], ◌∷◌, map, length, leb, Text, All, All-append, codes, arith, Bool-cases, inl,
  inr, length-append, take_all,
}
use mathlib.Core.Path.{subst}
use win16sync.Text.{copy_text}
use win16sync.Text.Laws.{copy_text-take}
use win16sync.Path.{
  path_capacity, local_path_capacity, is_separator, is_empty, local_join, protocol_to_local,
}
use win16sync.Path.Split.{IsName}
use win16sync.Path.Join.{IsDirectory}
use win16sync.Name.{to_upper, is_valid_char, is_valid_component}
use win16sync.Name.Tested.{HasNoNul}
use win16sync.Name.Is83.{All-valid, Is83, Is83-first, is_valid_component-Is83}
use win16sync.Cache.{max_files}
use win16sync.Cache.Invariant.{IsValid}
use win16sync.Client.{ProtoClient, set_error}
use win16sync.Items.{FileItem, Surroundings, Entry, new_item, checksum, append_item, add_file_item}
use win16sync.Items.Add.{checksum_by_lem}
use win16sync.Scan.{
  Found, Disk, Ran, Scanner, entry_of, protocol_path, is_dots, is_reserved, max_file_size,
  scan_file, scan_kind, scan_local, scan_valid, scan_found, proceed, scan_all, scan_pattern,
  scan_recursive, scan_depth,
}
use win16sync.Scan.Place.{IsAt, IsAt-length, protocol_path-fits, IsPlaced, protocol_path-IsPlaced}

valid_char-separator : (c : ℕ) → is_valid_char (to_upper c) ≡ true → is_separator c ≡ false
unfolding is_valid_char
valid_char-separator c h = ground arith

valid-IsName : (p : Text) → All (λ c. is_valid_char (to_upper c) ≡ true) p → IsName p
valid-IsName [] h = tt
valid-IsName (c ∷ p) h = (valid_char-separator c h.0, valid-IsName p h.1)

Is83-IsName : (stale name : Text) (is_file : Bool) → Is83 stale name is_file → IsName name
Is83-IsName stale name is_file (Is83.directory part) = valid-IsName name (All-valid name part.legal)
Is83-IsName stale name is_file (Is83.plain part clean) =
    valid-IsName name (All-valid name part.legal)
Is83-IsName stale name is_file (Is83.extended base extension shape b e) = subst IsName (sym shape) (
    All-append (λ c. is_separator c ≡ false) base (b'.' ∷ extension)
      (valid-IsName base (All-valid base b.legal))
      (refl, valid-IsName extension (All-valid extension e.legal)))

-- The names of a disk are capitals, of at most twelve characters.
abbrev pub IsDosName : Text → Type 0
IsDosName name = HasNoNul name × (map to_upper name ≡ name) × (length name ≤ 12)

abbrev pub IsDos : Disk → Type 0
IsDos disk = (pattern : Text) → All (λ found. IsDosName found.name) (disk.find pattern)

module _ (root : Text) where
  -- The local path of an item is the one that the server's name for it gives.
  abbrev pub IsItem : FileItem → Type 0
  IsItem item = protocol_to_local local_path_capacity root item.path ≡ some item.local_path

  abbrev pub IsListing : {Socket : Type 0} → ProtoClient Socket → List FileItem → Type 0
  IsListing client items = IsValid client.cache × (length items ≤ max_files) × All IsItem items

  -- What a part of the scan has done, whether it went on or failed: it stayed within its arrays.
  abbrev pub Lists : {Socket : Type 0} → Ran Socket → Type 0
  Lists none = ⊥
  Lists (some (ok, client, items)) = IsListing client items

module _ {Socket : Type 0} (disk : Disk) (dos : IsDos disk) (root : Text) (h : IsDirectory root)
    (long : 12 < length root) where
  append_item-Lists :
      (s : Surroundings) (items : List FileItem) (entry : Entry)
      (result : Option ℕ × ProtoClient Socket)
      → IsListing root result.1 items
      → length items < max_files
      → protocol_to_local local_path_capacity root entry.path ≡ some entry.local_path
      → length entry.path < path_capacity
      → length entry.local_path < local_path_capacity
      → Lists root (some (append_item s items entry result))
  unfolding append_item
  append_item-Lists s items entry (none, client) listing room place fits fits' = listing
  append_item-Lists s items entry (some crc, client) (v, n, all) room place fits fits' =
      let path =
        copy_text-take [] entry.path path_capacity (omega arith)
        ∙ take_all 143 entry.path (omega arith) in
      let local =
        copy_text-take [] entry.local_path local_path_capacity (omega arith)
        ∙ take_all 143 entry.local_path (omega arith) in
      (
        v,
        omega (arith, length-append items (new_item entry crc ∷ [])),
        All-append (IsItem root) items (new_item entry crc ∷ []) all (rw (path, local) place, tt),
      )

  add_file_item-Lists :
      (s : Surroundings) (client : ProtoClient Socket) (items : List FileItem) (entry : Entry)
      → IsListing root client items
      → protocol_to_local local_path_capacity root entry.path ≡ some entry.local_path
      → is_empty entry.path ≡ false
      → length entry.path < path_capacity
      → length entry.local_path < local_path_capacity
      → Lists root (some (add_file_item s client items entry))
  unfolding add_file_item set_error
  add_file_item-Lists s client items entry (v, n, all) place filled fits fits' =
      elim (Bool-cases (leb max_files (length items))) [
        | inl full ↦ rw full (v, n, all)
        | inr room ↦
            let (crc, valid) = checksum_by_lem s client entry v filled fits client.crc_disabled in
            rw room (
              append_item-Lists s items entry (checksum s client entry) (valid, n, all)
                (ground arith) place fits fits')
      ]

  -- A scan of the directories that are at least so far down.
  abbrev IsScanner : Scanner Socket → ℕ → Type 0
  IsScanner recurse n =
      (current prefix : Text) (client : ProtoClient Socket) (items : List FileItem)
      → IsAt root h prefix current
      → n < length current
      → IsListing root client items
      → Lists root (recurse current prefix client items)

  proceed-Lists :
      (more : ProtoClient Socket → List FileItem → Ran Socket)
      → ((client : ProtoClient Socket) (items : List FileItem)
          → IsListing root client items
          → Lists root (more client items))
      → (ran : Ran Socket) → Lists root ran
      → Lists root (proceed disk more ran)
  unfolding proceed
  proceed-Lists more more_lem none ran = ran
  proceed-Lists more more_lem (some (false, client, items)) ran = ran
  proceed-Lists more more_lem (some (true, client, items)) ran = more_lem client items ran

  scan_kind-Lists :
      (recurse : Scanner Socket) (n : ℕ) (is_directory : Bool) (upper : Text) (entry : Entry)
      (client : ProtoClient Socket) (items : List FileItem)
      → IsScanner recurse n
      → IsListing root client items
      → IsPlaced root h n entry.path entry.local_path
      → Lists root (scan_kind disk recurse is_directory upper entry client items)
  unfolding scan_kind scan_file
  scan_kind-Lists recurse n true upper entry client items scanner listing
        (at, further, filled, fits, place) =
      scanner entry.local_path entry.path client items at further listing
  scan_kind-Lists recurse n false upper entry client items scanner listing
        (at, further, filled, fits, place) =
      let (same, within) = IsAt-length root h entry.path entry.local_path at filled in
      elim (Bool-cases (leb entry.size max_file_size && not (is_reserved upper))) [
        | inl kept ↦ rw kept (
            add_file_item-Lists (disk.around (length items)) client items entry listing place filled
              fits within)
        | inr left ↦ rw left listing
      ]

  scan_local-Lists :
      (recurse : Scanner Socket) (n : ℕ) (found : Found) (upper protocol : Text)
      (client : ProtoClient Socket) (items : List FileItem)
      → IsScanner recurse n
      → IsListing root client items
      → (local : Option Text)
      → ((place : Text) → local ≡ some place → IsPlaced root h n protocol place)
      → Lists root (scan_local disk recurse found upper protocol local client items)
  unfolding scan_local set_error
  scan_local-Lists recurse n found upper protocol client items scanner listing none places = listing
  scan_local-Lists recurse n found upper protocol client items scanner listing (some local) places =
      scan_kind-Lists recurse n found.is_directory upper (entry_of protocol local found) client
        items scanner listing (places local refl)

  module _ (recurse : Scanner Socket) (current prefix : Text) (at : IsAt root h prefix current)
      (scanner : IsScanner recurse (length current)) where
    scan_valid-Lists :
        (found : Found) (upper : Text) (client : ProtoClient Socket) (items : List FileItem)
        → IsListing root client items
        → IsName found.name
        → length found.name ≤ 12
        → is_empty found.name ≡ false
        → (protocol : Option Text) → protocol_path prefix found.name ≡ protocol
        → Lists root (scan_valid disk recurse current found upper protocol client items)
    unfolding scan_valid
    scan_valid-Lists found upper client items listing named short filled none e =
        protocol_path-fits root h prefix current found.name at long short e
    scan_valid-Lists found upper client items listing named short filled (some protocol) e =
        scan_local-Lists recurse (length current) found upper protocol client items scanner listing
          (local_join local_path_capacity current found.name)
          (λ place joins.
            protocol_path-IsPlaced root h prefix current found.name at named short filled e joins)

    scan_found-Lists :
        (found : Found) (client : ProtoClient Socket) (items : List FileItem)
        → IsDosName found.name
        → IsListing root client items
        → Lists root (scan_found disk recurse current prefix found client items)
    unfolding scan_found
    scan_found-Lists found client items (clean, capital, short) listing =
        let upper = map to_upper (copy_text [] found.name 16) in
        let same : upper ≡ found.name =
          ap (map to_upper)
            (copy_text-take [] found.name 16 (omega arith) ∙ take_all 15 found.name (omega arith))
          ∙ capital in
        let stale = disk.stale current found.name in
        elim (Bool-cases
          (is_dots found.name || not (is_valid_component stale upper (not found.is_directory)))) [
            | inl skipped ↦ rw skipped listing
            | inr taken ↦
                let valid : is_valid_component stale upper (not found.is_directory) ≡ true =
                  ground arith in
                let is83 =
                  (is_valid_component-Is83 stale found.name (not found.is_directory) clean).0 (
                    subst (λ t. is_valid_component stale t (not found.is_directory) ≡ true) same
                      valid) in
                let (c, t, begins, no_dot) = Is83-first found.name is83 in
                rw taken (
                  scan_valid-Lists found upper client items listing
                    (Is83-IsName stale found.name (not found.is_directory) is83) short
                    (ap is_empty begins) (protocol_path prefix upper)
                    (ap (protocol_path prefix) (sym same)))
          ]

    scan_all-Lists :
        (founds : List Found) (client : ProtoClient Socket) (items : List FileItem)
        → All (λ found. IsDosName found.name) founds
        → IsListing root client items
        → Lists root (scan_all disk recurse current prefix founds client items)
    unfolding scan_all
    scan_all-Lists [] client items names listing = listing
    scan_all-Lists (found ∷ founds) client items names listing =
        proceed-Lists (scan_all disk recurse current prefix founds)
          (λ again list l. scan_all-Lists founds again list names.1 l)
          (scan_found disk recurse current prefix found client items)
          (scan_found-Lists found client items names.0 listing)

  scan_pattern-Lists :
      (recurse : Scanner Socket) (current prefix : Text) (client : ProtoClient Socket)
      (items : List FileItem)
      → IsAt root h prefix current
      → IsScanner recurse (length current)
      → IsListing root client items
      → (pattern : Option Text)
      → Lists root (scan_pattern disk recurse current prefix pattern client items)
  unfolding scan_pattern set_error
  scan_pattern-Lists recurse current prefix client items at scanner listing none = listing
  scan_pattern-Lists recurse current prefix client items at scanner listing (some pattern) =
      scan_all-Lists recurse current prefix at scanner (disk.find pattern) client items
        (dos pattern) listing

  scan_deep-Lists :
      (depth : ℕ) (current prefix : Text) (client : ProtoClient Socket) (items : List FileItem)
      → IsAt root h prefix current
      → local_path_capacity + length root < depth + length current
      → IsListing root client items
      → Lists root (scan_recursive disk depth current prefix client items)
  unfolding scan_recursive
  scan_deep-Lists zero current [] client items at deep listing =
      absurd (omega (arith, ap length at))
  scan_deep-Lists zero current (c ∷ prefix) client items at deep listing =
      let (same, within) = IsAt-length root h (c ∷ prefix) current at refl in absurd (omega arith)
  scan_deep-Lists (suc depth) current prefix client items at deep listing =
      scan_pattern-Lists (scan_recursive disk depth) current prefix client items at
        (λ place protocol again list at' further l.
          scan_deep-Lists depth place protocol again list at' (omega arith) l)
        listing (local_join local_path_capacity current (codes "*.*"))

  -- The scan of a root directory whose path has more than twelve characters: it never goes deeper
  -- than the depth allowed for, no `sprintf` leaves its array and, whether the scan succeeds or
  -- fails, at most 128 items are listed; the local path of each is the one that
  -- proto_protocol_to_local gives for its path in the protocol; and the table of checksums keeps
  -- its invariant. The root does not end in a separator and the names on the disk are those of
  -- DOS, capitals and at most twelve long.
  pub scan_recursive-Lists :
      (client : ProtoClient Socket)
      → IsValid client.cache
      → Lists root (scan_recursive disk scan_depth root [] client [])
  scan_recursive-Lists client v =
      scan_deep-Lists 145 root [] client [] refl (omega arith) (v, omega arith, tt)
