-- ===== src/Scan/Sorted.antt =====
-- proto_scan_directory: the list in the order of proto_compare_items.
use win16sync.Prelude.{
  ◌<◌, ◌≡◌, refl, true, false, none, some, List, [], ◌∷◌, length, Text, arith, Bool-cases, inl, inr,
}
use mathlib.Core.List.Perm
use mathlib.Core.List.{Perm}
use win16sync.Path.Join.{IsDirectory}
use win16sync.Cache.Invariant.{IsValid}
use win16sync.Client.{ProtoClient}
use win16sync.Items.{FileItem}
use win16sync.Scan.{
  Disk, Ran, text_le, item_le, insert_item, sort_items, sort_ran, scan_depth, scan_recursive,
  scan_directory,
}
use win16sync.Scan.Order.{Precedes, IsSorted, IsSorted-unique, paths, text_le-Precedes}
use win16sync.Scan.Listing.{IsDos, Lists, scan_recursive-Lists}

text_le_total : (left right : Text) → text_le left right ≡ false → text_le right left ≡ true
unfolding text_le
text_le_total [] right e = cc e
text_le_total (x ∷ left) [] e = refl
text_le_total (x ∷ left) (y ∷ right) e = ground (arith, text_le_total left right)

insert_behind :
    (first item : FileItem) (items : List FileItem)
    → Precedes first.path item.path
    → IsSorted (first ∷ items)
    → IsSorted (first ∷ insert_item item items)
unfolding insert_item
insert_behind first item [] h sorted = (h, tt)
insert_behind first item (next ∷ items) h sorted = elim (Bool-cases (item_le item next)) [
  | inl before ↦ rw before (h, (text_le-Precedes item.path next.path before, sorted.1))
  | inr behind ↦ rw behind (
    sorted.0,
    insert_behind next item items
        (text_le-Precedes next.path item.path (text_le_total item.path next.path behind)) sorted.1,
  )
]

insert_item-IsSorted :
    (item : FileItem) (items : List FileItem) → IsSorted items → IsSorted (insert_item item items)
unfolding insert_item
insert_item-IsSorted item [] sorted = tt
insert_item-IsSorted item (first ∷ items) sorted = elim (Bool-cases (item_le item first)) [
  | inl before ↦ rw before (text_le-Precedes item.path first.path before, sorted)
  | inr behind ↦ rw behind (
      insert_behind first item items
        (text_le-Precedes first.path item.path (text_le_total item.path first.path behind)) sorted)
]

insert_item-Perm :
    (item : FileItem) (items : List FileItem) → Perm (insert_item item items) (item ∷ items)
unfolding insert_item
insert_item-Perm item [] = Perm.refl (item ∷ [])
insert_item-Perm item (first ∷ items) = elim (Bool-cases (item_le item first)) [
  | inl before ↦ rw before (Perm.refl (item ∷ first ∷ items))
  | inr behind ↦
      rw behind
        (Perm.trans (Perm.cons first (insert_item-Perm item items)) (Perm.swap item first items))
]

sort_items-IsSorted : (items : List FileItem) → IsSorted (sort_items items)
unfolding sort_items
sort_items-IsSorted [] = tt
sort_items-IsSorted (item ∷ items) =
    insert_item-IsSorted item (sort_items items) (sort_items-IsSorted items)

sort_items-Perm : (items : List FileItem) → Perm (sort_items items) items
unfolding sort_items
sort_items-Perm [] = Perm.refl []
sort_items-Perm (item ∷ items) =
    Perm.trans (insert_item-Perm item (sort_items items)) (Perm.cons item (sort_items-Perm items))

-- What proto_scan_directory has done with a scan: its list, the same items in order. Any list of
-- the same items in order, as another `qsort` may leave it, has the same paths in the same places.
abbrev pub Sorts : {Socket : Type 0} → Ran Socket → Ran Socket → Type 0
Sorts (some (true, client, items)) (some (true, after, list)) =
    (after ≡ client)
    × Perm list items
    × IsSorted list
    × ((other : List FileItem) → Perm other items → IsSorted other → paths other ≡ paths list)
Sorts (some (false, client, items)) (some (false, after, list)) = (after ≡ client) × (list ≡ items)
Sorts _ _ = ⊥

sort_ran-Sorts :
    {Socket : Type 0} (root : Text) (ran : Ran Socket) → Lists root ran → Sorts ran (sort_ran ran)
unfolding sort_ran
sort_ran-Sorts root none listed = listed
sort_ran-Sorts root (some (false, client, items)) listed = (refl, refl)
sort_ran-Sorts root (some (true, client, items)) listed = (
  refl,
  sort_items-Perm items,
  sort_items-IsSorted items,
  λ other same sorted.
      IsSorted-unique other (sort_items items) (Perm.trans same (Perm.symm (sort_items-Perm items)))
        sorted (sort_items-IsSorted items),
)

-- For a root directory whose path does not end in a separator and has more than twelve characters,
-- on a disk with names of DOS and with a table of checksums that keeps its invariant,
-- proto_scan_directory succeeds exactly when the scan does. It then gives the items of the scan,
-- each path before the next in the order by the first byte that differs; the places of the paths
-- are the only ones in this order.
pub scan_directory-Sorts :
    {Socket : Type 0} (disk : Disk) (root : Text) (client : ProtoClient Socket)
    → IsDos disk
    → IsDirectory root
    → 12 < length root
    → IsValid client.cache
    → Sorts (scan_recursive disk scan_depth root [] client []) (scan_directory disk root client)
unfolding scan_directory
scan_directory-Sorts disk root client dos h long v =
    sort_ran-Sorts root (scan_recursive disk scan_depth root [] client [])
      (scan_recursive-Lists disk dos root h long client v)
