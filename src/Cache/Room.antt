-- ===== src/Cache/Room.antt =====
-- Adding an item behind those that are kept.
use win16sync.Prelude.{
  ◌<◌, ◌≡◌, refl, true, none, some, List, [], ◌∷◌, ltb, if◌then◌else◌, length, drop, Text, text_eq,
  arith, Bool-cases, inl, inr, take_all, length-drop, length-append,
}
use win16sync.Cache.{CacheItem, Cache, max_files, make_room, add_item}
use win16sync.Cache.Find.{find, AreDistinct, find-add}
use win16sync.Cache.Invariant.{IsValid, add-AreDistinct}

-- The items that a new one is put behind: all, or all but the oldest where the table is full.
abbrev pub kept : Cache → List CacheItem
kept cache = if ltb (length cache.items) max_files then cache.items else drop 1 cache.items

make_room-kept :
    (cache : Cache) → IsValid cache → cache.allocated ≡ true → make_room cache ≡ kept cache
make_room-kept cache v used =
    let size = v.sized used in
    let rest = take_all 127 (drop 1 cache.items) in
    let less = length-drop 1 cache.items in simp size (ground (arith, rest, less, v.bounded))

drop-AreDistinct : (items : List CacheItem) → AreDistinct items → AreDistinct (drop 1 items)
drop-AreDistinct [] d = tt
drop-AreDistinct (item ∷ items) d = d.1

find-drop :
    (path : Text) (items : List CacheItem)
    → find path items ≡ none
    → find path (drop 1 items) ≡ none
find-drop path [] e = refl
find-drop path (item ∷ items) e = ground arith

-- What holds of all items and of all but the oldest holds of the kept ones.
pub kept_cases :
    (P : List CacheItem → Type 0) (cache : Cache)
    → (length cache.items < max_files → P cache.items)
    → P (drop 1 cache.items)
    → P (kept cache)
kept_cases P cache all rest = elim (Bool-cases (ltb (length cache.items) max_files)) [
  | inl room ↦ rw room (all (ground arith))
  | inr full ↦ rw full rest
]

-- The table after an item is added behind the kept ones.
pub add_item-IsValid :
    (cache : Cache) (path : Text) (item : CacheItem)
    → IsValid cache
    → cache.allocated ≡ true
    → item.path ≡ path
    → find path cache.items ≡ none
    → IsValid (add_item item cache)
      × ((q : Text)
          → find q (add_item item cache).items
            ≡ (if text_eq path q then some item else find q (kept cache)))
add_item-IsValid cache path item v used same_path missing =
    let d : AreDistinct (kept cache) =
      kept_cases AreDistinct cache (λ _. v.distinct) (drop-AreDistinct cache.items v.distinct) in
    let m : find path (kept cache) ≡ none =
      kept_cases (λ items. find path items ≡ none) cache (λ _. missing)
        (find-drop path cache.items missing) in
    let n : length (kept cache) < max_files =
      kept_cases (λ items. length items < max_files) cache (λ h. h)
        (omega (arith, length-drop 1 cache.items, v.bounded, v.sized used)) in
    rw (make_room-kept cache v used) (
      record {
        distinct = add-AreDistinct path item same_path (kept cache) d m;
        bounded = omega (arith, length-append (kept cache) (item ∷ []), n, v.sized used);
        unused = λ e. cc (used, e);
        sized = λ e. v.sized used;
      },
      (λ q. find-add path item same_path (kept cache) q m),
    )
