-- ===== src/Cache/Remember.antt =====
-- What proto_remember_cached_crc leaves in the table, and what a later lookup gives.
use mathlib.Core.Option
use win16sync.Prelude.{
  ℕ, ◌<◌, ◌≡◌, refl, ap, ◌∙◌, Bool, true, false, ◌||◌, none, some, List, [], if◌then◌else◌, length,
  drop, Text, text_eq, arith, Bool-cases, Option-cases, inl, inr, take_all,
}
use win16sync.Path.{path_capacity, is_empty}
use win16sync.Text.Laws.{copy_text-take}
use win16sync.Cache.{
  CacheItem, Cache, max_files, new_item, update_loop, add_item, remember_cached_crc,
}
use win16sync.Cache.Find.{find, find-update_loop, update_loop-none, update_loop-some}
use win16sync.Cache.Invariant.{IsValid, update-AreDistinct}
use win16sync.Cache.Room.{kept, kept_cases, add_item-IsValid}

-- The item of a path that fits in its array.
abbrev pub known : ℕ → Text → ℕ → ℕ → ℕ → CacheItem
known now path size dos_stamp crc32 = record {
  path = path;
  size = size;
  crc32 = crc32;
  dos_stamp = dos_stamp;
  checked_tick = now;
}

-- The other items that are there after an item for `path` is written.
abbrev pub others : Cache → Text → List CacheItem
others cache path = elim (find path cache.items) [ some _ ↦ cache.items | none ↦ kept cache ]

new_item-known :
    (now : ℕ) (path : Text) (size dos_stamp crc32 : ℕ)
    → length path < path_capacity
    → new_item now path size dos_stamp crc32 ≡ known now path size dos_stamp crc32
new_item-known now path size dos_stamp crc32 h =
    ap (λ p. known now p size dos_stamp crc32)
      (copy_text-take [] path 144 (omega arith) ∙ take_all 143 path (omega arith))

module _ (malloc_ok : Bool) (now : ℕ) (cache : Cache) (path : Text) (size dos_stamp crc32 : ℕ) where
  remember_update :
      {updated : List CacheItem}
      → is_empty path ≡ false
      → update_loop path (new_item now path size dos_stamp crc32) cache.items ≡ some updated
      → remember_cached_crc malloc_ok now cache path size dos_stamp crc32
        ≡ record cache { items = updated }
  unfolding remember_cached_crc
  remember_update filled e = rw (filled, e, remember_cached_crc)

  remember_used :
      is_empty path ≡ false
      → update_loop path (new_item now path size dos_stamp crc32) cache.items ≡ none
      → cache.allocated ≡ true
      → remember_cached_crc malloc_ok now cache path size dos_stamp crc32
        ≡ add_item (new_item now path size dos_stamp crc32) cache
  unfolding remember_cached_crc
  remember_used filled e used = rw (filled, e, remember_cached_crc) (simp used)

  remember_fresh :
      is_empty path ≡ false
      → update_loop path (new_item now path size dos_stamp crc32) cache.items ≡ none
      → cache.allocated ≡ false
      → remember_cached_crc malloc_ok now cache path size dos_stamp crc32 ≡ (
          if malloc_ok
          then add_item
              (new_item now path size dos_stamp crc32)
              (record { allocated = true; items = []; capacity = max_files })
          else cache)
  unfolding remember_cached_crc
  remember_fresh filled e fresh = rw (filled, e, remember_cached_crc) (simp fresh)

-- What is required of the table after an item for `path` is written.
abbrev pub Remembers : Bool → Cache → Text → CacheItem → Cache → Type 0
Remembers malloc_ok cache path item after =
    IsValid after
    × ((q : Text)
        → find q after.items ≡ (
            if text_eq path q
            then (if cache.allocated || malloc_ok then some item else none)
            else find q (others cache path)))

others_known :
    (cache : Cache) (path : Text) {old : CacheItem}
    → find path cache.items ≡ some old
    → others cache path ≡ cache.items
others_known cache path e = rw (e, others)

others_new :
    (cache : Cache) (path : Text) → find path cache.items ≡ none → others cache path ≡ kept cache
others_new cache path e = rw (e, others)

others_fresh :
    (cache : Cache) (path q : Text) → cache.items ≡ [] → find q (others cache path) ≡ none
others_fresh cache path q e = rw (others_new cache path (ap (find path) e)) (
    kept_cases (λ items. find q items ≡ none) cache (λ _. ap (find q) e)
      (ap (λ items. find q (drop 1 items)) e))

module _ (malloc_ok : Bool) {cache : Cache} (path : Text) (item : CacheItem) (v : IsValid cache)
    (same_path : item.path ≡ path) where
  update-Remembers :
      (updated : List CacheItem)
      → update_loop path item cache.items ≡ some updated
      → Remembers malloc_ok cache path item (record cache { items = updated })
  update-Remembers updated e =
      let (old, there) = update_loop-some path item same_path cache.items updated e in
      let used : cache.allocated ≡ true = elim (Bool-cases cache.allocated) [
        | inl used ↦ used
        | inr fresh ↦ absurd (cc (ap (find path) (v.unused fresh), there))
      ] in
      (
        record {
          distinct = update-AreDistinct path item same_path cache.items updated v.distinct e;
          bounded = omega (
            arith,
            (find-update_loop path item same_path cache.items updated path e).1,
            v.bounded,
          );
          unused = λ e. cc (used, e);
          sized = v.sized;
        },
        (λ q.
            (find-update_loop path item same_path cache.items updated q e).0
            ∙ simp used (rw (others_known cache path there))),
      )

  add-Remembers :
      cache.allocated ≡ true
      → find path cache.items ≡ none
      → Remembers malloc_ok cache path item (add_item item cache)
  add-Remembers used missing =
      let (valid, found) = add_item-IsValid cache path item v used same_path missing in
      (valid, (λ q. found q ∙ simp used (rw (others_new cache path missing))))

fresh-Remembers :
    (malloc_ok : Bool) {cache : Cache} (path : Text) (item : CacheItem)
    → IsValid cache
    → item.path ≡ path
    → cache.allocated ≡ false
    → Remembers malloc_ok cache path item (
        if malloc_ok
        then add_item item (record { allocated = true; items = []; capacity = max_files })
        else cache)
fresh-Remembers true {cache} path item v same_path fresh =
    let (valid, found) =
      add_item-IsValid (record { allocated = true; items = []; capacity = max_files }) path item
        (record { distinct = tt; bounded = omega arith; unused = λ e. cc; sized = λ _. refl }) refl
        same_path refl in
    (valid, (λ q. found q ∙ simp fresh (rw (others_fresh cache path q (v.unused fresh)))))
fresh-Remembers false {cache} path item v same_path fresh = (
  v,
  (λ q.
      simp fresh (rw (others_fresh cache path q (v.unused fresh), v.unused fresh) (ground arith))),
)

-- For a path that is not empty and fits its array, proto_remember_cached_crc keeps the invariant,
-- also where the table cannot be allocated. Afterwards its path has the new item, if there is a
-- table, and every other path what it had, except that an added path drops the oldest item of a
-- full table.
pub remember_cached_crc-Remembers :
    (malloc_ok : Bool) (now : ℕ) {cache : Cache} (path : Text) (size dos_stamp crc32 : ℕ)
    → IsValid cache
    → is_empty path ≡ false
    → length path < path_capacity
    → Remembers malloc_ok cache path
        (known now path size dos_stamp crc32)
        (remember_cached_crc malloc_ok now cache path size dos_stamp crc32)
remember_cached_crc-Remembers malloc_ok now {cache} path size dos_stamp crc32 v filled fits =
    let item = new_item now path size dos_stamp crc32 in
    let shape = new_item-known now path size dos_stamp crc32 fits in
    let same_path : item.path ≡ path = ap (λ i. i.path) shape in
    rw (← shape) (elim (Option-cases (update_loop path item cache.items)) [
      | inr (updated, e) ↦
          rw (remember_update malloc_ok now cache path size dos_stamp crc32 filled e)
            (update-Remembers malloc_ok path item v same_path updated e)
      | inl e ↦ elim (Bool-cases cache.allocated) [
        | inl used ↦
            rw (remember_used malloc_ok now cache path size dos_stamp crc32 filled e used) (
              add-Remembers malloc_ok path item v same_path used
                (update_loop-none path item same_path cache.items e))
        | inr fresh ↦
            rw (remember_fresh malloc_ok now cache path size dos_stamp crc32 filled e fresh)
              (fresh-Remembers malloc_ok path item v same_path fresh)
      ]
    ])
