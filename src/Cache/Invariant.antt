-- ===== src/Cache/Invariant.antt =====
-- The invariant of the table, that both updates keep it, and what is found afterwards.
use win16sync.Prelude.{
  ◌≤◌, ◌≡◌, refl, true, false, none, some, List, [], ◌∷◌, ◌++◌, if◌then◌else◌, length, Text,
  text_eq, text_eq_iff, arith, Bool-cases, Option-cases, inl, inr,
}
use win16sync.Path.{is_empty}
use win16sync.Cache.{
  CacheItem, Cache, no_cache, max_files, update_loop, forget_loop, forget_cached_crc,
}
use win16sync.Cache.Find.{find, AreDistinct, find-update_loop, find-add, find-forget_loop}

-- No path twice, never more items than there is room for, and the room of PROTO_MAX_FILES once
-- the array is there.
pub record IsValid (cache : Cache) : Type 0 where
  pub distinct : AreDistinct cache.items
  pub bounded : length cache.items ≤ cache.capacity
  pub unused : cache.allocated ≡ false → cache.items ≡ []
  pub sized : cache.allocated ≡ true → cache.capacity ≡ max_files

pub no_cache-IsValid : IsValid no_cache
no_cache-IsValid = record {
  distinct = tt;
  bounded = omega arith;
  unused = λ _. refl;
  sized = λ e. cc;
}

module _ (path : Text) (item : CacheItem) (same_path : item.path ≡ path) where
  pub update-AreDistinct :
      (items updated : List CacheItem)
      → AreDistinct items
      → update_loop path item items ≡ some updated
      → AreDistinct updated
  unfolding update_loop
  update-AreDistinct [] updated d e = cc
  update-AreDistinct (old ∷ items) updated d e = elim (Bool-cases (text_eq old.path path)) [
    | inl found ↦
        let e1 : updated ≡ item ∷ items = ground arith in
        let e2 : old.path ≡ path = (text_eq_iff old.path path).0 found in
        rw e1 (rw same_path (rw e2 at d.0), d.1)
    | inr other ↦ elim (Option-cases (update_loop path item items)) [
      | inl missing ↦ absurd (ground arith)
      | inr (rest, done) ↦
          let e1 : updated ≡ old ∷ rest = ground arith in
          let kept = find-update_loop path item same_path items rest old.path done in
          rw e1 (
            ground (arith, kept, d.0, text_eq_iff old.path path, text_eq_iff path old.path),
            update-AreDistinct items rest d.1 done,
          )
    ]
  ]

  pub add-AreDistinct :
      (items : List CacheItem)
      → AreDistinct items
      → find path items ≡ none
      → AreDistinct (items ++ item ∷ [])
  add-AreDistinct [] d e = (refl, tt)
  add-AreDistinct (old ∷ items) d e = (
    ground (
      arith,
      d.0,
      find-add path item same_path items old.path,
      text_eq_iff old.path path,
      text_eq_iff path old.path,
    ),
    add-AreDistinct items d.1 (ground arith),
  )

forget-AreDistinct :
    (path : Text) (items : List CacheItem)
    → AreDistinct items
    → AreDistinct (forget_loop path items)
unfolding forget_loop
forget-AreDistinct path [] d = tt
forget-AreDistinct path (item ∷ items) d = elim (Bool-cases (text_eq item.path path)) [
  | inl found ↦ rw found d.1
  | inr other ↦ rw other (
    ground (arith, d.0, find-forget_loop path items item.path d.1),
    forget-AreDistinct path items d.1,
  )
]

forget_le : (path : Text) (items : List CacheItem) → length (forget_loop path items) ≤ length items
unfolding forget_loop
forget_le path [] = omega arith
forget_le path (item ∷ items) = ground (arith, forget_le path items)

forget_used :
    (cache : Cache) (path : Text)
    → cache.allocated ≡ true
    → is_empty path ≡ false
    → forget_cached_crc cache path ≡ record cache { items = forget_loop path cache.items }
unfolding forget_cached_crc
forget_used cache path used filled = simp (used, filled)

forget_fresh :
    (cache : Cache) (path : Text) → cache.allocated ≡ false → forget_cached_crc cache path ≡ cache
unfolding forget_cached_crc
forget_fresh cache path fresh = simp fresh

-- For a path that is not empty, proto_forget_cached_crc keeps the invariant; afterwards its path
-- is unknown and every other path is as it was.
pub forget_cached_crc-IsValid :
    {cache : Cache} (path : Text)
    → IsValid cache
    → is_empty path ≡ false
    → IsValid (forget_cached_crc cache path)
      × ((q : Text)
          → find q (forget_cached_crc cache path).items
            ≡ (if text_eq path q then none else find q cache.items))
forget_cached_crc-IsValid {cache} path v filled = elim (Bool-cases cache.allocated) [
  | inl used ↦ rw (forget_used cache path used filled) (
    record {
      distinct = forget-AreDistinct path cache.items v.distinct;
      bounded = omega (arith, v.bounded, forget_le path cache.items);
      unused = λ e. cc;
      sized = λ e. v.sized used;
    },
    (λ q. find-forget_loop path cache.items q v.distinct),
  )
  | inr fresh ↦ rw (forget_fresh cache path fresh) (v, (λ q. rw (v.unused fresh) (ground arith)))
]
