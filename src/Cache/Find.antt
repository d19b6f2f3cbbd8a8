-- ===== src/Cache/Find.antt =====
-- The table as a map from paths to items, and what each operation does to this map.
use mathlib.Core.Option
use win16sync.Prelude.{
  ℕ, ◌≡◌, refl, Bool, true, Option, none, some, List, [], ◌∷◌, ◌++◌, if◌then◌else◌, length, Text,
  text_eq, text_eq_iff, arith, Bool-cases, Option-cases, inl, inr,
}
use win16sync.Cache.{
  CacheItem, Cache, item_crc, lookup_loop, lookup_cached_crc, update_loop, forget_loop,
}

-- The first item with the path.
abbrev pub find : Text → List CacheItem → Option CacheItem
find path [] = none
find path (item ∷ items) = if text_eq item.path path then some item else find path items

-- No path twice.
abbrev pub AreDistinct : List CacheItem → Type 0
AreDistinct [] = Unit
AreDistinct (item ∷ items) = (find item.path items ≡ none) × AreDistinct items

lookup_loop-find :
    (recheck : Bool) (now : ℕ) (path : Text) (size dos_stamp : ℕ) (items : List CacheItem)
    → lookup_loop recheck now path size dos_stamp items
      ≡ Option.bind (find path items) (item_crc recheck now size dos_stamp)
unfolding lookup_loop Option.bind
lookup_loop-find recheck now path size dos_stamp [] = refl
lookup_loop-find recheck now path size dos_stamp (item ∷ items) =
    elim (Bool-cases (text_eq item.path path)) [
      | inl found ↦ rw found
      | inr other ↦ rw (other, lookup_loop-find recheck now path size dos_stamp items)
    ]

-- proto_lookup_cached_crc finds the item of the path and gives its checksum if the size and the
-- time stamp agree and, where rechecks are on, the item is not too old.
pub lookup_cached_crc-find :
    (recheck : Bool) (now : ℕ) (cache : Cache) (path : Text) (size dos_stamp : ℕ)
    → cache.allocated ≡ true
    → lookup_cached_crc recheck now cache path size dos_stamp
      ≡ Option.bind (find path cache.items) (item_crc recheck now size dos_stamp)
unfolding lookup_cached_crc
lookup_cached_crc-find recheck now cache path size dos_stamp h =
    rw h (lookup_loop-find recheck now path size dos_stamp cache.items)

module _ (path : Text) (item : CacheItem) (same_path : item.path ≡ path) where
  -- An item with the path is replaced, and nothing else changes.
  pub find-update_loop :
      (items updated : List CacheItem) (q : Text)
      → update_loop path item items ≡ some updated
      → (find q updated ≡ (if text_eq path q then some item else find q items))
        × (length updated ≡ length items)
  unfolding update_loop
  find-update_loop [] updated q e = cc
  find-update_loop (old ∷ items) updated q e = elim (Bool-cases (text_eq old.path path)) [
    | inl found ↦
        let e1 : updated ≡ item ∷ items = ground arith in
        let e2 : old.path ≡ path = (text_eq_iff old.path path).0 found in
        rw (e1, same_path, e2) (ground arith)
    | inr other ↦ elim (Option-cases (update_loop path item items)) [
      | inl missing ↦ absurd (ground arith)
      | inr (rest, done) ↦
          let e1 : updated ≡ old ∷ rest = ground arith in
          let ih = find-update_loop items rest q done in
          rw e1 (
            ground
              (arith, ih, text_eq_iff old.path path, text_eq_iff old.path q, text_eq_iff path q))
    ]
  ]

  -- With no such item the update does nothing.
  pub update_loop-none :
      (items : List CacheItem) → update_loop path item items ≡ none → find path items ≡ none
  unfolding update_loop
  update_loop-none [] e = refl
  update_loop-none (old ∷ items) e = ground (arith, update_loop-none items)

  pub update_loop-some :
      (items updated : List CacheItem)
      → update_loop path item items ≡ some updated
      → (old : CacheItem) × (find path items ≡ some old)
  unfolding update_loop
  update_loop-some [] updated e = cc
  update_loop-some (old ∷ items) updated e = elim (Bool-cases (text_eq old.path path)) [
    | inl found ↦ (old, rw found)
    | inr other ↦ elim (Option-cases (update_loop path item items)) [
      | inl missing ↦ absurd (ground arith)
      | inr (rest, done) ↦ rw other (update_loop-some items rest done)
    ]
  ]

  pub find-add :
      (items : List CacheItem) (q : Text)
      → find path items ≡ none
      → find q (items ++ item ∷ []) ≡ (if text_eq path q then some item else find q items)
  find-add [] q e = rw same_path
  find-add (old ∷ items) q e = ground (
    arith,
    find-add items q,
    text_eq_iff old.path path,
    text_eq_iff old.path q,
    text_eq_iff path q,
  )

-- A forgotten path is not found, and every other path is found as before.
pub find-forget_loop :
    (path : Text) (items : List CacheItem) (q : Text)
    → AreDistinct items
    → find q (forget_loop path items) ≡ (if text_eq path q then none else find q items)
unfolding forget_loop
find-forget_loop path [] q h = ground arith
find-forget_loop path (item ∷ items) q h = elim (Bool-cases (text_eq item.path path)) [
  | inl found ↦
      let e : item.path ≡ path = (text_eq_iff item.path path).0 found in
      rw (found, e)
        (elim (Bool-cases (text_eq path q)) [
          | inl same ↦
              let e2 : path ≡ q = (text_eq_iff path q).0 same in rw same (rw (← e2, ← e) h.0)
          | inr differs ↦ rw differs
        ])
  | inr other ↦ ground (
    arith,
    find-forget_loop path items q h.1,
    text_eq_iff item.path path,
    text_eq_iff item.path q,
    text_eq_iff path q,
  )
]
