-- ===== src/Path/Join.antt =====
-- Joined paths, and protocol paths under a root directory, against their lengths and contents.
use win16sync.Prelude.{
  ℕ, zero, suc, ◌+◌, ◌-◌, ◌<◌, ◌≡◌, refl, ap, ◌∙◌, false, ◌&&◌, not, none, some, [], ◌∷◌, ◌++◌, map,
  arith, ltb, leb, if◌then◌else◌, Bool-cases, inl, inr, length, get_or, length-append, take_front,
  get_or_back, append_assoc, append-nil, Text, map_append, length-map,
}
use win16sync.Text.Laws.{append_text_lem}
use win16sync.Path.{
  is_separator, ends_in_separator, is_empty, local_join, to_local, convert_loop, drop_backslash,
  protocol_to_local,
}
use win16sync.Path.Split.{IsName, is_empty-append}

-- `left`, a backslash unless it is empty or ends in a separator, and `right`.
abbrev pub joined : Text → Text → Text
joined left right =
    if not (is_empty left) && not (ends_in_separator left)
    then left ++ (b'\\' ∷ right)
    else left ++ right

-- proto_local_join gives the joined path exactly when it fits with its terminator.
pub local_join-joined :
    (capacity : ℕ) (left right : Text)
    → local_join capacity left right
      ≡ (if ltb (length (joined left right)) capacity then some (joined left right) else none)
unfolding local_join
local_join-joined capacity left right =
    elim (Bool-cases (not (is_empty left) && not (ends_in_separator left))) [
      | inl separate ↦ rw separate (
          ground (
            arith,
            append_text_lem [] left capacity,
            append_text_lem left (b'\\' ∷ []) capacity,
            append_text_lem (left ++ b'\\' ∷ []) right capacity,
            length-append left (b'\\' ∷ []),
            length-append left (b'\\' ∷ right),
            length-append (left ++ b'\\' ∷ []) right,
            append_assoc left (b'\\' ∷ []) right,
          ))
      | inr plain ↦ rw plain (
          ground (
            arith,
            append_text_lem [] left capacity,
            append_text_lem left right capacity,
            length-append left right,
          ))
    ]

convert_loop_lem :
    (path : Text) (n capacity : ℕ)
    → n < capacity
    → convert_loop path n capacity
      ≡ (if ltb (n + length path) capacity then some (map to_local path) else none)
unfolding convert_loop
convert_loop_lem [] n capacity h = ground arith
convert_loop_lem (c ∷ path) n capacity h = elim (Bool-cases (leb capacity (n + 1))) [
  | inl full ↦ rw full (ground arith)
  | inr more ↦ rw more (rw (convert_loop_lem path (n + 1) capacity (ground arith)) (ground arith))
]

-- A directory that is written with no separator at its end.
abbrev pub IsDirectory : Text → Type 0
IsDirectory dir = (is_empty dir ≡ false) × (ends_in_separator dir ≡ false)

pub ends_in_separator-append :
    (xs : Text) (y : ℕ) (ys : Text) → ends_in_separator (xs ++ y ∷ ys) ≡ ends_in_separator (y ∷ ys)
ends_in_separator-append xs y ys = ap is_separator (
    get_or_back xs (y ∷ ys) (length (xs ++ y ∷ ys) - 1) (length (y ∷ ys) - 1) 0
      (omega (arith, length-append xs (y ∷ ys))))

drop_backslash-append : (dir : Text) → drop_backslash (dir ++ b'\\' ∷ []) ≡ dir
drop_backslash-append dir =
    let n = length-append dir (b'\\' ∷ []) in
    let e : length (dir ++ b'\\' ∷ []) - 1 ≡ length dir = omega (arith, n) in
    let m : length dir ≡ length dir + 0 = omega arith in
    rw (
      e,
      get_or_back dir (b'\\' ∷ []) (length dir) 0 0 m,
      take_front dir (b'\\' ∷ []) (length dir) refl,
      is_empty-append dir b'\\' [],
    )

-- Under a directory that is not empty and does not end in a separator, a protocol path with a
-- character is that directory, a backslash and the path with every slash turned, exactly when this
-- fits with its terminator.
pub protocol_to_local_lem :
    (capacity : ℕ) (root : Text) (c : ℕ) (path : Text)
    → IsDirectory root
    → protocol_to_local capacity root (c ∷ path) ≡ (
        if ltb (length root + 2 + length path) capacity
        then some (root ++ (b'\\' ∷ map to_local (c ∷ path)))
        else none)
unfolding protocol_to_local
protocol_to_local_lem capacity root c path h =
    let n = length-append root (b'\\' ∷ []) in
    rw (protocol_to_local, local_join-joined capacity root [], h.0, h.1)
      (ground (
        arith,
        n,
        drop_backslash-append root,
        convert_loop_lem (c ∷ path) (length (root ++ b'\\' ∷ [])) capacity,
        append_assoc root (b'\\' ∷ []) (map to_local (c ∷ path)),
      ))

-- One backslash behind a root that is not empty and has no separator at its end makes no
-- difference to proto_protocol_to_local.
pub protocol_to_local_root :
    (capacity : ℕ) (root path : Text)
    → IsDirectory root
    → protocol_to_local capacity (root ++ b'\\' ∷ []) path ≡ protocol_to_local capacity root path
unfolding protocol_to_local
protocol_to_local_root capacity root path h = rw (
  protocol_to_local,
  local_join-joined capacity root [],
  local_join-joined capacity (root ++ b'\\' ∷ []) [],
  h.0,
  h.1,
  is_empty-append root b'\\' [],
  ends_in_separator-append root b'\\' [],
  append-nil (root ++ b'\\' ∷ []),
)

pub IsName-map-to_local : (name : Text) → IsName name → map to_local name ≡ name
IsName-map-to_local [] h = refl
IsName-map-to_local (c ∷ name) h = ground (arith, IsName-map-to_local name h.1)

get_or-map-to_local :
    (path : Text) (i : ℕ)
    → is_separator (get_or (map to_local path) i 0) ≡ is_separator (get_or path i 0)
get_or-map-to_local [] i = refl
get_or-map-to_local (c ∷ path) zero = ground arith
get_or-map-to_local (c ∷ path) (suc i) = get_or-map-to_local path i

-- Under a root that is not empty and does not end in a separator, the local name that the scan
-- builds for an entry of a directory, and the one that the protocol path of the entry gives, are
-- the same; the path of the directory does not end in a separator, and the name has none.
pub protocol_to_local-local_join :
    (capacity : ℕ) (root : Text) (c : ℕ) (prefix name : Text) {dir : Text}
    → IsDirectory root
    → ends_in_separator (c ∷ prefix) ≡ false
    → IsName name
    → protocol_to_local capacity root (c ∷ prefix) ≡ some dir
    → protocol_to_local capacity root (c ∷ prefix ++ b'/' ∷ name) ≡ local_join capacity dir name
protocol_to_local-local_join capacity root c prefix name {dir} h e n found =
    let found' = rw (protocol_to_local_lem capacity root c prefix h) at found in
    let local = map to_local (c ∷ prefix) in
    let e1 : dir ≡ root ++ (b'\\' ∷ local) = ground arith in
    let e2 : ends_in_separator (root ++ (b'\\' ∷ local)) ≡ false =
      ends_in_separator-append root b'\\' local
      ∙ ends_in_separator-append (b'\\' ∷ []) (to_local c) (map to_local prefix)
      ∙ get_or-map-to_local (c ∷ prefix) (length local - 1)
      ∙ rw (length-map to_local prefix) e in
    rw
      (
        protocol_to_local_lem capacity root c (prefix ++ b'/' ∷ name) h,
        local_join-joined capacity dir name,
        e1,
        is_empty-append root b'\\' local,
        e2,
      )
      (ground (
        arith,
        IsName-map-to_local name n,
        map_append to_local prefix (b'/' ∷ name),
        length-append prefix (b'/' ∷ name),
        length-append (root ++ (b'\\' ∷ local)) (b'\\' ∷ name),
        length-append root (b'\\' ∷ local),
        length-map to_local prefix,
        append_assoc root (b'\\' ∷ local) (b'\\' ∷ name),
      ))
