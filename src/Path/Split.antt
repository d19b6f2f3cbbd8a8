-- ===== src/Path/Split.antt =====
-- Splitting a path at its last separator, and what is built from the split: the temporary file
-- beside a file, and the directories above it.
use native.Mathlib.Nat.{add-zero, zero-add}
use win16sync.Prelude.{
  ℕ, zero, suc, ◌+◌, ◌-◌, ◌≤◌, ◌<◌, ◌≡◌, refl, sym, ap, ◌∙◌, true, false, none, some, [], ◌∷◌, ◌++◌,
  arith, ltb, if◌then◌else◌, Bool-cases, inl, inr, length, get_or, take, length-append, take_front,
  take_all, get_or_back, append_assoc, All, Text,
}
use win16sync.Text.Laws.{copy_text-take, append_text_lem}
use win16sync.Text.{copy_text, append_text}
use win16sync.Path.{
  temp_name, local_path_capacity, is_separator, is_empty, directory_loop, get_directory_path,
  name_loop, path_name, temp_loop, build_temp_path, parents_loop, ensure_parent_dirs,
}

-- A single name: no separator in it.
abbrev pub IsName : Text → Type 0
IsName = All (λ c. is_separator c ≡ false)

pub IsName-get_or : (name : Text) (i : ℕ) → IsName name → is_separator (get_or name i 0) ≡ false
IsName-get_or [] i h = refl
IsName-get_or (c ∷ name) zero h = h.0
IsName-get_or (c ∷ name) (suc i) h = IsName-get_or name i h.1

module _ (dir : Text) (c : ℕ) (name : Text) (sep : is_separator c ≡ true) (h : IsName name) where
  -- The character at `index` behind the directory.
  at_separator :
      (index : ℕ) → index ≡ length dir → is_separator (get_or (dir ++ c ∷ name) index 0) ≡ true
  at_separator index e = rw (get_or_back dir (c ∷ name) index 0 0 (omega arith)) sep

  behind_separator :
      (index : ℕ) → length dir < index → is_separator (get_or (dir ++ c ∷ name) index 0) ≡ false
  behind_separator index lt =
      rw (get_or_back dir (c ∷ name) index (suc (index - length dir - 1)) 0 (omega arith))
        (IsName-get_or name (index - length dir - 1) h)

  directory_loop_split :
      (index : ℕ) → length dir < index → directory_loop (dir ++ c ∷ name) index ≡ dir
  unfolding directory_loop
  directory_loop_split zero lt = absurd (omega arith)
  directory_loop_split (suc index) lt = elim (Bool-cases (ltb (length dir) index)) [
    | inl more ↦
        let more' : length dir < index = ground arith in
        rw (behind_separator index more') (directory_loop_split index more')
    | inr last ↦
        let here : index ≡ length dir = ground arith in
        rw (at_separator index here) (take_front dir (c ∷ name) index here)
  ]

  temp_loop_split :
      (index capacity : ℕ)
      → length dir < index
      → temp_loop (dir ++ c ∷ name) index capacity ≡ append_text (dir ++ c ∷ []) temp_name capacity
  unfolding temp_loop
  temp_loop_split zero capacity lt = absurd (omega arith)
  temp_loop_split (suc index) capacity lt = elim (Bool-cases (ltb (length dir) index)) [
    | inl more ↦
        let more' : length dir < index = ground arith in
        rw (behind_separator index more') (temp_loop_split index capacity more')
    | inr last ↦
        let here : index ≡ length dir = ground arith in
        let e : index + 1 ≡ length (dir ++ c ∷ []) = omega (arith, length-append dir (c ∷ [])) in
        rw (at_separator index here) (
          ap (λ t. append_text t temp_name capacity)
            (ap (take (index + 1)) (sym (append_assoc dir (c ∷ []) name))
              ∙ take_front (dir ++ c ∷ []) name (index + 1) e))
  ]

name_loop_end : (kept path : Text) → IsName path → name_loop kept path ≡ kept
unfolding name_loop
name_loop_end kept [] h = refl
name_loop_end kept (c ∷ path) h = rw h.0 (name_loop_end kept path h.1)

name_loop_split :
    (kept dir : Text) (c : ℕ) (name : Text)
    → is_separator c ≡ true
    → IsName name
    → name_loop kept (dir ++ c ∷ name) ≡ name
unfolding name_loop
name_loop_split kept [] c name sep h = rw (sep, name_loop) (name_loop_end name name h)
name_loop_split kept (d ∷ dir) c name sep h =
    name_loop_split (if is_separator d then dir ++ c ∷ name else kept) dir c name sep h

-- A path is cut at its last separator: proto_get_directory_path keeps what stands before it and
-- proto_path_name what stands behind it.
pub directory-name_split :
    (dir : Text) (c : ℕ) (name : Text)
    → is_separator c ≡ true
    → IsName name
    → (get_directory_path (dir ++ c ∷ name) ≡ dir) × (path_name (dir ++ c ∷ name) ≡ name)
unfolding get_directory_path path_name
directory-name_split dir c name sep h = (
  directory_loop_split dir c name sep h (length (dir ++ c ∷ name))
      (omega (arith, length-append dir (c ∷ name))),
  name_loop_split (dir ++ c ∷ name) dir c name sep h,
)

pub is_empty-append : (dir : Text) (c : ℕ) (name : Text) → is_empty (dir ++ c ∷ name) ≡ false
is_empty-append [] c name = refl
is_empty-append (d ∷ dir) c name = refl

copy_text_whole :
    (path : Text) (capacity : ℕ) → length path < capacity → copy_text [] path capacity ≡ path
copy_text_whole path capacity fits =
    copy_text-take [] path capacity (omega arith) ∙ take_all (capacity - 1) path (omega arith)

-- For a path with a separator that fits its array, the temporary name stands in the directory of
-- the file, behind its last separator, exactly when that leaves room for it with its terminator;
-- else proto_build_temp_path fails.
pub build_temp_path-beside :
    (capacity : ℕ) (dir : Text) (c : ℕ) (name : Text)
    → is_separator c ≡ true
    → IsName name
    → length (dir ++ c ∷ name) < capacity
    → build_temp_path capacity (dir ++ c ∷ name)
      ≡ (if ltb (length dir + 9) capacity then some (dir ++ c ∷ temp_name) else none)
unfolding build_temp_path
build_temp_path-beside capacity dir c name sep h fits =
    let path = dir ++ c ∷ name in
    let here = length-append dir (c ∷ []) in
    let longer = length-append dir (c ∷ name) in
    rw
      (
        is_empty-append dir c name,
        copy_text_whole path capacity fits,
        temp_loop_split dir c name sep h (length path) capacity (omega arith),
        append_text_lem (dir ++ c ∷ []) temp_name capacity (omega arith),
        append_assoc dir (c ∷ []) temp_name,
      )
      (ground (arith, here))

take_append_le : (xs ys : Text) (n : ℕ) → n ≤ length xs → take n (xs ++ ys) ≡ take n xs
take_append_le xs ys zero h = refl
take_append_le [] ys (suc n) h = absurd (omega arith)
take_append_le (x ∷ xs) ys (suc n) h = ap (◌∷◌ x) (take_append_le xs ys n (omega arith))

parents_loop-append :
    (buffer : Text) (index : ℕ) (xs ys : Text)
    → parents_loop buffer index (xs ++ ys)
      ≡ parents_loop buffer index xs ++ parents_loop buffer (index + length xs) ys
unfolding parents_loop
parents_loop-append buffer index [] ys = rw (add-zero index)
parents_loop-append buffer index (x ∷ xs) ys =
    let e : index + suc (length xs) ≡ index + 1 + length xs = omega arith in
    rw (e, parents_loop-append buffer (index + 1) xs ys) (ground arith)

parents_loop_front :
    (dir more : Text) (index : ℕ) (xs : Text)
    → index + length xs ≤ length dir
    → parents_loop (dir ++ more) index xs ≡ parents_loop dir index xs
unfolding parents_loop
parents_loop_front dir more index [] h = refl
parents_loop_front dir more index (x ∷ xs) h =
    ground (arith, take_append_le dir more index, parents_loop_front dir more (index + 1) xs)

parents_loop_end :
    (buffer : Text) (index : ℕ) (name : Text) → IsName name → parents_loop buffer index name ≡ []
unfolding parents_loop
parents_loop_end buffer index [] h = refl
parents_loop_end buffer index (c ∷ name) h = rw h.0 (parents_loop_end buffer (index + 1) name h.1)

last_parent :
    (dir : Text) (c : ℕ) (name : Text)
    → is_separator c ≡ true
    → IsName name
    → parents_loop (dir ++ c ∷ name) (length dir) (c ∷ name)
      ≡ (if ltb 2 (length dir) then dir ∷ [] else [])
unfolding parents_loop
last_parent dir c name sep h = rw (
  sep,
  parents_loop_end (dir ++ c ∷ name) (length dir + 1) name h,
  take_front dir (c ∷ name) (length dir) refl,
)

-- Of a path with a separator and fewer than 144 characters, proto_ensure_parent_dirs asks for the
-- directories above the file from the outermost on, each after those above it, and last for the one
-- that holds the file. One of at most two characters, a drive, is left out.
pub ensure_parent_dirs-split :
    (dir : Text) (c : ℕ) (name : Text)
    → is_separator c ≡ true
    → IsName name
    → length (dir ++ c ∷ name) < local_path_capacity
    → ensure_parent_dirs (dir ++ c ∷ name)
      ≡ ensure_parent_dirs dir ++ (if ltb 2 (length dir) then dir ∷ [] else [])
unfolding ensure_parent_dirs
ensure_parent_dirs-split dir c name sep h fits =
    let buffer = dir ++ c ∷ name in
    let longer = length-append dir (c ∷ name) in
    let last : parents_loop buffer (length dir) (c ∷ name)
        ≡ (if ltb 2 (length dir) then dir ∷ [] else []) =
      last_parent dir c name sep h in
    rw (
      copy_text_whole buffer 144 fits,
      copy_text_whole dir 144 (omega arith),
      parents_loop-append buffer 0 dir (c ∷ name),
      parents_loop_front dir (c ∷ name) 0 dir (omega arith),
      zero-add (length dir),
      last,
    )
