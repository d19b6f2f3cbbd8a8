-- ===== src/Download/Local.antt =====
-- What the routines on local files do with the files.
use win16sync.Prelude.{
  ℕ, zero, suc, ◌+◌, ◌<◌, ◌≡◌, ◌≢◌, refl, sym, ap, ◌∙◌, ◌⊎◌, inl, inr, Bool, true, false, not, ◌&&◌,
  Option, none, some, List, [], ◌∷◌, ◌++◌, length, take, drop, Text, arith, Bool-cases,
  append_assoc, append-nil, take_add, take-append-drop, length-drop,
}
use mathlib.Core.Path.{subst}
use win16sync.Dos.{Dos, IsDos, Same, Only, Sets, Moves, Appends, Gives}
use win16sync.Download.{
  chunk_size, write_file_timestamp, delete_local_file, copy_pieces, finish_copy, copy_bytes,
  copy_file, make_dirs,
}
use win16sync.Path.{is_empty}

take_twice : (n m : ℕ) (xs : Text) → (k : ℕ) × (take n (take m xs) ≡ take k xs)
take_twice zero m xs = (0, refl)
take_twice (suc n) zero xs = (0, refl)
take_twice (suc n) (suc m) [] = (0, refl)
take_twice (suc n) (suc m) (x ∷ xs) = let (k, e) = take_twice n m xs in (suc k, ap (◌∷◌ x) e)

pub empty_text : (xs : Text) → is_empty xs ≡ true → xs ≡ []
empty_text [] e = refl
empty_text (x ∷ xs) e = cc e

pub filled_text : (xs : Text) → is_empty xs ≡ false → 0 < length xs
filled_text [] e = absurd (cc e)
filled_text (x ∷ xs) e = omega arith

pub Gives-whole : (xs : Text) (r : Text × Bool) → Gives xs r → r.1 ≡ false → r.0 ≡ xs
Gives-whole xs (ys, false) h e = h
Gives-whole xs (ys, true) h e = absurd (cc e)

module _ {State : Type 0} (files : State → Text → Option Text) where
  -- No file but the one at `p` is changed.
  abbrev pub Others : Text → State → State → Type 0
  Others p s s' = (q : Text) → q ≢ p → files s' q ≡ files s q

  pub Sets-cases :
      {p : Text} {contents : Option Text} {s : State} (r : Bool × State)
      → Sets files p contents s r
      → ((r.0 ≡ true) × Only files p contents s r.1) ⊎ ((r.0 ≡ false) × Same files s r.1)
  Sets-cases (true, s') h = inl (refl, h)
  Sets-cases (false, s') h = inr (refl, h)

  pub Appends-cases :
      {p : Text} (xs ys : Text) {s : State} (r : Bool × State)
      → Appends files p xs ys s r
      → ((r.0 ≡ true) × Only files p (some (xs ++ ys)) s r.1)
        ⊎ ((r.0 ≡ false) × ((n : ℕ) × Only files p (some (xs ++ take n ys)) s r.1))
  Appends-cases xs ys (true, s') h = inl (refl, h)
  Appends-cases xs ys (false, s') h = inr (refl, h)

  -- What proto_delete_local_file has done. It returns 1 for a file that is not there.
  abbrev pub Deletes : Text → State → Bool × State → Type 0
  Deletes p s (true, s') = Others p s s' × ((files s' p ≡ files s p) ⊎ (files s' p ≡ none))
  Deletes p s (false, s') = Same files s s'

  pub Deletes-cases :
      {p : Text} {s : State} (r : Bool × State)
      → Deletes p s r
      → ((r.0 ≡ true) × (Others p s r.1 × ((files r.1 p ≡ files s p) ⊎ (files r.1 p ≡ none))))
        ⊎ ((r.0 ≡ false) × Same files s r.1)
  Deletes-cases (true, s') h = inl (refl, h)
  Deletes-cases (false, s') h = inr (refl, h)

  pub Moves-cases :
      {p q xs : Text} {s : State} (r : Bool × State)
      → Moves files p q xs s r
      → ((r.0 ≡ true)
          × ((files r.1 p ≡ none)
              × ((files r.1 q ≡ some xs) × ((x : Text) → x ≢ p → x ≢ q → files r.1 x ≡ files s x))))
        ⊎ ((r.0 ≡ false) × Same files s r.1)
  Moves-cases (true, s') (gone, new, others) = inl (refl, (gone, (new, others)))
  Moves-cases (false, s') h = inr (refl, h)

  -- What proto_copy_file has done, which copies `xs`.
  abbrev pub Copies : Text → Text → State → Bool × State → Type 0
  Copies p xs s (true, s') = Only files p (some xs) s s'
  Copies p xs s (false, s') =
      Others p s s'
      × ((files s' p ≡ files s p)
          ⊎ ((files s' p ≡ none) ⊎ ((n : ℕ) × (files s' p ≡ some (take n xs)))))

-- Reading a file that is open does not fail.
abbrev pub ReadsWell : Dos → Type 0
ReadsWell d = (s : d.State) (p : Text) → (d.read s p).1 ≡ false

module _ (d : Dos) (laws : IsDos d) where
  removed-Deletes :
      (p : Text) (s s' : d.State) (r : Bool × d.State)
      → Same laws.files s s'
      → Sets laws.files (laws.place p) none s' r
      → Deletes laws.files (laws.place p) s r
  removed-Deletes p s s' (true, s2) same (gone, others) = ((λ q n. others q n ∙ same q), inr gone)
  removed-Deletes p s s' (false, s2) same h = λ q. h q ∙ same q

  pub delete_local_file-Deletes :
      (p : Text) (s : d.State) → Deletes laws.files (laws.place p) s (delete_local_file d p s)
  unfolding delete_local_file
  delete_local_file-Deletes p s =
      let asked = d.has_attributes s p in
      let same = laws.has_attributes_same s p in
      elim (Bool-cases asked.0) [
        | inl there ↦ rw there (
            removed-Deletes p s (d.set_normal asked.1 p) (d.remove (d.set_normal asked.1 p) p)
              (λ q. laws.set_normal_same asked.1 p q ∙ same q)
              (laws.remove_sets (d.set_normal asked.1 p) p))
        | inr missing ↦ rw missing ((λ q _. same q), inl (same (laws.place p)))
      ]

  pub Deletes-Others :
      {p : Text} {s : d.State} (r : Bool × d.State)
      → Deletes laws.files p s r
      → Others laws.files p s r.1
  Deletes-Others (true, s') h = h.0
  Deletes-Others (false, s') h = λ q _. h q

  pub make_dirs-Same : (paths : List Text) (s : d.State) → Same laws.files s (make_dirs d paths s)
  make_dirs-Same [] s = λ q. refl
  make_dirs-Same (path ∷ paths) s =
      λ q. make_dirs-Same paths (d.make_dir s path) q ∙ laws.make_dir_same s path q

  pub write_file_timestamp-Same :
      (p : Text) (stamp : ℕ) (s : d.State) → Same laws.files s (write_file_timestamp d p stamp s).1
  unfolding write_file_timestamp
  write_file_timestamp-Same p stamp s =
      let opened = d.open_update s p in
      let same = laws.open_update_same s p in
      elim (Bool-cases opened.0) [
        | inl there ↦ rw there (λ q. laws.set_time_same opened.1 p _ _ q ∙ same q)
        | inr missing ↦ rw missing same
      ]

  Only-trans :
      {p : Text} {a b : Option Text} {s s' s2 : d.State}
      → Only laws.files p a s s'
      → Only laws.files p b s' s2
      → Only laws.files p b s s2
  Only-trans (e, others) (e', others') = (e', (λ q n. others' q n ∙ others q n))

  -- The rest of a copy after its first piece.
  Appends-rest :
      (p done bytes : Text) (k : ℕ) (s s' : d.State) (r : Bool × d.State)
      → Only laws.files p (some (done ++ take k bytes)) s s'
      → Appends laws.files p (done ++ take k bytes) (drop k bytes) s' r
      → Appends laws.files p done bytes s r
  Appends-rest p done bytes k s s' (true, s2) first rest =
      let whole =
        append_assoc done (take k bytes) (drop k bytes)
        ∙ ap (◌++◌ done) (take-append-drop k bytes) in
      Only-trans first (rest.0 ∙ ap some whole, rest.1)
  Appends-rest p done bytes k s s' (false, s2) first (n, rest) =
      let part =
        append_assoc done (take k bytes) (take n (drop k bytes))
        ∙ ap (◌++◌ done) (sym (take_add k n bytes)) in
      (k + n, Only-trans first (rest.0 ∙ ap some part, rest.1))

  copy_pieces-Appends :
      (rounds : ℕ) (path bytes done : Text) (s : d.State)
      → length bytes < rounds
      → laws.files s (laws.place path) ≡ some done
      → Appends laws.files (laws.place path) done bytes s (copy_pieces d rounds path bytes s)
  unfolding copy_pieces
  copy_pieces-Appends zero path bytes done s enough there = absurd (omega arith)
  copy_pieces-Appends (suc rounds) path bytes done s enough there =
      let piece = take chunk_size bytes in
      let r = d.write s path piece in
      elim (Bool-cases (is_empty bytes)) [
        | inl empty ↦
            rw (empty)
              (rw (empty_text bytes empty) (there ∙ ap some (sym (append-nil done)), λ q n. refl))
        | inr filled ↦
            elim (Appends-cases laws.files done piece r
              (laws.write_appends s path done piece there)) [
                | inl (written, only) ↦
                    rw (filled, written)
                      (Appends-rest (laws.place path) done bytes chunk_size s r.1
                        (copy_pieces d rounds path (drop chunk_size bytes) r.1) only
                        (copy_pieces-Appends rounds path (drop chunk_size bytes) (done ++ piece) r.1
                          (omega (arith, length-drop chunk_size bytes, filled_text bytes filled))
                          only.0))
                | inr (stopped, (n, only)) ↦
                    let (k, e) = take_twice n chunk_size bytes in
                    rw (filled, stopped) (k, (only.0 ∙ ap (λ t. some (done ++ t)) e, only.1))
              ]
      ]

  -- A target that is not whole is removed, if that succeeds.
  finish_copy-Copies :
      (path bytes : Text) (error : Bool) (s : d.State) (r : Bool × d.State)
      → Appends laws.files (laws.place path) [] bytes s r
      → error ≡ false
      → Copies laws.files (laws.place path) bytes s (finish_copy d path (r.0 && not error, r.1))
  unfolding finish_copy
  finish_copy-Copies path bytes error s (true, s') h e = rw e h
  finish_copy-Copies path bytes error s (false, s') (n, (part, others)) e =
      elim (Sets-cases laws.files (d.remove s' path) (laws.remove_sets s' path)) [
        | inl (_, (gone, same)) ↦ ((λ q m. same q m ∙ others q m), inr (inl gone))
        | inr (_, same) ↦
            ((λ q m. same q ∙ others q m), inr (inr (n, same (laws.place path) ∙ part)))
      ]

  Copies-after :
      (p bytes : Text) (s s' : d.State) (r : Bool × d.State)
      → Only laws.files p (some []) s s'
      → Copies laws.files p bytes s' r
      → Copies laws.files p bytes s r
  Copies-after p bytes s s' (true, s2) only h = Only-trans only h
  Copies-after p bytes s s' (false, s2) (empty, others) (later, h) = (
    (λ q n. later q n ∙ others q n),
    elim h [ inl same ↦ inr (inr (0, same ∙ empty)) | inr rest ↦ inr rest ],
  )

  copy_bytes-Copies :
      (path bytes : Text) (error : Bool) (s : d.State)
      → laws.files s (laws.place path) ≡ some []
      → error ≡ false
      → Copies laws.files (laws.place path) bytes s (copy_bytes d path (bytes, error) s)
  unfolding copy_bytes
  copy_bytes-Copies path bytes error s empty e =
      finish_copy-Copies path bytes error s (copy_pieces d (suc (length bytes)) path bytes s)
        (copy_pieces-Appends (suc (length bytes)) path bytes [] s (omega arith) empty) e

  pub copy_file-Copies :
      (source target bytes : Text) (s : d.State)
      → ReadsWell d
      → laws.place source ≢ laws.place target
      → laws.files s (laws.place source) ≡ some bytes
      → Copies laws.files (laws.place target) bytes s (copy_file d source target s)
  unfolding copy_file
  copy_file-Copies source target bytes s well apart there =
      let s1 = (d.open_read s source).1 in
      let same1 = laws.open_read_same s source in
      let s2 = (d.create s1 target).1 in
      let s3 = (d.malloc s2).1 in
      let same3 = laws.malloc_same s2 in
      elim (Bool-cases (d.open_read s source).0) [
        | inr missing ↦ rw missing ((λ q _. same1 q), inl (same1 (laws.place target)))
        | inl opened ↦
            elim (Sets-cases laws.files (d.create s1 target) (laws.create_sets s1 target)) [
              | inr (stopped, same) ↦
                  rw (opened, stopped)
                    (
                      (λ q _. same q ∙ same1 q),
                      inl (same (laws.place target) ∙ same1 (laws.place target)),
                    )
              | inl (created, (empty, others)) ↦
                  let made : Only laws.files (laws.place target) (some []) s s3 =
                    (same3 (laws.place target) ∙ empty, (λ q n. same3 q ∙ others q n ∙ same1 q)) in
                  elim (Bool-cases (d.malloc s2).0) [
                    | inr full ↦ rw (opened, created, full) (made.1, inr (inr (0, made.0)))
                    | inl room ↦
                        let got = d.read s3 source in
                        let whole =
                          Gives-whole bytes got
                            (laws.read_gives s3 source bytes
                              (made.1 (laws.place source) apart ∙ there))
                            (well s3 source) in
                        rw (opened, created, room)
                          (Copies-after (laws.place target) bytes s s3 (copy_bytes d target got s3)
                            made
                            (subst
                              (λ t.
                                Copies laws.files (laws.place target) t s3
                                  (copy_bytes d target got s3))
                              whole
                              (copy_bytes-Copies target got.0 got.1 s3 made.0 (well s3 source))))
                  ]
            ]
      ]
