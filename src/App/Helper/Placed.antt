-- ===== src/App/Helper/Placed.antt =====
-- What the update mode of client/main.c leaves of the files.
use mathlib.Core.Path.{subst}
use win16sync.Prelude.{
  ℕ, zero, suc, ◌+◌, ◌-◌, ◌%◌, ◌^◌, ◌≡◌, ◌≢◌, refl, sym, ap, ◌∙◌, ◌&&◌, ◌||◌, not, Bool, true,
  false, Option, none, some, [], ◌∷◌, leb, ◌==◌, if◌then◌else◌, length, take, Text, arith,
  Bool-cases, inl, inr,
}
use win16sync.App.Helper.{
  UpdateEnd, placed, refused, waiting, update_retry_ms, update_wait_ms, beside, app_delete_file,
  load_file, write_file, try_install, try_when, install_loop, finish_update, install_loaded,
  update_from, place_update,
}
use win16sync.Dos.{Dos, IsDos, Same, Only, Gives}
use win16sync.Download.{delete_local_file}
use win16sync.Download.Local.{
  Others, Sets-cases, Appends-cases, Deletes-Others, delete_local_file-Deletes,
}
use win16sync.Path.{is_empty}
use win16sync.Update.{update_ini_name}

take_whole :
    (n k : ℕ) (xs : Text) → length (take n (take k xs)) ≡ n → take n (take k xs) ≡ take n xs
take_whole zero k xs e = refl
take_whole (suc n) zero xs e = absurd (omega (arith, e))
take_whole (suc n) (suc k) [] e = refl
take_whole (suc n) (suc k) (x ∷ xs) e = ap (◌∷◌ x) (take_whole n k xs (omega (arith, e)))

take-take : (n : ℕ) (xs : Text) → take n (take n xs) ≡ take n xs
take-take zero xs = refl
take-take (suc n) [] = refl
take-take (suc n) (x ∷ xs) = ap (◌∷◌ x) (take-take n xs)

and_equal : (b : Bool) (m n : ℕ) → b && m == n ≡ true → m ≡ n
and_equal true m n e = ground arith
and_equal false m n e = absurd (cc e)

-- The part of a program that 16 bits count.
abbrev pub counted : Text → Text
counted program = take (length program % 2 ^ 16) program

read_counted :
    (n : ℕ) (xs : Text) (r : Text × Bool)
    → Gives xs r
    → length (take n r.0) ≡ n
    → take n r.0 ≡ take n xs
read_counted n xs (ys, false) h e = ap (take n) h
read_counted n xs (ys, true) (k, h) e =
    ap (take n) h ∙ take_whole n k xs (ap (λ zs. length (take n zs)) (sym h) ∙ e)

module _ (d : Dos) (laws : IsDos d) where
  delete-Others :
      (p : Text) (s : d.State) → Others laws.files (laws.place p) s (app_delete_file d p s).1
  unfolding app_delete_file
  delete-Others p s = elim (Bool-cases (is_empty p)) [
    | inl empty ↦ rw empty (λ q _. refl)
    | inr filled ↦
        rw filled
          (Deletes-Others d laws (delete_local_file d p s) (delete_local_file-Deletes d laws p s))
  ]

  -- What app_write_file has done with `piece`.
  abbrev Writes : Text → Text → d.State → Bool × d.State → Type 0
  Writes p piece s (true, s') = Only laws.files p (some piece) s s'
  Writes p piece s (false, s') = Others laws.files p s s'

  write_file-Writes :
      (target bytes : Text) (n : ℕ) (s : d.State)
      → Writes (laws.place target) (take (n % 2 ^ 16) bytes) s (write_file d target bytes n s)
  unfolding write_file
  write_file-Writes target bytes n s =
      let piece = take (n % 2 ^ 16) bytes in
      let r1 = d.create s target in
      let r2 = d.write r1.1 target piece in
      elim (Sets-cases laws.files r1 (laws.create_sets s target)) [
        | inr (stopped, same) ↦ rw stopped (λ q _. same q)
        | inl (opened, (made, others)) ↦ elim (Bool-cases (n == 0)) [
          | inl nothing ↦
              let none_of : n ≡ 0 = ground arith in
              rw (opened, nothing)
                (made ∙ ap (λ k. some (take (k % 2 ^ 16) bytes)) (sym none_of), others)
          | inr filled ↦
              elim (Appends-cases laws.files [] piece r2
                (laws.write_appends r1.1 target [] piece made)) [
                  | inl (written, (whole, others')) ↦
                      rw (opened, filled, written) (whole, λ q m. others' q m ∙ others q m)
                  | inr (short, (k, (part, others'))) ↦
                      rw (opened, filled, short)
                        (λ q m. delete-Others target r2.1 q m ∙ others' q m ∙ others q m)
                ]
        ]
      ]

  Writes-after :
      {p : Text} (piece : Text) {s s' : d.State} (r : Bool × d.State)
      → Others laws.files p s s'
      → Writes p piece s' r
      → Writes p piece s r
  Writes-after piece (true, s2) before (whole, others) = (whole, λ q m. others q m ∙ before q m)
  Writes-after piece (false, s2) before others = λ q m. others q m ∙ before q m

  try_install-Writes :
      (target bytes : Text) (n : ℕ) (s : d.State)
      → Writes (laws.place target) (take (n % 2 ^ 16) bytes) s (try_install d target bytes n s)
  unfolding try_install
  try_install-Writes target bytes n s =
      let s1 = (app_delete_file d target s).1 in
      Writes-after (take (n % 2 ^ 16) bytes) (write_file d target bytes n s1)
        (delete-Others target s) (write_file-Writes target bytes n s1)

  Writes-Others :
      {p : Text} (piece : Text) {s : d.State} (r : Bool × d.State)
      → Writes p piece s r
      → Others laws.files p s r.1
  Writes-Others piece (true, s2) h = h.1
  Writes-Others piece (false, s2) h = h

  -- What the loop has done.
  abbrev Installs : Text → Text → d.State → Option Bool × d.State → Type 0
  Installs p piece s (some true, s') = Only laws.files p (some piece) s s'
  Installs p piece s (some false, s') = Others laws.files p s s'
  Installs p piece s (none, s') = Others laws.files p s s'

  Installs-after :
      {p : Text} (piece : Text) {s s' : d.State} (r : Option Bool × d.State)
      → Others laws.files p s s'
      → Installs p piece s' r
      → Installs p piece s r
  Installs-after piece (some true, s2) before (whole, others) =
      (whole, λ q m. others q m ∙ before q m)
  Installs-after piece (some false, s2) before others = λ q m. others q m ∙ before q m
  Installs-after piece (none, s2) before others = λ q m. others q m ∙ before q m

  -- One round: it has written, or its time is over, or the loop goes on.
  round_Installs :
      (p piece : Text) (s : d.State) (over : Bool) (r : Bool × d.State)
      (rest : Option Bool × d.State)
      → Writes p piece s r
      → Installs p piece r.1 rest
      → Installs p piece s
          (if r.0 then (some true, r.1) else if over then (some false, r.1) else rest)
  round_Installs p piece s over (true, s') rest h later = h
  round_Installs p piece s true (false, s') rest h later = h
  round_Installs p piece s false (false, s') rest h later = Installs-after piece rest h later

  try_when-Writes :
      (due : Bool) (target bytes : Text) (n : ℕ) (s : d.State)
      → Writes (laws.place target) (take (n % 2 ^ 16) bytes) s (try_when d due target bytes n s)
  try_when-Writes true target bytes n s = try_install-Writes target bytes n s
  try_when-Writes false target bytes n s = λ q _. refl

  install_loop-Installs :
      (rounds : ℕ) (target bytes : Text) (n started last : ℕ) (s : d.State)
      → Installs
          (laws.place target)
          (take (n % 2 ^ 16) bytes)
          s
          (install_loop d rounds target bytes n started last s)
  unfolding install_loop
  install_loop-Installs zero target bytes n started last s = λ q _. refl
  install_loop-Installs (suc rounds) target bytes n started last s =
      let piece = take (n % 2 ^ 16) bytes in
      let (now, s1) = d.ticks s in
      let due = last == 0 || leb update_retry_ms ((now + 2 ^ 32 - last) % 2 ^ 32) in
      let r = try_when d due target bytes n s1 in
      round_Installs (laws.place target) piece s
        (leb update_wait_ms ((now + 2 ^ 32 - started) % 2 ^ 32)) r
        (install_loop d rounds target bytes n started (if due then now else last) r.1)
        (Writes-after piece r (λ q _. laws.ticks_same s q) (try_when-Writes due target bytes n s1))
        (install_loop-Installs rounds target bytes n started (if due then now else last) r.1)

  module _ (size : d.State → Text → ℕ)
      (size_whole : (s : d.State) (p xs : Text)
        → laws.files s (laws.place p) ≡ some xs
        → size s p ≡ length xs) where
    -- What app_load_file gives of `program`.
    abbrev Loads : Text → d.State → Option (Text × ℕ) × d.State → Type 0
    Loads program s (some (bytes, n), s') =
        (bytes ≡ counted program) × (n ≡ length program) × Same laws.files s s'
    Loads program s (none, s') = Same laws.files s s'

    load_file-Loads :
        (path program : Text) (s : d.State)
        → laws.files s (laws.place path) ≡ some program
        → Loads program s (load_file d size path s)
    unfolding load_file
    load_file-Loads path program s found =
        let r1 = d.open_read s path in
        let same = laws.open_read_same s path in
        let found1 = same (laws.place path) ∙ found in
        let n = size r1.1 path in
        let whole = size_whole r1.1 path program found1 in
        let r2 = d.malloc r1.1 in
        let same2 = laws.malloc_same r1.1 in
        let found2 = same2 (laws.place path) ∙ found1 in
        let bytes = take (n % 2 ^ 16) (d.read r2.1 path).0 in
        elim (Bool-cases (is_empty path)) [
          | inl empty ↦ rw empty (λ q. refl)
          | inr filled ↦ elim (Bool-cases (not r1.0 || n == 0)) [
            | inl stopped ↦ rw (filled, stopped) (λ q. same q)
            | inr opened ↦ elim (Bool-cases (r2.0 && length bytes == n % 2 ^ 16)) [
              | inr failed ↦ rw (filled, opened, failed) (λ q. same2 q ∙ same q)
              | inl read ↦
                  let all_read : length bytes ≡ n % 2 ^ 16 =
                    and_equal r2.0 (length bytes) (n % 2 ^ 16) read in
                  rw (filled, opened, read)
                    (
                      read_counted (n % 2 ^ 16) program (d.read r2.1 path)
                            (laws.read_gives r2.1 path program found2) all_read
                          ∙ ap (λ k. take (k % 2 ^ 16) program) whole,
                      whole,
                      λ q. same2 q ∙ same q,
                    )
            ]
          ]
        ]

    -- The end of an update of the client at `target`: the program is there, as far as 16 bits
    -- count its bytes, and no other file but the control file has changed; or no file has changed
    -- but the one at `target`.
    abbrev pub Places : Text → Text → Text → d.State → UpdateEnd × d.State → Type 0
    Places target ini program s (placed t, s') =
        (t ≡ target)
        × (laws.files s' (laws.place target) ≡ some (counted program))
        × ((q : Text)
            → q ≢ laws.place target
            → q ≢ laws.place ini
            → laws.files s' q ≡ laws.files s q)
    Places target ini program s (refused message, s') = Others laws.files (laws.place target) s s'
    Places target ini program s (waiting, s') = Others laws.files (laws.place target) s s'

    finish_update-Places :
        (target ini program : Text) (s : d.State) (r : Option Bool × d.State)
        → laws.place ini ≢ laws.place target
        → Installs (laws.place target) (counted program) s r
        → Places target ini program s (finish_update d ini target r)
    unfolding finish_update
    finish_update-Places target ini program s (none, s') apart h = h
    finish_update-Places target ini program s (some false, s') apart h = h
    finish_update-Places target ini program s (some true, s') apart (whole, others) =
        let gone = delete-Others ini s' in
        (
          refl,
          gone (laws.place target) (λ e. apart (sym e)) ∙ whole,
          λ q m m'. gone q m' ∙ others q m,
        )

    install_loaded-Places :
        (rounds : ℕ) (target ini program : Text) (s : d.State) (r : Option (Text × ℕ) × d.State)
        → laws.place ini ≢ laws.place target
        → Loads program s r
        → Places target ini program s (install_loaded d rounds ini target r)
    unfolding install_loaded
    install_loaded-Places rounds target ini program s (none, s') apart same = λ q _. same q
    install_loaded-Places rounds target ini program s (some (bytes, n), s') apart
          (part, whole, same) =
        let (started, s2) = d.ticks s' in
        let r = install_loop d rounds target bytes n started 0 s2 in
        let piece : take (n % 2 ^ 16) bytes ≡ counted program =
          ap (λ k. take (k % 2 ^ 16) bytes) whole
          ∙ ap (take (length program % 2 ^ 16)) part
          ∙ take-take (length program % 2 ^ 16) program in
        let done = install_loop-Installs rounds target bytes n started 0 s2 in
        let before : Same laws.files s s2 = λ q. laws.ticks_same s' q ∙ same q in
        finish_update-Places target ini program s r apart (
          subst (λ x. Installs (laws.place target) x s r) piece
            (Installs-after (take (n % 2 ^ 16) bytes) r (λ q _. before q) done))

    -- With a size that `ftell` gives as it is, and the program, its control file and the target
    -- where they are to be, the control file not the target itself: after any number of rounds
    -- the update mode has put the program in place of the target, but of its bytes only as many as
    -- 16 bits count, and changed no other file but the control file; or it has changed no file but
    -- the target.
    pub place_update-Places :
        (rounds : ℕ) (source ini program : Text) (target_path : Text → Text) (s : d.State)
        → beside source update_ini_name ≡ some ini
        → laws.place ini ≢ laws.place (target_path ini)
        → laws.files s (laws.place source) ≡ some program
        → Places
            (target_path ini)
            ini
            program
            s
            (place_update d size rounds (some source) target_path s)
    unfolding place_update update_from
    place_update-Places rounds source ini program target_path s fits apart found =
        rw fits (elim (Bool-cases (is_empty (target_path ini))) [
          | inl missing ↦ rw missing (λ q _. refl)
          | inr named ↦ rw named (
              install_loaded-Places rounds (target_path ini) ini program s
                (load_file d size source s) apart (load_file-Loads source program s found))
        ])
