-- ===== src/Download/Outcome.antt =====
-- What a download may leave of the files, and the check of a received file.
use win16sync.Prelude.{
  ℕ, ◌≡◌, ◌≢◌, refl, sym, ap, ◌∙◌, ◌⊎◌, inl, inr, Bool, true, false, Option, none, some, length,
  take, Text, arith, Bool-cases, take_all,
}
use win16sync.Crc.{file_crc32}
use win16sync.Dos.{Dos, IsDos, Same}
use win16sync.Download.{Download, crc_of_file, is_crc}
use win16sync.Download.Local.{Sets-cases, Gives-whole, ReadsWell}

-- What a download asks for: as many bytes as announced, and the checksum, unless that is off.
abbrev pub IsGood : Bool → Download → Text → Type 0
IsGood unchecked file bytes =
    (length bytes ≡ file.size) × ((unchecked ≡ true) ⊎ (file_crc32 (some bytes) ≡ some file.crc))

module _ (d : Dos) (laws : IsDos d) (before : Text → Option Text) (temp local : Text) where
  -- Only the file and the temporary file may differ from what was there before.
  abbrev pub IsElsewhere : d.State → Type 0
  IsElsewhere s =
      (q : Text) → q ≢ laws.place temp → q ≢ laws.place local → laws.files s q ≡ before q

  abbrev pub IsStored : Text → d.State → Type 0
  IsStored bytes s = IsElsewhere s × (laws.files s (laws.place local) ≡ some bytes)

  -- Only the temporary file may.
  abbrev pub IsOld : d.State → Type 0
  IsOld s = (q : Text) → q ≢ laws.place temp → laws.files s q ≡ before q

  -- The file is the old one. Or it is gone, or begins with a first part of the new one and has
  -- nothing else; then the new one had come whole and was good.
  abbrev pub IsFailed : Bool → Download → d.State → Type 0
  IsFailed unchecked file s =
      IsElsewhere s
      × ((laws.files s (laws.place local) ≡ before (laws.place local))
          ⊎ ((bytes : Text) × IsGood unchecked file bytes
              × ((laws.files s (laws.place local) ≡ none)
                  ⊎ ((n : ℕ) × (laws.files s (laws.place local) ≡ some (take n bytes))))))

  module _ (apart : laws.place temp ≢ laws.place local) where
    pub IsOld-IsFailed :
        (unchecked : Bool) (file : Download) (s : d.State) → IsOld s → IsFailed unchecked file s
    IsOld-IsFailed unchecked file s old =
        ((λ q n _. old q n), inl (old (laws.place local) (λ e. apart (sym e))))

  pub IsStored-IsFailed :
      (unchecked : Bool) (file : Download) (bytes : Text) (s : d.State)
      → IsGood unchecked file bytes
      → IsStored bytes s
      → IsFailed unchecked file s
  IsStored-IsFailed unchecked file bytes s good (elsewhere, there) = (
    elsewhere,
    inr (
      bytes,
      good,
      inr (length bytes, there ∙ ap some (sym (take_all (length bytes) bytes (omega arith)))),
    ),
  )

  -- The temporary file may be removed.
  pub removed_temp :
      (s : d.State) (q : Text)
      → q ≢ laws.place temp
      → laws.files (d.remove s temp).1 q ≡ laws.files s q
  removed_temp s q m = elim (Sets-cases laws.files (d.remove s temp) (laws.remove_sets s temp)) [
    | inl (_, (gone, same)) ↦ same q m
    | inr (_, same) ↦ same q
  ]

is_crc-some : (o : Option ℕ) (crc : ℕ) → is_crc o crc ≡ true → o ≡ some crc
is_crc-some none crc e = absurd (cc e)
is_crc-some (some a) crc e = ap some {x = a} {y = crc} (ground arith)

no_file : (crc : ℕ) → is_crc (file_crc32 none) crc ≡ false
unfolding file_crc32
no_file crc = refl

module _ (d : Dos) (laws : IsDos d) (p : Text) (s : d.State) where
  pub crc_of_file-Same : Same laws.files s (crc_of_file d p s).1
  unfolding crc_of_file
  crc_of_file-Same = laws.open_read_same s p

  pub crc_of_file-is_crc :
      (bytes : Text) (crc : ℕ)
      → ReadsWell d
      → laws.files s (laws.place p) ≡ some bytes
      → is_crc (crc_of_file d p s).0 crc ≡ true
      → file_crc32 (some bytes) ≡ some crc
  unfolding crc_of_file
  crc_of_file-is_crc bytes crc well there e =
      let opened = d.open_read s p in
      let whole =
        Gives-whole bytes (d.read opened.1 p)
          (laws.read_gives opened.1 p bytes (laws.open_read_same s p (laws.place p) ∙ there))
          (well opened.1 p) in
      elim (Bool-cases opened.0) [
        | inl can ↦ is_crc-some (file_crc32 (some bytes)) crc (rw (can, whole) at e)
        | inr cannot ↦ absurd (cc (sym (rw cannot at e) ∙ no_file crc))
      ]
