-- ===== src/Dos.antt =====
-- What client/proto.c uses of DOS, of Windows and of the C library for files, memory and time. None
-- of it is in the repository: it is a parameter, and the laws that the client relies on are those
-- of `IsDos`. A file that is open is given by its path.
pub mod Ram
use win16sync.Prelude.{ℕ, ◌≡◌, ◌≢◌, ◌++◌, Bool, true, false, Option, none, some, [], take, Text}
use win16sync.Scan.{Disk}

pub record Dos : Type 1 where
  pub State : Type 0
  -- `malloc`, and `GetTickCount`
  pub malloc : State → Bool × State
  pub ticks : State → ℕ × State
  pub errno : State → ℕ
  -- `_dos_getfileattr(path, …) == 0`, `_dos_setfileattr(path, _A_NORMAL)`, and `_mkdir`
  pub has_attributes : State → Text → Bool × State
  pub set_normal : State → Text → State
  pub make_dir : State → Text → State
  pub remove : State → Text → Bool × State
  pub rename : State → Text → Text → Bool × State
  -- `fopen(path, "wb")`, and `fwrite` at its end: whether all of it was written
  pub create : State → Text → Bool × State
  pub write : State → Text → Text → Bool × State
  -- `fopen(path, "rb")`, and what `fread` gives from there to the end, with `ferror`
  pub open_read : State → Text → Bool × State
  pub read : State → Text → Text × Bool
  -- `_open(path, _O_RDWR)`, and `_dos_setftime`
  pub open_update : State → Text → Bool × State
  pub set_time : State → Text → ℕ → ℕ → State
  -- What a scan of the directories meets.
  pub scan : State → Disk × State
  -- `WritePrivateProfileString`, the call of it that writes its buffer out, and `WinExec`
  pub write_profile : State → Text → Text → Text → Text → Bool × State
  pub flush_profile : State → Text → State
  pub win_exec : State → Text → ℕ × State

module _ {State : Type 0} (files : State → Text → Option Text) where
  -- No file is changed.
  abbrev pub Same : State → State → Type 0
  Same s s' = (q : Text) → files s' q ≡ files s q

  -- The file at `p` is changed to `contents`, and no other.
  abbrev pub Only : Text → Option Text → State → State → Type 0
  Only p contents s s' = (files s' p ≡ contents) × ((q : Text) → q ≢ p → files s' q ≡ files s q)

  -- What a call has done that changes the file at `p` to `contents`, or fails.
  abbrev pub Sets : Text → Option Text → State → Bool × State → Type 0
  Sets p contents s (true, s') = Only p contents s s'
  Sets p contents s (false, s') = Same s s'

  -- A call that moves the file at `p` to `q`, or fails.
  abbrev pub Moves : Text → Text → Text → State → Bool × State → Type 0
  Moves p q xs s (true, s') =
      (files s' p ≡ none)
      × (files s' q ≡ some xs)
      × ((r : Text) → r ≢ p → r ≢ q → files s' r ≡ files s r)
  Moves p q xs s (false, s') = Same s s'

  -- A call that puts `ys` at the end of the file at `p`, or only a first part of it.
  abbrev pub Appends : Text → Text → Text → State → Bool × State → Type 0
  Appends p xs ys s (true, s') = Only p (some (xs ++ ys)) s s'
  Appends p xs ys s (false, s') = (n : ℕ) × Only p (some (xs ++ take n ys)) s s'

-- What a file gives that holds `xs`: all of it, or a first part and an error.
abbrev pub Gives : Text → Text × Bool → Type 0
Gives xs (ys, false) = ys ≡ xs
Gives xs (ys, true) = (n : ℕ) × (ys ≡ take n xs)

-- `files` are the files with their contents, by the full name that `place` gives a path. The log
-- file is none of them.
pub record IsDos (d : Dos) : Type 0 where
  pub files : d.State → Text → Option Text
  pub place : Text → Text
  pub malloc_same : (s : d.State) → Same files s (d.malloc s).1
  pub ticks_same : (s : d.State) → Same files s (d.ticks s).1
  pub has_attributes_same : (s : d.State) (p : Text) → Same files s (d.has_attributes s p).1
  pub set_normal_same : (s : d.State) (p : Text) → Same files s (d.set_normal s p)
  pub make_dir_same : (s : d.State) (p : Text) → Same files s (d.make_dir s p)
  pub remove_sets : (s : d.State) (p : Text) → Sets files (place p) none s (d.remove s p)
  pub rename_moves :
      (s : d.State) (p q xs : Text)
      → place p ≢ place q
      → files s (place p) ≡ some xs
      → Moves files (place p) (place q) xs s (d.rename s p q)
  pub create_sets : (s : d.State) (p : Text) → Sets files (place p) (some []) s (d.create s p)
  pub write_appends :
      (s : d.State) (p xs ys : Text)
      → files s (place p) ≡ some xs
      → Appends files (place p) xs ys s (d.write s p ys)
  pub open_read_same : (s : d.State) (p : Text) → Same files s (d.open_read s p).1
  pub read_gives : (s : d.State) (p xs : Text) → files s (place p) ≡ some xs → Gives xs (d.read s p)
  pub open_update_same : (s : d.State) (p : Text) → Same files s (d.open_update s p).1
  pub set_time_same : (s : d.State) (p : Text) (a b : ℕ) → Same files s (d.set_time s p a b)
  pub scan_same : (s : d.State) → Same files s (d.scan s).1
