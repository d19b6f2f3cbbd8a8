-- ===== src/Dos/Ram.antt =====
-- A machine that keeps its files in memory, on which every call succeeds that can: an instance of
-- `Dos` with its laws, for tests.
use win16sync.Prelude.{
  ◌≡◌, ◌≢◌, refl, ◌∙◌, Bool, true, false, Option, none, some, [], ◌++◌, if◌then◌else◌, Text,
  text_eq, text_eq_iff, Bool-cases, inl, inr,
}
use win16sync.Dos.{Dos, IsDos, Only, Sets, Moves, Appends}

abbrev pub Files : Type 0
Files = Text → Option Text

abbrev pub put : Files → Text → Option Text → Files
put files p contents q = if text_eq q p then contents else files q

abbrev is_there : Option Text → Bool
is_there none = false
is_there (some contents) = true

abbrev remove_at : Option Text → Text → Files → Bool × Files
remove_at none p files = (false, files)
remove_at (some contents) p files = (true, put files p none)

abbrev rename_at : Option Text → Option Text → Text → Text → Files → Bool × Files
rename_at (some contents) none p q files = (true, put (put files p none) q (some contents))
rename_at _ _ p q files = (false, files)

abbrev write_at : Option Text → Text → Text → Files → Bool × Files
write_at none p bytes files = (false, files)
write_at (some contents) p bytes files = (true, put files p (some (contents ++ bytes)))

abbrev contents_of : Option Text → Text
contents_of none = []
contents_of (some contents) = contents

abbrev pub ram : Dos
ram = record {
  State = Files;
  malloc = λ files. (true, files);
  ticks = λ files. (1000, files);
  errno = λ files. 2;
  has_attributes = λ files p. (is_there (files p), files);
  set_normal = λ files p. files;
  make_dir = λ files p. files;
  remove = λ files p. remove_at (files p) p files;
  rename = λ files p q. rename_at (files p) (files q) p q files;
  create = λ files p. (true, put files p (some []));
  write = λ files p bytes. write_at (files p) p bytes files;
  open_read = λ files p. (is_there (files p), files);
  read = λ files p. (contents_of (files p), false);
  open_update = λ files p. (is_there (files p), files);
  set_time = λ files p date time. files;
  scan = λ files. (
    record {
      find = λ pattern. [];
      around = λ n. record { looked = 1000; written = 1000; malloc_ok = true; read = files };
      stale = λ current name. [];
    },
    files,
  );
  write_profile = λ files section key value p. (true, files);
  flush_profile = λ files p. files;
  win_exec = λ files command. (32, files);
}

put_here : (files : Files) (p : Text) (contents : Option Text) → put files p contents p ≡ contents
put_here files p contents = rw ((text_eq_iff p p).1 refl)

put_other :
    (files : Files) (p : Text) (contents : Option Text) (q : Text)
    → q ≢ p
    → put files p contents q ≡ files q
put_other files p contents q n = elim (Bool-cases (text_eq q p)) [
  | inl same ↦ absurd (n ((text_eq_iff q p).0 same))
  | inr other ↦ rw other
]

pub put-Only :
    (files : Files) (p : Text) (contents : Option Text)
    → Only (λ s. s) p contents files (put files p contents)
put-Only files p contents = (put_here files p contents, put_other files p contents)

pub remove_at-Sets :
    (o : Option Text) (p : Text) (files : Files) → Sets (λ s. s) p none files (remove_at o p files)
remove_at-Sets none p files = λ q. refl
remove_at-Sets (some contents) p files = put-Only files p none

pub rename_at-Moves :
    (a b : Option Text) (p q xs : Text) (files : Files)
    → p ≢ q
    → a ≡ some xs
    → Moves (λ s. s) p q xs files (rename_at a b p q files)
rename_at-Moves none b p q xs files apart e = absurd (cc e)
rename_at-Moves (some contents) (some old) p q xs files apart e = λ r. refl
rename_at-Moves (some contents) none p q xs files apart e = (
  put_other (put files p none) q (some contents) p apart ∙ put_here files p none,
  put_here (put files p none) q (some contents) ∙ e,
  (λ r m n. put_other (put files p none) q (some contents) r n ∙ put_other files p none r m),
)

pub write_at-Appends :
    (o : Option Text) (p xs ys : Text) (files : Files)
    → o ≡ some xs
    → Appends (λ s. s) p xs ys files (write_at o p ys files)
write_at-Appends none p xs ys files e = absurd (cc e)
write_at-Appends (some contents) p xs ys files e =
    let same : contents ≡ xs = cc e in rw (← same) (put-Only files p (some (contents ++ ys)))

pub contents_of-Gives : (o : Option Text) (xs : Text) → o ≡ some xs → contents_of o ≡ xs
contents_of-Gives none xs e = absurd (cc e)
contents_of-Gives (some contents) xs e = cc e

abbrev pub ram-IsDos : IsDos ram
ram-IsDos = record {
  files = λ s. s;
  place = λ p. p;
  malloc_same = λ s q. refl;
  ticks_same = λ s q. refl;
  has_attributes_same = λ s p q. refl;
  set_normal_same = λ s p q. refl;
  make_dir_same = λ s p q. refl;
  remove_sets = λ s p. remove_at-Sets (s p) p s;
  rename_moves = λ s p q xs apart e. rename_at-Moves (s p) (s q) p q xs s apart e;
  create_sets = λ s p. put-Only s p (some []);
  write_appends = λ s p xs ys e. write_at-Appends (s p) p xs ys s e;
  open_read_same = λ s p q. refl;
  read_gives = λ s p xs e. contents_of-Gives (s p) xs e;
  open_update_same = λ s p q. refl;
  set_time_same = λ s p a b q. refl;
  scan_same = λ s q. refl;
}
