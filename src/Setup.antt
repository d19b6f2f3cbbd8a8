-- ===== src/Setup.antt =====
-- client/setup.c: the program that installs the client. What the user has entered and what Windows
-- answers is a record, and what the program manager does with its own files is not modelled; the
-- message boxes and the status line are the texts that were shown.
pub mod Command
pub mod Install
mod Tests
use win16sync.Prelude.{
  ℕ, ◌%◌, ◌^◌, ◌&&◌, Bool, true, false, not, Option, none, some, List, [], ◌∷◌, ◌++◌, leb, ◌==◌,
  if◌then◌else◌, length, get_or, take, Text, codes,
}
use win16sync.Action.{Action, Done, pure, failed, changes, ◌>>=◌, ◌>>◌}
use win16sync.Dos.{Dos}
use win16sync.Path.{is_empty, ends_in_separator, parents_loop}
use win16sync.Text.{copy_text, append_text}

-- SETUP_PATH_CAPACITY and SETUP_COMMAND_CAPACITY
abbrev pub setup_path_capacity : ℕ
setup_path_capacity = 160

abbrev pub setup_command_capacity : ℕ
setup_command_capacity = 512

-- The copies of the client's routines.
abbrev pub setup_copy_text : Text → Text → ℕ → Text
setup_copy_text = copy_text

abbrev pub setup_append_text : Text → Text → ℕ → Option Text
setup_append_text = append_text

-- A step of a chain `… && setup_append_text(target, source, capacity)`.
abbrev pub then_append : Option Text → Text → ℕ → Option Text
then_append none source capacity = none
then_append (some target) source capacity = setup_append_text target source capacity

abbrev pub quote : Text
quote = codes "\""

unfoldable pub append_quoted_text : Text → Text → ℕ → Option Text
append_quoted_text target source capacity =
    then_append (then_append (setup_append_text target quote capacity) source capacity) quote
      capacity

abbrev pub then_quoted : Option Text → Text → ℕ → Option Text
then_quoted none source capacity = none
then_quoted (some target) source capacity = append_quoted_text target source capacity

unfoldable pub setup_join_path : ℕ → Text → Text → Option Text
setup_join_path capacity directory name =
    if capacity == 0 then none else elim (setup_append_text [] directory capacity) [
      | none ↦ none
      | some target ↦
          if not (is_empty target) && not (ends_in_separator target)
          then then_append (setup_append_text target (codes "\\") capacity) name capacity
          else setup_append_text target name capacity
    ]

-- setup_default_install_dir, of what GetWindowsDirectory gives.
unfoldable pub default_install_dir : Text → ℕ → Text
default_install_dir windows_dir capacity =
    let drive = get_or windows_dir 0 0 ∷ codes ":\\" in
    if leb 2 (length windows_dir) && get_or windows_dir 1 0 == b':'
    then elim (setup_append_text drive (codes "W16SYNC") capacity) [ none ↦ drive | some t ↦ t ]
    else setup_copy_text [] (codes "C:\\W16SYNC") capacity

-- setup_ensure_dir: the directories that it asks `_mkdir` for, in order.
unfoldable pub ensure_dir : Text → Option (List Text)
ensure_dir path =
    let buffer = setup_copy_text [] path setup_path_capacity in
    if is_empty path then none else some (parents_loop buffer 0 buffer ++ buffer ∷ [])

unfoldable pub build_progman_add_item : ℕ → Text → Text → Option Text
build_progman_add_item capacity exe_path working_dir =
    let t1 = then_quoted (setup_append_text [] (codes "[AddItem(") capacity) exe_path capacity in
    let t2 = then_quoted (then_append t1 (codes ",") capacity) (codes "Win16Sync") capacity in
    let t3 = then_quoted (then_append t2 (codes ",") capacity) exe_path capacity in
    let t4 = then_quoted (then_append t3 (codes ",0,-1,-1,") capacity) working_dir capacity in
    if capacity == 0 then none else then_append t4 (codes ")]") capacity

unfoldable pub build_progman_add_item_simple : ℕ → Text → Option Text
build_progman_add_item_simple capacity exe_path =
    let t1 = then_quoted (setup_append_text [] (codes "[AddItem(") capacity) exe_path capacity in
    let t2 = then_quoted (then_append t1 (codes ",") capacity) (codes "Win16Sync") capacity in
    if capacity == 0 then none else then_append t2 (codes ")]") capacity

-- The user's entries, the client in the resources, if it can be found and locked, and how the
-- program manager answers a command after the commands before it.
pub record Desk : Type 0 where
  pub install_dir : Text
  pub create_group : Bool
  pub run_after : Bool
  pub resource : Option Text
  pub progman : List Text → Text → Bool

-- The machine, the commands tried, what was shown and the programs started; the last one first.
pub record Site (State : Type 0) : Type 0 where
  pub state : State
  pub commands : List Text
  pub shown : List Text
  pub started : List Text

module _ (d : Dos) where
  -- setup_extract_client once the resource is locked. An `unsigned int` has 16 bits.
  unfoldable pub write_client : Text → Text → d.State → Bool × d.State
  write_client data_bytes target_path s =
      let (opened, s1) = d.create s target_path in
      let (written, s2) = d.write s1 target_path (take (length data_bytes % 2 ^ 16) data_bytes) in
      if is_empty data_bytes
      then (false, s)
      else if not opened
      then (false, s1)
      else if written
      then (true, s2)
      else (false, (d.remove s2 target_path).1)

  unfoldable pub extract_client : Option Text → Text → d.State → Bool × d.State
  extract_client none target_path s = (false, s)
  extract_client (some data_bytes) target_path s = write_client data_bytes target_path s

  abbrev pub Setup : Type 0 → Type 0
  Setup A = Action (Site d.State) A

  -- setup_update_status and MessageBox
  unfoldable pub show : Text → Setup Done
  show message = changes (λ u. record u { shown = message ∷ u.shown })

  -- A `return` with a status.
  unfoldable pub stop : Text → Setup Done
  stop message = do show message; failed

  unfoldable pub progman_command : Desk → Text → Setup Bool
  progman_command desk command u =
      (some (desk.progman u.commands command), record u { commands = command ∷ u.commands })

  -- What a built command is sent for; without one, the answer is no.
  unfoldable pub send_command : Desk → Option Text → Setup Bool
  send_command desk none = pure false
  send_command desk (some command) = progman_command desk command

  unfoldable pub add_simple_item : Desk → Text → Setup Bool
  add_simple_item desk exe_path =
      send_command desk (build_progman_add_item_simple setup_command_capacity exe_path)

  unfoldable pub retry_simple : Desk → Text → Bool → Setup Bool
  retry_simple desk exe_path true = pure true
  retry_simple desk exe_path false = add_simple_item desk exe_path

  unfoldable pub add_full_item : Desk → Text → Option Text → Setup Bool
  add_full_item desk exe_path none = pure false
  add_full_item desk exe_path (some command) =
      progman_command desk command >>= retry_simple desk exe_path

  unfoldable pub replace_item : Desk → Text → Bool → Setup Bool
  replace_item desk exe_path false = pure false
  replace_item desk exe_path true = do
    replaced ← progman_command desk (codes "[ReplaceItem(\"Win16Sync\")]")
    add_full_item desk exe_path
        (build_progman_add_item setup_command_capacity exe_path desk.install_dir)

  unfoldable pub show_group : Desk → Text → Bool → Setup Bool
  show_group desk exe_path false = pure false
  show_group desk exe_path true =
      progman_command desk (codes "[ShowGroup(\"Win16Sync\",1)]") >>= replace_item desk exe_path

  unfoldable pub progman_item : Desk → Text → Setup Bool
  progman_item desk exe_path =
      progman_command desk (codes "[CreateGroup(\"Win16Sync\")]") >>= show_group desk exe_path

  abbrev pub make_all : List Text → d.State → d.State
  make_all [] s = s
  make_all (path ∷ paths) s = make_all paths (d.make_dir s path)

  -- From the directories on.
  unfoldable pub report_client : Bool → Setup Done
  report_client true = pure tt
  report_client false = stop (codes "Client konnte nicht installiert werden")

  unfoldable pub extract : Desk → Text → Setup Bool
  extract desk exe_path u =
      let (extracted, s) = extract_client desk.resource exe_path u.state in
      (some extracted, record u { state = s })

  -- From the directories on.
  unfoldable pub place_client : Desk → Text → List Text → Setup Done
  place_client desk exe_path dirs = do
    changes (λ u. record u { state = make_all dirs u.state })
    show (codes "Schreibe Win16Sync...")
    extracted ← extract desk exe_path
    report_client extracted

  unfoldable pub make_item : Desk → Text → Bool → Setup Bool
  make_item desk exe_path false = pure true
  make_item desk exe_path true = do
    show (codes "Erzeuge Progman-Eintrag...")
    progman_item desk exe_path

  unfoldable pub report_item : Bool → Setup Done
  report_item true = pure tt
  report_item false =
      show (codes "Die Datei wurde installiert, aber Progman konnte nicht aktualisiert werden.")

  unfoldable pub run_client : Text → Bool → Setup Done
  run_client exe_path false = pure tt
  run_client exe_path true = changes (λ u. record u { started = exe_path ∷ u.started })

  -- The end of setup_install.
  unfoldable pub finish_install : Desk → Text → Setup Done
  finish_install desk exe_path = do
    grouped ← make_item desk exe_path desk.create_group
    report_item grouped
    show (codes "Fertig")
    run_client exe_path desk.run_after
    show (codes "Win16Sync wurde installiert.")

  unfoldable pub create_dirs : Desk → Text → Option (List Text) → Setup Done
  create_dirs desk exe_path none = stop (codes "Zielordner konnte nicht angelegt werden")
  create_dirs desk exe_path (some dirs) = do
    place_client desk exe_path dirs
    finish_install desk exe_path

  unfoldable pub install_to : Desk → Option Text → Setup Done
  install_to desk none = stop (codes "Zielpfad zu lang")
  install_to desk (some exe_path) = do
    show (codes "Erstelle Zielordner...")
    create_dirs desk exe_path (ensure_dir desk.install_dir)

  unfoldable pub install : Desk → Setup Done
  install desk =
      if is_empty desk.install_dir
      then stop (codes "Bitte Zielordner angeben")
      else install_to desk
          (setup_join_path setup_path_capacity desk.install_dir (codes "W16SYNC.EXE"))
