-- ===== src/App/Helper.antt =====
-- client/main.c: the update mode, in which a program that the client has downloaded writes itself
-- over the client, app_run_update_mode, and the removal of what it leaves,
-- app_cleanup_update_artifacts. What Windows answers and the INI file holds are arguments.
pub mod Placed
mod Tests
use win16sync.Prelude.{
  ℕ, zero, suc, ◌+◌, ◌-◌, ◌%◌, ◌^◌, ◌||◌, ◌&&◌, not, Bool, true, false, Option, none, some, [],
  ◌++◌, leb, ltb, ◌==◌, if◌then◌else◌, length, take, Text, codes, text_eq,
}
use win16sync.App.Autostart.{app_path_capacity}
use win16sync.Dos.{Dos}
use win16sync.Download.{delete_local_file}
use win16sync.Path.{is_empty, ends_in_separator, get_directory_path, path_name}
use win16sync.Text.{copy_text}
use win16sync.Update.{update_exe_name, update_ini_name}

-- The copies of the client's routines.
abbrev pub app_copy_text : Text → Text → ℕ → Text
app_copy_text = copy_text

abbrev pub app_get_directory_path : Text → Text
app_get_directory_path = get_directory_path

abbrev pub app_path_name : Text → Text
app_path_name = path_name

-- APP_UPDATE_WAIT_MS and APP_UPDATE_RETRY_MS
abbrev pub update_wait_ms : ℕ
update_wait_ms = 30000

abbrev pub update_retry_ms : ℕ
update_retry_ms = 200

abbrev pub join_end : ℕ → Text → Text → Option Text
join_end capacity target name =
    if leb capacity (length target + length name + 1) then none else some (target ++ name)

unfoldable pub app_join_path : ℕ → Text → Text → Option Text
app_join_path capacity directory name =
    let target = app_copy_text [] directory capacity in
    let whole = app_copy_text [] name capacity in
    if capacity == 0
    then none
    else if is_empty directory
    then if is_empty whole then none else some whole
    else if ends_in_separator target
    then join_end capacity target name
    else if leb capacity (length target + 2)
    then none
    else join_end capacity (target ++ codes "\\") name

-- A path in the directory of the program.
abbrev pub beside : Text → Text → Option Text
beside module_path name =
    app_join_path app_path_capacity
      (app_get_directory_path (app_copy_text [] module_path app_path_capacity)) name

-- How the update mode ends, but for the start of the new program.
pub data UpdateEnd : Type 0 where
  placed : Text → UpdateEnd
  refused : Text → UpdateEnd
  waiting : UpdateEnd

module _ (d : Dos) where
  unfoldable pub app_delete_file : Text → d.State → Bool × d.State
  app_delete_file path s = if is_empty path then (true, s) else delete_local_file d path s

  unfoldable pub cleanup_in : Option Text → Option Text → d.State → d.State
  cleanup_in (some update_path) (some update_ini) s =
      (app_delete_file update_path (app_delete_file update_ini s).1).1
  cleanup_in _ _ s = s

  unfoldable pub cleanup_update_artifacts : Option Text → d.State → d.State
  cleanup_update_artifacts none s = s
  cleanup_update_artifacts (some module_path) s =
      if text_eq (app_path_name module_path) update_exe_name
      then s
      else cleanup_in (beside module_path update_exe_name) (beside module_path update_ini_name) s

  -- `size` is what `fseek` and `ftell` give, 0 if they fail. `unsigned` has 16 bits.
  unfoldable pub load_file : (d.State → Text → ℕ) → Text → d.State → Option (Text × ℕ) × d.State
  load_file size path s =
      let (opened, s1) = d.open_read s path in
      let file_size = size s1 path in
      let (allocated, s2) = d.malloc s1 in
      let bytes = take (file_size % 2 ^ 16) (d.read s2 path).0 in
      if is_empty path
      then (none, s)
      else if not opened || file_size == 0
      then (none, s1)
      else if allocated && length bytes == file_size % 2 ^ 16
      then (some (bytes, file_size), s2)
      else (none, s2)

  unfoldable pub write_file : Text → Text → ℕ → d.State → Bool × d.State
  write_file path data_bytes size s =
      let (opened, s1) = d.create s path in
      let (written, s2) = d.write s1 path (take (size % 2 ^ 16) data_bytes) in
      if not opened
      then (false, s1)
      else if size == 0
      then (true, s1)
      else if written
      then (true, s2)
      else (false, (app_delete_file path s2).1)

  unfoldable pub try_install : Text → Text → ℕ → d.State → Bool × d.State
  try_install target data_bytes size s =
      write_file target data_bytes size (app_delete_file target s).1

  abbrev pub try_when : Bool → Text → Text → ℕ → d.State → Bool × d.State
  try_when due target data_bytes size s =
      if due then try_install target data_bytes size s else (false, s)

  -- The loop: whether the program has been written before the time was over, or `none` if that is
  -- open after so many rounds. How fast the clock goes is not known here.
  unfoldable pub install_loop : ℕ → Text → Text → ℕ → ℕ → ℕ → d.State → Option Bool × d.State
  install_loop zero target data_bytes size started_tick last_try_tick s = (none, s)
  install_loop (suc rounds) target data_bytes size started_tick last_try_tick s =
      let (now, s1) = d.ticks s in
      let due =
        last_try_tick == 0 || leb update_retry_ms ((now + 2 ^ 32 - last_try_tick) % 2 ^ 32) in
      let (written, s2) = try_when due target data_bytes size s1 in
      let last = if due then now else last_try_tick in
      let rest = install_loop rounds target data_bytes size started_tick last s2 in
      if written
      then (some true, s2)
      else if leb update_wait_ms ((now + 2 ^ 32 - started_tick) % 2 ^ 32)
      then (some false, s2)
      else rest

  unfoldable pub finish_update : Text → Text → Option Bool × d.State → UpdateEnd × d.State
  finish_update update_ini target (none, s) = (waiting, s)
  finish_update update_ini target (some false, s) =
      (refused (codes "Update konnte nicht installiert werden."), s)
  finish_update update_ini target (some true, s) = (placed target, (app_delete_file update_ini s).1)

  unfoldable pub install_loaded :
      ℕ → Text → Text → Option (Text × ℕ) × d.State → UpdateEnd × d.State
  install_loaded rounds update_ini target (none, s) =
      (refused (codes "Update-Datei konnte nicht geladen werden."), s)
  install_loaded rounds update_ini target (some (data_bytes, size), s) =
      let (started_tick, s') = d.ticks s in
      finish_update update_ini target (install_loop rounds target data_bytes size started_tick 0 s')

  -- With the control file, which names the target, if it does.
  unfoldable pub update_from :
      (d.State → Text → ℕ) → ℕ → Text → (Text → Text) → Option Text → d.State → UpdateEnd × d.State
  update_from size rounds source_path target_path none s =
      (refused (codes "Update-Steuerdatei fehlt."), s)
  update_from size rounds source_path target_path (some update_ini) s =
      let target = target_path update_ini in
      if is_empty target
      then (refused (codes "Update-Ziel fehlt."), s)
      else install_loaded rounds update_ini target (load_file size source_path s)

  unfoldable pub place_update :
      (d.State → Text → ℕ) → ℕ → Option Text → (Text → Text) → d.State → UpdateEnd × d.State
  place_update size rounds none target_path s =
      (refused (codes "Updatequelle konnte nicht gefunden werden."), s)
  place_update size rounds (some source_path) target_path s =
      update_from size rounds source_path target_path (beside source_path update_ini_name) s

  unfoldable pub start_client : UpdateEnd × d.State → UpdateEnd × d.State
  start_client (placed target, s) =
      let (code, s') = d.win_exec s target in
      if leb code 31
      then (refused (codes "Aktualisierte Win16Sync.exe konnte nicht gestartet werden."), s')
      else (placed target, s')
  start_client (refused message, s) = (refused message, s)
  start_client (waiting, s) = (waiting, s)

  unfoldable pub run_update_mode :
      (d.State → Text → ℕ) → ℕ → Option Text → (Text → Text) → d.State → UpdateEnd × d.State
  run_update_mode size rounds module_path target_path s =
      start_client (place_update size rounds module_path target_path s)
