-- ===== src/Update.antt =====
-- client/proto.c: proto_receive_update, which loads a newer version of the client and starts it.
-- The progress display and the log file are left out.
pub mod Fetched
mod Tests
use win16sync.Prelude.{
  ℕ, suc, ◌&&◌, not, Bool, true, false, Option, none, some, List, [], ◌∷◌, ◌++◌, leb, ◌==◌,
  if◌then◌else◌, Text, codes, text_eq,
}
use win16sync.Action.{Action, Done, pure, gets, changes, on_failure, ◌>>=◌, ◌>>◌}
use win16sync.Client.{set_notice}
use win16sync.Dos.{Dos}
use win16sync.Download.{
  kind_capacity, delete_local_file, drop_file, refuse_dropping, verify, fetch_file,
}
use win16sync.Line.{line_kind, extract_ulong_dec, extract_ulong_hex}
use win16sync.Path.{local_path_capacity, get_directory_path, local_join, is_empty}
use win16sync.Session.{
  World, with_client, check, check_with, demand, by_machine, Session, hear, say, machine_step,
}
use win16sync.Text.{copy_text}
use win16sync.Winsock.{Winsock}

-- PROTO_UPDATE_EXE_NAME and PROTO_UPDATE_INI_NAME
abbrev pub update_exe_name : Text
update_exe_name = codes "W16NEW.EXE"

abbrev pub update_ini_name : Text
update_ini_name = codes "W16UPD.INI"

-- The greatest error of `WinExec`
abbrev pub exec_error : ℕ
exec_error = 31

abbrev pub update_notice : Text → Text
update_notice version =
    codes "Update "
    ++ ((if is_empty version then codes "neu" else version) ++ codes " geladen, Neustart...")

module _ (w : Winsock) (d : Dos) where
  unfoldable pub notice : Text → Session w d Done
  notice message = changes (λ u. with_client u (set_notice u.net.client message))

  -- The control file of the update, which the new program reads.
  unfoldable pub write_control : Text → Text → Session w d Done
  write_control update_path update_ini = do
    module_path ← gets (λ u. u.net.client.module_path)
    controlled ←
        by_machine
          (λ s. d.write_profile s (codes "update") (codes "target_path") module_path update_ini)
    if controlled
        then machine_step w d (λ s. d.flush_profile s update_ini)
        else refuse_dropping w d update_path
            (λ _. codes "Update-Steuerdatei konnte nicht geschrieben werden")

  unfoldable pub start_helper : Text → Text → Session w d Done
  start_helper update_path update_ini = do
    exec_result ← by_machine (λ s. d.win_exec s (b'"' ∷ update_path ++ codes "\" /SELFUPDATE"))
    if leb exec_result exec_error
        then refuse_dropping w d update_ini
            (λ _. codes "Update-Helfer konnte nicht gestartet werden")
        else pure tt

  -- The new program from the server, checked.
  unfoldable pub fetch_update : Text → ℕ → ℕ → Session w d Done
  fetch_update update_path size crc = do
    say w d (codes "GETUPDATE")
    line ← hear w d
    check (text_eq (line_kind [] line kind_capacity) (codes "UPDATEFILE"))
        (codes "UPDATEFILE erwartet")
    check
        (extract_ulong_dec line (codes "size") 0 == size
          && extract_ulong_hex line (codes "crc") 0 == crc)
        (codes "Update-Metadaten stimmen nicht")
    opened ← by_machine (λ s. d.create s update_path)
    check opened (codes "Update-Datei konnte nicht erstellt werden")
    fetch_file w d update_path (codes "Nicht genug Speicher fuer Update")
        (codes "Update-Datei konnte nicht geschrieben werden") size
    verify w d false update_path (codes "Update-CRC stimmt nicht") crc

  -- From the names of the two files on.
  unfoldable pub install_update : Text → Text → Text → ℕ → ℕ → Session w d Done
  install_update update_path update_ini server_version size crc = do
    old_program ← by_machine (delete_local_file d update_path)
    old_control ← by_machine (delete_local_file d update_ini)
    fetch_update update_path size crc
    write_control update_path update_ini
    start_helper update_path update_ini
    say w d (codes "OK")
    notice (update_notice server_version)

  unfoldable pub receive_update : Text → ℕ → ℕ → Session w d Done
  receive_update server_version size crc = do
    module_path ← gets (λ u. u.net.client.module_path)
    check (not (is_empty module_path)) (codes "Updatepfad des Clients fehlt")
    let module_dir = get_directory_path (copy_text [] module_path local_path_capacity)
    check (not (is_empty module_dir)) (codes "Client-Verzeichnis konnte nicht bestimmt werden")
    update_path ←
        demand (local_join local_path_capacity module_dir update_exe_name)
          (codes "Updatepfad zu lang")
    update_ini ←
        demand (local_join local_path_capacity module_dir update_ini_name)
          (codes "Updatepfad zu lang")
    install_update update_path update_ini server_version size crc
