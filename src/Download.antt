-- ===== src/Download.antt =====
-- client/proto.c: the routines on local files, and proto_receive_download. The progress display and
-- the log file are left out.
pub mod Local
pub mod Fetch
pub mod Outcome
pub mod Replaces
pub mod Received
pub mod Complete
mod Tests
use win16sync.Prelude.{
  ℕ, zero, suc, ◌+◌, ◌-◌, ◌*◌, ◌/◌, ◌%◌, ◌^◌, Bool, true, false, not, ◌&&◌, Option, none, some,
  List, [], ◌∷◌, ◌++◌, ltb, leb, ◌==◌, if◌then◌else◌, length, take, drop, Text, codes, text_eq,
}
use win16sync.Action.{Action, Done, pure, failed, gets, changes, ◌>>=◌, ◌>>◌, on_failure}
use win16sync.Cache.{remember_cached_crc, forget_cached_crc}
use win16sync.Client.{ProtoClient}
use win16sync.Crc.{file_crc32}
use win16sync.Dos.{Dos}
use win16sync.Line.{line_kind}
use win16sync.Path.{
  local_path_capacity, protocol_to_local, build_temp_path, ensure_parent_dirs, is_empty,
}
use win16sync.Print.{print_dec}
use win16sync.Session.{
  World, change_cache, with_client, with_state, check, check_with, demand, by_machine,
  line_capacity, Session, hear, take_bytes, say, machine_step, take_ticks, allocate,
}
use win16sync.Winsock.{Winsock}

-- `malloc(4096U)`, the size of the pieces in which a file is carried
abbrev pub chunk_size : ℕ
chunk_size = 4096

-- `char kind[16]`
abbrev pub kind_capacity : ℕ
kind_capacity = 16

-- What a file transfer is told by the server.
pub record Download : Type 0 where
  pub path : Text
  pub size : ℕ
  pub crc : ℕ
  pub dos_stamp : ℕ

-- `actual_crc == expected_crc`, of a file that could be read
abbrev pub is_crc : Option ℕ → ℕ → Bool
is_crc none expected = false
is_crc (some actual) expected = actual == expected

module _ (d : Dos) where
  unfoldable pub write_file_timestamp : Text → ℕ → d.State → Bool × d.State
  write_file_timestamp path dos_stamp s =
      let (opened, s') = d.open_update s path in
      if opened
      then (true, d.set_time s' path (dos_stamp / 2 ^ 16 % 2 ^ 16) (dos_stamp % 2 ^ 16))
      else (false, s')

  unfoldable pub delete_local_file : Text → d.State → Bool × d.State
  delete_local_file path s =
      let (there, s') = d.has_attributes s path in
      if there then d.remove (d.set_normal s' path) path else (true, s')

  -- The loop of proto_copy_file, over what is still to be written.
  unfoldable pub copy_pieces : ℕ → Text → Text → d.State → Bool × d.State
  copy_pieces zero path bytes s = (true, s)
  copy_pieces (suc rounds) path bytes s =
      let (written, s') = d.write s path (take chunk_size bytes) in
      let rest = copy_pieces rounds path (drop chunk_size bytes) s' in
      if is_empty bytes then (true, s) else if written then rest else (false, s')

  -- The end of proto_copy_file: a target that is not whole is removed.
  unfoldable pub finish_copy : Text → Bool × d.State → Bool × d.State
  finish_copy target (true, s) = (true, s)
  finish_copy target (false, s) = (false, (d.remove s target).1)

  unfoldable pub copy_bytes : Text → Text × Bool → d.State → Bool × d.State
  copy_bytes target (bytes, error) s =
      let (written, s') = copy_pieces (suc (length bytes)) target bytes s in
      finish_copy target (written && not error, s')

  unfoldable pub copy_file : Text → Text → d.State → Bool × d.State
  copy_file source target s =
      let (opened, s1) = d.open_read s source in
      let (created, s2) = d.create s1 target in
      let (allocated, s3) = d.malloc s2 in
      if not opened
      then (false, s1)
      else if not created
      then (false, s2)
      else if not allocated
      then (false, s3)
      else copy_bytes target (d.read s3 source) s3

  -- proto_file_crc32 on the file at a path.
  unfoldable pub crc_of_file : Text → d.State → Option ℕ × d.State
  crc_of_file path s =
      let (opened, s') = d.open_read s path in
      (file_crc32 (if opened then some (d.read s' path).0 else none), s')

  abbrev pub make_dirs : List Text → d.State → d.State
  make_dirs [] s = s
  make_dirs (path ∷ paths) s = make_dirs paths (d.make_dir s path)

-- `wsprintf` with one `%d`, as the two parts of its format around the number
abbrev pub number_message : Text → ℕ → Text
number_message before n = before ++ (codes " (" ++ print_dec n ++ codes ")")

module _ (w : Winsock) (d : Dos) where
  -- What is done with the file at a path before a `return 0`.
  abbrev pub drop_file : Text → World w.Socket d.State → World w.Socket d.State
  drop_file path u = with_state u (d.remove u.state path).1

  -- The loop that writes what the server sends to the open file, until `remaining` is 0.
  unfoldable pub fetch_loop : ℕ → Text → Text → ℕ → Session w d Done
  fetch_loop zero path message remaining = pure tt
  fetch_loop (suc rounds) path message remaining = if remaining == 0 then pure tt else do
    let chunk = if ltb chunk_size remaining then chunk_size else remaining
    bytes ← take_bytes w d chunk
    written ← by_machine (λ s. d.write s path bytes)
    check written message
    fetch_loop rounds path message (remaining - chunk)

  -- A `return 0` with a message, after the file at a path is removed.
  unfoldable pub refuse_dropping : Text → (d.State → Text) → Session w d Done
  refuse_dropping path message = do
    machine_step w d (λ s. (d.remove s path).1)
    check_with false message

  -- The checksum of the received file.
  unfoldable pub verify : Bool → Text → Text → ℕ → Session w d Done
  verify true path message crc = pure tt
  verify false path message crc = do
    actual ← by_machine (crc_of_file d path)
    if is_crc actual crc then pure tt else refuse_dropping path (λ _. message)

  -- What proto_receive_download does when `rename` fails.
  unfoldable pub copy_over : Text → Text → ℕ → Session w d Done
  copy_over temp local rename_error = do
    copied ← by_machine (copy_file d temp local)
    copy_error ← gets (λ u. d.errno u.state)
    machine_step w d (λ s. (d.remove s temp).1)
    check copied (
        codes "Download konnte nicht gespeichert werden ("
        ++ (print_dec rename_error ++ (b'/' ∷ print_dec copy_error ++ codes ")")))

  unfoldable pub move_over : Text → Text → Session w d Done
  move_over temp local = do
    renamed ← by_machine (λ s. d.rename s temp local)
    rename_error ← gets (λ u. d.errno u.state)
    if renamed then pure tt else copy_over temp local rename_error

  -- The old file is deleted and the received one put in its place.
  unfoldable pub replace_file : Text → Text → Session w d Done
  replace_file temp local = do
    deleted ← by_machine (delete_local_file d local)
    if deleted
        then move_over temp local
        else refuse_dropping temp
            (λ s. number_message (codes "Zieldatei konnte nicht geloescht werden") (d.errno s))

  -- The table of checksums after a download.
  unfoldable pub note_checksum : Bool → Download → Session w d Done
  note_checksum true file = change_cache (λ cache. forget_cached_crc cache file.path)
  note_checksum false file = do
    cached ← gets (λ u. u.net.client.cache.allocated)
    malloc_ok ← (if cached then pure true else allocate w d)
    now ← take_ticks w d
    change_cache (λ cache.
        remember_cached_crc malloc_ok now cache file.path file.size file.dos_stamp file.crc)

  -- The bytes of a file from the server to the file at a path.
  unfoldable pub fetch_file : Text → Text → Text → ℕ → Session w d Done
  fetch_file path no_memory not_written size = do
    allocated ← allocate w d
    check allocated no_memory
    on_failure (drop_file path) (fetch_loop (suc size) path not_written size)

  -- What follows once the new file is in its place.
  unfoldable pub settle_file : Text → Download → Bool → Session w d Done
  settle_file local file unchecked = do
    stamped ← by_machine (write_file_timestamp d local file.dos_stamp)
    note_checksum unchecked file
    say w d (codes "OK")

  -- From the opening of the temporary file on.
  unfoldable pub store_file : Text → Text → Download → Session w d Done
  store_file temp local file = do
    opened ← by_machine (λ s. d.create s temp)
    check_with opened
        (λ s. number_message (codes "Temp-Datei konnte nicht erstellt werden") (d.errno s))
    fetch_file temp (codes "Nicht genug Speicher fuer Download")
        (codes "Download-Datei konnte nicht geschrieben werden") file.size
    unchecked ← gets (λ u. u.net.client.crc_disabled)
    verify unchecked temp (codes "Download-CRC stimmt nicht") file.crc
    replace_file temp local
    settle_file local file unchecked

  -- From the question to the server on.
  unfoldable pub receive_file : Text → Text → Download → Session w d Done
  receive_file temp local file = do
    say w d (codes "READY")
    line ← hear w d
    check (text_eq (line_kind [] line kind_capacity) (codes "FILE")) (codes "FILE erwartet")
    store_file temp local file

  unfoldable pub receive_download : Text → Download → Session w d Done
  receive_download root_dir file = do
    local ←
        demand (protocol_to_local local_path_capacity root_dir file.path)
          (codes "Download-Pfad zu lang")
    temp ← demand (build_temp_path local_path_capacity local) (codes "Temp-Pfad zu lang")
    machine_step w d (make_dirs d (ensure_parent_dirs temp))
    machine_step w d (make_dirs d (ensure_parent_dirs local))
    deleted ← by_machine (delete_local_file d temp)
    receive_file temp local file
