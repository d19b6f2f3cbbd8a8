-- ===== src/Sync/Framed.antt =====
-- All that proto_sync_directory does on a connection keeps what its calls keep.
use win16sync.Prelude.{ℕ, zero, suc, Bool, true, false, List, Text, codes}
use win16sync.Dos.{Dos}
use win16sync.Download.{
  Download, drop_file, fetch_loop, refuse_dropping, verify, copy_over, move_over, replace_file,
  note_checksum, fetch_file, settle_file, store_file, receive_file, receive_download,
}
use win16sync.Items.{FileItem}
use win16sync.Session.{World, with_error}
use win16sync.Session.Frame.{
  Keeps, IsFrame, keeps_rules, Keeps-pure, Keeps-on_failure, Keeps-failed,
}
use win16sync.Sync.Actions.{
  Counts, act_download, await_ok, act_upload, act_delete_local, act_noted, act, take_action,
  serve_line, serve,
}
use win16sync.Upload.{send_pieces, send_file, say_item, send_upload}
use win16sync.Winsock.{Winsock}

module _ {w : Winsock} {d : Dos} {R : World w.Socket d.State → World w.Socket d.State → Type 0}
    (f : IsFrame w d R) where
  fetch_loop-Keeps :
      (rounds : ℕ) (path message : Text) (n : ℕ) → Keeps R (fetch_loop w d rounds path message n)
  unfolding fetch_loop
  fetch_loop-Keeps zero path message n = Keeps-pure f tt
  fetch_loop-Keeps (suc rounds) path message n =
      let says = f.says in
      let hears = f.hears in
      let takes = f.takes in search (keeps_rules, fetch_loop-Keeps rounds) depth 9

  pub refuse_dropping-Keeps :
      (path : Text) (message : d.State → Text) → Keeps R (refuse_dropping w d path message)
  unfolding refuse_dropping
  refuse_dropping-Keeps path message = search keeps_rules

  pub verify-Keeps :
      (unchecked : Bool) (path message : Text) (crc : ℕ)
      → Keeps R (verify w d unchecked path message crc)
  unfolding verify
  verify-Keeps true path message crc = Keeps-pure f tt
  verify-Keeps false path message crc = search (keeps_rules, refuse_dropping-Keeps)

  copy_over-Keeps :
      (temp local : Text) (rename_error : ℕ) → Keeps R (copy_over w d temp local rename_error)
  unfolding copy_over
  copy_over-Keeps temp local rename_error = search keeps_rules depth 9

  replace_file-Keeps : (temp local : Text) → Keeps R (replace_file w d temp local)
  unfolding replace_file move_over
  replace_file-Keeps temp local =
      search (keeps_rules, copy_over-Keeps, refuse_dropping-Keeps) depth 9

  note_checksum-Keeps :
      (unchecked : Bool) (file : Download) → Keeps R (note_checksum w d unchecked file)
  unfolding note_checksum
  note_checksum-Keeps true file = search keeps_rules
  note_checksum-Keeps false file = search keeps_rules depth 9

  pub fetch_file-Keeps :
      (path no_memory not_written : Text) (n : ℕ)
      → Keeps R (fetch_file w d path no_memory not_written n)
  unfolding fetch_file
  fetch_file-Keeps path no_memory not_written n =
      let fetched =
        Keeps-on_failure f (drop_file w d path) (fetch_loop w d (suc n) path not_written n)
          (λ u. f.state u (d.remove u.state path).1)
          (fetch_loop-Keeps (suc n) path not_written n) in
      search keeps_rules depth 9

  settle_file-Keeps :
      (local : Text) (file : Download) (unchecked : Bool)
      → Keeps R (settle_file w d local file unchecked)
  unfolding settle_file
  settle_file-Keeps local file unchecked =
      let says = f.says in search (keeps_rules, note_checksum-Keeps) depth 9

  store_file-Keeps :
      (temp local : Text) (file : Download) → Keeps R (store_file w d temp local file)
  unfolding store_file
  store_file-Keeps temp local file =
      search (keeps_rules, fetch_file-Keeps, verify-Keeps, replace_file-Keeps, settle_file-Keeps)
        depth 12

  pub receive_download-Keeps :
      (root_dir : Text) (file : Download) → Keeps R (receive_download w d root_dir file)
  unfolding receive_download receive_file
  receive_download-Keeps root_dir file =
      let says = f.says in let hears = f.hears in search (keeps_rules, store_file-Keeps) depth 14

  send_pieces-Keeps : (rounds : ℕ) (bytes : Text) → Keeps R (send_pieces w d rounds bytes)
  unfolding send_pieces
  send_pieces-Keeps zero bytes = Keeps-pure f tt
  send_pieces-Keeps (suc rounds) bytes =
      let sends = f.sends in search (keeps_rules, send_pieces-Keeps rounds)

  pub say_item-Keeps :
      (kind message : Text) (item : FileItem) → Keeps R (say_item w d kind message item)
  unfolding say_item
  say_item-Keeps kind message item = let says = f.says in search keeps_rules

  send_upload-Keeps : (item : FileItem) → Keeps R (send_upload w d item)
  unfolding send_upload send_file
  send_upload-Keeps item = search (keeps_rules, say_item-Keeps, send_pieces-Keeps) depth 12

  await_ok-Keeps : Keeps R (await_ok w d)
  unfolding await_ok
  await_ok-Keeps =
      let hears = f.hears in
      Keeps-on_failure f (with_error (codes "Upload-OK fehlt")) _ (λ u. f.error u _)
        (search keeps_rules)

  act_download-Keeps :
      (root_dir line path : Text) (counts : Counts)
      → Keeps R (act_download w d root_dir line path counts)
  unfolding act_download
  act_download-Keeps root_dir line path counts = search (keeps_rules, receive_download-Keeps)

  act_upload-Keeps :
      (items : List FileItem) (path : Text) (counts : Counts)
      → Keeps R (act_upload w d items path counts)
  unfolding act_upload
  act_upload-Keeps items path counts =
      search (keeps_rules, send_upload-Keeps, await_ok-Keeps) depth 9

  act_delete_local-Keeps :
      (root_dir path : Text) (counts : Counts) → Keeps R (act_delete_local w d root_dir path counts)
  unfolding act_delete_local
  act_delete_local-Keeps root_dir path counts = let says = f.says in search keeps_rules depth 12

  act_noted-Keeps : (counts : Counts) → Keeps R (act_noted w d counts)
  unfolding act_noted
  act_noted-Keeps counts = let says = f.says in search keeps_rules

  act-Keeps :
      (root_dir : Text) (items : List FileItem) (line path kind : Text) (counts : Counts)
      → Keeps R (act w d root_dir items line path kind counts)
  unfolding act
  act-Keeps root_dir items line path kind counts =
      search
        (keeps_rules, act_download-Keeps, act_upload-Keeps, act_delete_local-Keeps, act_noted-Keeps)
        depth 9

  pub take_action-Keeps :
      (root_dir : Text) (items : List FileItem) (line : Text) (counts : Counts)
      → Keeps R (take_action w d root_dir items line counts)
  unfolding take_action
  take_action-Keeps root_dir items line counts = search (keeps_rules, act-Keeps)

  pub serve-Keeps :
      (rounds : ℕ) (root_dir : Text) (items : List FileItem) (counts : Counts)
      → Keeps R (serve w d rounds root_dir items counts)
  unfolding serve serve_line
  serve-Keeps zero root_dir items counts = Keeps-failed f
  serve-Keeps (suc rounds) root_dir items counts =
      let hears = f.hears in search (keeps_rules, take_action-Keeps, serve-Keeps rounds) depth 9
