-- ===== src/Upload.antt =====
-- client/proto.c: proto_send_upload, less the progress display and the log file.
pub mod Sent
mod Tests
use win16sync.Prelude.{
  ℕ, zero, suc, Bool, true, false, Option, none, some, List, [], ◌∷◌, if◌then◌else◌, length, take,
  drop, Text, codes,
}
use win16sync.Action.{Action, Done, pure, gets, ◌>>=◌, ◌>>◌}
use win16sync.Dos.{Dos}
use win16sync.Download.{chunk_size}
use win16sync.Hex.{encode_hex}
use win16sync.Items.{FileItem}
use win16sync.Message.{path_hex_capacity, describe}
use win16sync.Path.{is_empty}
use win16sync.Session.{World, check, demand, by_machine, Session, say, send_bytes, allocate}
use win16sync.Winsock.{Winsock}

module _ (w : Winsock) (d : Dos) where
  -- The loop over what is still to be sent of the file.
  unfoldable pub send_pieces : ℕ → Text → Session w d Done
  send_pieces zero bytes = pure tt
  send_pieces (suc rounds) bytes =
      if is_empty bytes
      then pure tt
      else do send_bytes w d (take chunk_size bytes); send_pieces rounds (drop chunk_size bytes)

  -- From the opening of the file on.
  unfoldable pub send_file : Text → Session w d Done
  send_file local_path = do
    opened ← by_machine (λ s. d.open_read s local_path)
    check opened (codes "Upload-Datei konnte nicht geoeffnet werden")
    allocated ← allocate w d
    check allocated (codes "Nicht genug Speicher fuer Upload")
    bytes ← gets (λ u. (d.read u.state local_path).0)
    send_pieces (suc (length bytes)) bytes

  -- The line that describes an item, PUT or ITEM, by its kind.
  unfoldable pub say_item : Text → Text → FileItem → Session w d Done
  say_item kind message item = do
    path_hex ← demand (encode_hex item.path path_hex_capacity) message
    crc_disabled ← gets (λ u. u.net.client.crc_disabled)
    say w d (describe kind path_hex item crc_disabled)

  unfoldable pub send_upload : FileItem → Session w d Done
  send_upload item = do
    say_item (codes "PUT") (codes "Upload-Pfad konnte nicht codiert werden") item
    send_file item.local_path
