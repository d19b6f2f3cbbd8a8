-- ===== src/Sync/Actions.antt =====
-- client/proto.c: the loop of proto_sync_directory, which carries out the actions of the server.
use mathlib.Core.Option
use win16sync.Prelude.{
  ℕ, zero, suc, ◌+◌, ◌-◌, ◌%◌, ◌^◌, not, Bool, Option, none, some, List, [], ◌∷◌, ltb,
  if◌then◌else◌, Text, codes, text_eq, c_text,
}
use win16sync.Action.{Done, pure, failed, on_failure, ◌>>=◌, ◌>>◌}
use win16sync.Cache.{forget_cached_crc}
use win16sync.Dos.{Dos}
use win16sync.Download.{kind_capacity, delete_local_file, receive_download}
use win16sync.Hex.{decode_hex}
use win16sync.Items.{FileItem, find_item}
use win16sync.Line.{line_kind, extract_param, extract_ulong_dec, extract_ulong_hex}
use win16sync.Message.{path_hex_capacity}
use win16sync.Path.{path_capacity, local_path_capacity, protocol_to_local}
use win16sync.Session.{
  change_cache, with_error, check, refuse, demand, by_machine, Session, hear, say,
}
use win16sync.Upload.{send_upload}
use win16sync.Winsock.{Winsock}

-- `actions` and `conflicts`, 16-bit integers given by their bits.
pub record Counts : Type 0 where
  pub actions : ℕ
  pub conflicts : ℕ

abbrev pub one_more : ℕ → ℕ
one_more n = (n + 1) % 2 ^ 16

abbrev pub add_action : Counts → Counts
add_action counts = record counts { actions = one_more counts.actions }

abbrev pub add_conflict : Counts → Counts
add_conflict counts = record counts { conflicts = one_more counts.conflicts }

-- `proto_line_kind` and `strcmp`
abbrev pub is_kind : Text → Text → Bool
is_kind line kind = text_eq (line_kind [] line kind_capacity) kind

-- `(unsigned long)n`
abbrev pub to_long : ℕ → ℕ
to_long n = if ltb n (2 ^ 15) then n else n + 2 ^ 32 - 2 ^ 16

-- `(int)proto_extract_ulong_dec(line, key, (unsigned long)n)`
abbrev pub count_of : Text → Text → ℕ → ℕ
count_of line key n = extract_ulong_dec line key (to_long n) % 2 ^ 16

-- The counts at DONE.
unfoldable pub final_counts : Text → Counts → Counts
final_counts line counts = record {
  actions = count_of line (codes "actions") counts.actions;
  conflicts = count_of line (codes "conflicts") counts.conflicts;
}

-- A parameter that is there, and is not empty.
abbrev pub param : Text → Text → ℕ → Option Text
param line key capacity =
    let (value, found) = extract_param line key [] capacity in if found then some value else none

-- The path of an action, up to a NUL that its hexadecimal form may hold.
unfoldable pub action_path : Text → Option Text
action_path line = elim (param line (codes "path") path_hex_capacity) [
  | none ↦ none
  | some path_hex ↦ Option.map c_text (decode_hex path_hex path_capacity)
]

-- `items[index]`
abbrev pub item_at : List FileItem → ℕ → Option FileItem
item_at [] index = none
item_at (item ∷ items) zero = some item
item_at (item ∷ items) (suc index) = item_at items index

abbrev pub item_of : List FileItem → Text → Option FileItem
item_of items path = elim (find_item items path) [ none ↦ none | some i ↦ item_at items i ]

module _ (w : Winsock) (d : Dos) where
  unfoldable pub act_download : Text → Text → Text → Counts → Session w d Counts
  act_download root_dir line path counts = do
    receive_download w d root_dir (record {
      path = path;
      size = extract_ulong_dec line (codes "size") 0;
      crc = extract_ulong_hex line (codes "crc") 0;
      dos_stamp = extract_ulong_hex line (codes "dos") 0;
    })
    pure (add_action counts)

  -- The answer of the server to an upload.
  unfoldable pub await_ok : Session w d Done
  await_ok =
      on_failure (with_error (codes "Upload-OK fehlt"))
        (do line ← hear w d; if text_eq line (codes "OK") then pure tt else failed)

  unfoldable pub act_upload : List FileItem → Text → Counts → Session w d Counts
  act_upload items path counts = do
    item ← demand (item_of items path) (codes "Server verlangt unbekannte Upload-Datei")
    send_upload w d item
    await_ok
    pure (add_action counts)

  unfoldable pub act_delete_local : Text → Text → Counts → Session w d Counts
  act_delete_local root_dir path counts = do
    local ←
        demand (protocol_to_local local_path_capacity root_dir path) (codes "Delete-Pfad zu lang")
    deleted ← by_machine (delete_local_file d local)
    check deleted (codes "Lokale Datei konnte nicht geloescht werden")
    change_cache (λ cache. forget_cached_crc cache path)
    say w d (codes "OK")
    pure (add_action counts)

  -- An action that only changes a count, `delete_remote` or `conflict`.
  unfoldable pub act_noted : Counts → Session w d Counts
  act_noted counts = do say w d (codes "OK"); pure counts

  -- By the `kind` of the action.
  unfoldable pub act : Text → List FileItem → Text → Text → Text → Counts → Session w d Counts
  act root_dir items line path kind counts =
      if text_eq kind (codes "download")
      then act_download root_dir line path counts
      else if text_eq kind (codes "upload")
      then act_upload items path counts
      else if text_eq kind (codes "delete_local")
      then act_delete_local root_dir path counts
      else if text_eq kind (codes "delete_remote")
      then act_noted (add_action counts)
      else if text_eq kind (codes "conflict")
      then act_noted (add_conflict counts)
      else refuse (λ _. codes "Unbekannter Aktionstyp")

  unfoldable pub take_action : Text → List FileItem → Text → Counts → Session w d Counts
  take_action root_dir items line counts = do
    path ← demand (action_path line) (codes "Pfad in Aktion fehlt")
    kind ← demand (param line (codes "kind") kind_capacity) (codes "Aktionstyp fehlt")
    act root_dir items line path kind counts

  -- A line of the server; `more` goes around again.
  unfoldable pub serve_line :
      (Counts → Session w d Counts) → Text → List FileItem → Counts → Text → Session w d Counts
  serve_line more root_dir items counts line =
      if is_kind line (codes "DONE")
      then pure (final_counts line counts)
      else if not (is_kind line (codes "ACTION"))
      then refuse (λ _. codes "Unerwartete Server-Antwort")
      else (do counts' ← take_action root_dir items line counts; more counts')

  -- The loop, with at most `rounds` rounds; out of rounds it fails with no message.
  unfoldable pub serve : ℕ → Text → List FileItem → Counts → Session w d Counts
  serve zero root_dir items counts = failed
  serve (suc rounds) root_dir items counts = do
    line ← hear w d
    serve_line (serve rounds root_dir items) root_dir items counts line
