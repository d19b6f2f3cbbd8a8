-- ===== src/Sync.antt =====
-- client/proto.c: proto_sync_directory, less the log file.
pub mod Actions
pub mod Framed
pub mod Talk
pub mod Closes
pub mod Rounds
mod Tests
use mathlib.Core.Option
use win16sync.Prelude.{
  ℕ, zero, suc, ◌+◌, ◌-◌, ◌%◌, ◌^◌, ◌&&◌, not, Bool, true, false, Option, none, some, List, [], ◌∷◌,
  ◌++◌, ltb, if◌then◌else◌, length, Text, codes, text_eq, c_text,
}
use win16sync.Action.{Action, Done, pure, failed, gets, changes, on_failure, ◌>>=◌, ◌>>◌}
use win16sync.Client.{version_capacity, set_error, set_notice}
use win16sync.Connect.{Answers, Net, connect, disconnect}
use win16sync.Dos.{Dos}
use win16sync.Download.{kind_capacity}
use win16sync.Items.{FileItem}
use win16sync.Line.{line_kind, extract_param, extract_ulong_dec, extract_ulong_hex}
use win16sync.Message.{summary_text}
use win16sync.Path.{is_empty}
use win16sync.Scan.{Ran, scan_directory}
use win16sync.Session.{
  World, with_client, with_error, check, demand, by_client, Session, hear, say, allocate,
}
use win16sync.Sync.Actions.{Counts, is_kind, count_of, serve}
use win16sync.Update.{notice, receive_update}
use win16sync.Upload.{say_item}
use win16sync.Version.{Comparison, older, same, newer, compare_versions}
use win16sync.Winsock.{Winsock}

-- `char update_status[16]`
abbrev pub status_capacity : ℕ
status_capacity = 16

-- What a synchronisation gives that does not fail: PROTO_SYNC_RESULT_OK with the values of
-- `out_actions` and `out_conflicts`, or PROTO_SYNC_RESULT_UPDATE; both with the summary.
pub data Synced : Type 0 where
  finished : Counts → Text → Synced
  updated : Text → Synced

-- `proto_compare_versions(…) >= 0`
abbrev pub is_not_older : Comparison → Bool
is_not_older older = false
is_not_older _ = true

abbrev pub update_summary : Text → Text
update_summary version = codes "Update " ++ (version ++ codes " geladen, Neustart")

abbrev pub older_notice : Text → Text
older_notice version = codes "Server bietet " ++ (195 ∷ 164 ∷ codes "ltere Version ") ++ version

module _ (w : Winsock) (d : Dos) where
  abbrev pub hang_up : World w.Socket d.State → World w.Socket d.State
  hang_up u = record u { net = disconnect u.net }

  unfoldable pub open_connection : Answers w.Socket → Session w d Done
  open_connection answers u =
      let (connected, net) = connect answers u.net in
      (if connected then some tt else none, record u { net = net })

  -- What is done with a version that the server offers; some version has been loaded.
  unfoldable pub compare_update : Comparison → Text → Text → Session w d (Option Text)
  compare_update newer line version = do
    receive_update w d version (extract_ulong_dec line (codes "size") 0)
        (extract_ulong_hex line (codes "crc") 0)
    pure (some version)
  compare_update same line version = do
    notice w d (codes "Version " ++ (version ++ codes " ist aktuell"))
    pure none
  compare_update older line version = do notice w d (older_notice version); pure none

  unfoldable pub read_offer : Text → Text → Session w d (Option Text)
  read_offer line own_version =
      let status = (extract_param line (codes "status") [] status_capacity).0 in
      let version = (extract_param line (codes "version") [] version_capacity).0 in
      if text_eq status (codes "ready")
      then compare_update (compare_versions version own_version) line version
      else pure none

  unfoldable pub check_update : Text → Session w d (Option Text)
  check_update own_version = do
    say w d (codes "UPDATECHECK version=" ++ own_version)
    line ← hear w d
    check (is_kind line (codes "UPDATE")) (codes "UPDATE-Antwort fehlt")
    read_offer line own_version

  -- The greeting, with the version of the server.
  unfoldable pub greet : Text → Session w d Text
  greet own_version = do
    line ← hear w d
    check (is_kind line (codes "HELLO")) (codes "Server-HELLO fehlt")
    say w d (codes "HELLO proto=1 role=win16 version=" ++ own_version)
    pure (extract_param line (codes "version") [] version_capacity).0

  -- What a scan gives. One that leaves an array of the source is undefined there, and fails here.
  unfoldable pub scan_result :
      Ran w.Socket → World w.Socket d.State → Option (List FileItem) × World w.Socket d.State
  scan_result none u = (none, u)
  scan_result (some (false, client, items)) u = (none, with_client u client)
  scan_result (some (true, client, items)) u = (some items, with_client u client)

  unfoldable pub scan_files : Text → Session w d (List FileItem)
  scan_files root_dir u =
      let (disk, s) = d.scan u.state in
      scan_result (scan_directory disk root_dir u.net.client) (record u { state = s })

  unfoldable pub say_items : List FileItem → Session w d Done
  say_items [] = pure tt
  say_items (item ∷ items) = do
    say_item w d (codes "ITEM") (codes "Pfad konnte nicht codiert werden") item
    say_items items

  unfoldable pub say_manifest : List FileItem → Session w d Done
  say_manifest items = do say w d (codes "MANIFEST"); say_items items; say w d (codes "END")

  unfoldable pub exchange_files : ℕ → Text → Session w d Synced
  exchange_files rounds root_dir = do
    allocated ← allocate w d
    check allocated (codes "Nicht genug Speicher fuer Dateiliste")
    items ← scan_files root_dir
    say_manifest items
    counts ← serve w d rounds root_dir items (record { actions = 0; conflicts = 0 })
    changes hang_up
    pure (finished counts (summary_text counts.actions counts.conflicts (length items)))

  unfoldable pub after_check : ℕ → Text → Option Text → Session w d Synced
  after_check rounds root_dir none = exchange_files rounds root_dir
  after_check rounds root_dir (some version) = do
    changes hang_up
    pure (updated (update_summary version))

  -- All that is said on the connection. Servers from 0.2.0 on are asked for a newer client.
  unfoldable pub converse : ℕ → Text → Session w d Synced
  converse rounds root_dir = do
    own_version ← gets (λ u. u.net.client.app_version)
    server_version ← greet own_version
    loaded ←
        (if not (is_empty server_version)
            && is_not_older (compare_versions server_version (codes "0.2.0"))
          then check_update own_version
          else pure none)
    after_check rounds root_dir loaded

  -- proto_sync_directory, with `rounds` for its loop. Every `return PROTO_SYNC_RESULT_ERROR` behind
  -- proto_connect comes after proto_client_disconnect.
  unfoldable pub sync_directory : ℕ → Answers w.Socket → Text → Session w d Synced
  sync_directory rounds answers root_dir = do
    check (not (is_empty root_dir)) (codes "Kein Zielverzeichnis konfiguriert")
    notice w d []
    open_connection answers
    on_failure hang_up (converse rounds root_dir)
