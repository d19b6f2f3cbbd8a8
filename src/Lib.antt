-- ===== src/Lib.antt =====
-- Win16Sync: the client of a file synchroniser for Windows 3.x. The client (client/proto.c, with
-- its state in client/proto.h) keeps a directory the same as a directory of a server. It scans the
-- directory, tells the server each file with its size, time stamp and CRC-32, and carries out the
-- actions that the server answers with. All of this goes over one TCP connection in lines
-- `KIND key=value key=value ...`, in which paths are hexadecimal.
--
-- A char array that holds a text is the list of its bytes before the terminator; `none` and `false`
-- are a returned 0. Numbers are natural numbers; a 32-bit value keeps its wrap-around, written out.
-- Pointers that the callers never pass as NULL are no arguments.
--
-- Text: proto_copy_text and proto_append_text, the bounded copies under everything else.
-- Path: proto_get_directory_path, proto_path_name, proto_local_join, proto_protocol_to_local,
--   proto_build_temp_path and proto_ensure_parent_dirs; the last gives the directories that it
--   asks _mkdir for. Path.Split and Path.Join hold the theorems.
-- Name: proto_is_valid_char and proto_is_valid_component. What the stack holds behind the array
--   `upper` is an argument, since the code reads it.
-- Hex: proto_encode_hex, proto_hex_value and proto_decode_hex.
-- Number: `strtoul` of the C library, in the bases ten and sixteen.
-- Version: proto_compare_versions. Its loop runs on fuel, one round more than both texts are long;
--   each round but the last takes a character of one of them.
-- Line: proto_line_kind, proto_extract_param and the two proto_extract_ulong routines.
-- Bits: the exclusive or of numbers. Crc: proto_crc32_step and proto_file_crc32, whose reads of at
--   most 1024 bytes are a recursion on the length of the file.
-- Cache: the table of known checksums: proto_lookup_cached_crc, proto_remember_cached_crc and
--   proto_forget_cached_crc, over the tick count and the result of malloc as arguments.
-- Client: ProtoClient, proto_client_init and the setters.
-- Winsock: the functions of WINSOCK.DLL, which is not in the repository, as a parameter, with the
--   laws of a stream connection. Wire: proto_send_all, proto_send_line, proto_read_line and
--   proto_read_exact on it. Each loop has fuel for as many rounds as it has bytes to go, and one;
--   each round but the last moves at least one byte.
-- Connect: proto_winsock_load, proto_winsock_unload, proto_connect and proto_client_disconnect.
--   What Windows and the DLL answer is a record; the calls are kept in a list.
-- Items: ProtoFileItem, proto_add_file_item and proto_find_item, over the tick counts, the result
--   of malloc and the contents of files as a record.
-- Scan: proto_scan_recursive and proto_scan_directory on whatever _dos_findfirst and _dos_findnext
--   give. A `sprintf` can leave its array, which is an outcome of the model. The depth of 145 levels
--   is enough since each level makes a local path longer that has less than 144 characters. `qsort`
--   is an insertion sort.
-- Transfer: proto_report_transfer, with the three figures for the text that it shows.
-- Dos: what client/proto.c uses of DOS, Windows and the C library, as a parameter with its laws; a
--   file has its contents under the full name of its path. Dos.Ram is a machine in memory.
-- Action: what may fail after it has changed something; Action.Ends speaks of both ends.
-- Session: the state of a connection, its calls in order, with one rule for each way to build an
--   action (Session.Frame).
-- Print: `sprintf` of %lu, %d and %08lX. Message: the lines that the client builds.
-- Download: proto_receive_download with proto_write_file_timestamp, proto_delete_local_file,
--   proto_copy_file and proto_file_crc32 as they read and write. The loop over the pieces has fuel
--   for as many rounds as bytes are to come, and one; a round but the last takes at least one byte.
-- Upload: proto_send_upload. Update: proto_receive_update.
-- Sync: proto_sync_directory. The server decides how many actions it sends, so the loop over them
--   has the number of rounds as an argument. Where a scan overruns an array, which is undefined in
--   the source, this synchronisation fails.
-- App: app_parse_interval_text and app_apply_timer of client/main.c, with 16-bit integers.
--   App.Autostart: app_remove_autostart_entry, app_append_token and app_apply_autostart. The loop
--   over a line has fuel for as many rounds as the line has bytes, and one; a round but the last
--   takes at least one byte.
--   App.Config: app_load_config and app_save_config; the INI files and `atoi` are parameters.
--   App.Helper: app_run_update_mode with app_load_file, app_write_file and app_join_path, and
--   app_cleanup_update_artifacts. How fast the clock goes is not known, so the loop that waits for
--   the client to end has the number of rounds as an argument, and may still be waiting.
-- Setup: client/setup.c, from the text and path building to setup_install, over what the user has
--   entered and what Windows and the program manager answer. The files are those that the installer
--   writes itself, not the group file that the program manager keeps.
-- Prelude: Boolean tests, lists and bytes for all of them.
--
-- Not modelled: the log file and the progress display, which only show what is done; what a full
-- disk loses at `fclose`; the windows, the command line and app_run_sync of client/main.c; the
-- dialog and the DDE session of client/setup.c; the server (server/src/main.rs), a program of its
-- own in another language; resources and build files.
pub mod Prelude
pub mod Text
pub mod Path
pub mod Hex
pub mod Number
pub mod Version
pub mod Line
pub mod Name
pub mod Bits
pub mod Crc
pub mod Cache
pub mod Client
pub mod Winsock
pub mod Wire
pub mod Connect
pub mod Items
pub mod Transfer
pub mod Scan
pub mod App
pub mod Dos
pub mod Action
pub mod Session
pub mod Download
pub mod Print
pub mod Message
pub mod Upload
pub mod Update
pub mod Sync
pub mod Setup
