-- ===== src/Sync/Talk.antt =====
-- What is said before the list of files and in it keeps what the calls keep.
use win16sync.Prelude.{ℕ, List, [], ◌∷◌, Text, codes}
use win16sync.Action.{changes}
use win16sync.Dos.{Dos}
use win16sync.Items.{FileItem}
use win16sync.Session.{World}
use win16sync.Session.Frame.{Keeps, IsFrame, keeps_rules, Keeps-pure, Keeps-bind}
use win16sync.Sync.{compare_update, read_offer, check_update, greet, say_items, say_manifest}
use win16sync.Sync.Framed.{refuse_dropping-Keeps, verify-Keeps, fetch_file-Keeps, say_item-Keeps}
use win16sync.Update.{
  notice, write_control, start_helper, fetch_update, install_update, receive_update,
}
use win16sync.Version.{Comparison, older, same, newer}
use win16sync.Winsock.{Winsock}

module _ {w : Winsock} {d : Dos} {R : World w.Socket d.State → World w.Socket d.State → Type 0}
    (f : IsFrame w d R) where
  pub notice-Keeps : (message : Text) → Keeps R (notice w d message)
  unfolding notice changes
  notice-Keeps message = record { at = λ u. f.notice u message }

  write_control-Keeps :
      (update_path update_ini : Text) → Keeps R (write_control w d update_path update_ini)
  unfolding write_control
  write_control-Keeps update_path update_ini = search (keeps_rules, refuse_dropping-Keeps) depth 9

  start_helper-Keeps :
      (update_path update_ini : Text) → Keeps R (start_helper w d update_path update_ini)
  unfolding start_helper
  start_helper-Keeps update_path update_ini = search (keeps_rules, refuse_dropping-Keeps) depth 9

  fetch_update-Keeps :
      (update_path : Text) (size crc : ℕ) → Keeps R (fetch_update w d update_path size crc)
  unfolding fetch_update
  fetch_update-Keeps update_path size crc =
      let says = f.says in
      let hears = f.hears in search (keeps_rules, fetch_file-Keeps, verify-Keeps) depth 14

  install_update-Keeps :
      (update_path update_ini server_version : Text) (size crc : ℕ)
      → Keeps R (install_update w d update_path update_ini server_version size crc)
  unfolding install_update
  install_update-Keeps update_path update_ini server_version size crc =
      let says = f.says in
      search
        (keeps_rules, fetch_update-Keeps, write_control-Keeps, start_helper-Keeps, notice-Keeps)
        depth 14

  receive_update-Keeps :
      (server_version : Text) (size crc : ℕ) → Keeps R (receive_update w d server_version size crc)
  unfolding receive_update
  receive_update-Keeps server_version size crc = search (keeps_rules, install_update-Keeps) depth 14

  compare_update-Keeps :
      (c : Comparison) (line version : Text) → Keeps R (compare_update w d c line version)
  unfolding compare_update
  compare_update-Keeps newer line version = search (keeps_rules, receive_update-Keeps)
  compare_update-Keeps same line version = search (keeps_rules, notice-Keeps)
  compare_update-Keeps older line version = search (keeps_rules, notice-Keeps)

  pub check_update-Keeps : (own_version : Text) → Keeps R (check_update w d own_version)
  unfolding check_update read_offer
  check_update-Keeps own_version =
      let says = f.says in let hears = f.hears in search (keeps_rules, compare_update-Keeps) depth 9

  pub greet-Keeps : (own_version : Text) → Keeps R (greet w d own_version)
  unfolding greet
  greet-Keeps own_version = let says = f.says in let hears = f.hears in search keeps_rules depth 9

  say_items-Keeps : (items : List FileItem) → Keeps R (say_items w d items)
  unfolding say_items
  say_items-Keeps [] = Keeps-pure f tt
  say_items-Keeps (item ∷ items) =
      Keeps-bind f _ (λ _. say_items w d items) (say_item-Keeps f (codes "ITEM") _ item)
        (λ _. say_items-Keeps items)

  pub say_manifest-Keeps : (items : List FileItem) → Keeps R (say_manifest w d items)
  unfolding say_manifest
  say_manifest-Keeps items = let says = f.says in search (keeps_rules, say_items-Keeps)
