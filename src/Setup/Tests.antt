-- ===== src/Setup/Tests.antt =====
-- An installation on a machine in memory.
use win16sync.Prelude.{◌≡◌, refl, none, some, [], true, false, codes, arith}
use win16sync.Dos.Ram.{Files, ram, ram-IsDos}
use win16sync.Setup.{Desk, Site, setup_join_path, build_progman_add_item, install}
use win16sync.Setup.Command.{fitting, add_item_command, build_progman_add_item-fitting}
use win16sync.Setup.Install.{Installed, install-Installed}
use win16sync.Text.{append_text}

abbrev desk : Desk
desk = record {
  install_dir = codes "C:\\W16";
  create_group = true;
  run_after = false;
  resource = some (codes "MZ-client");
  progman = λ before command. true;
}

abbrev site : Site Files
site = record { state = λ q. none; commands = []; shown = []; started = [] }

build_progman_add_item-fitting_example :
    build_progman_add_item 512 (codes "C:\\W16\\W16SYNC.EXE") (codes "C:\\W16")
    ≡ fitting 512 (add_item_command (codes "C:\\W16\\W16SYNC.EXE") (codes "C:\\W16"))
build_progman_add_item-fitting_example =
    build_progman_add_item-fitting 512 (codes "C:\\W16\\W16SYNC.EXE") (codes "C:\\W16")
      (omega arith)

install-Installed_example :
    Installed ram ram-IsDos
      (some (codes "MZ-client"))
      (codes "C:\\W16\\W16SYNC.EXE")
      (λ q. none)
      (install ram desk site)
unfolding setup_join_path append_text
install-Installed_example =
    install-Installed ram ram-IsDos desk (codes "C:\\W16\\W16SYNC.EXE") site refl refl
