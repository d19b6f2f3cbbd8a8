-- ===== src/App/Config/Saved.antt =====
-- The settings that client/main.c saves and loads.
use win16sync.Prelude.{
  ◌^◌, ◌≤◌, ◌<◌, ◌≡◌, true, Option, some, List, [], ◌∷◌, if◌then◌else◌, Text, All, length,
}
use win16sync.App.Config.{Settings, IniEntry, entries, is_plain, same_key}

-- What is under a key after the entries have been written.
abbrev written_value : List IniEntry → Text → Text → Option Text → Option Text
written_value [] section key old = old
written_value ((section', key', text) ∷ rest) section key old =
    written_value rest section key (if same_key section' key' section key then some text else old)

abbrev pub ArePlain : List IniEntry → Type 0
ArePlain = All (λ e. is_plain e.2 ≡ true)

-- Settings that a file can hold.
pub record AreSaved (g : Settings) : Type 0 where
  pub host_fits : length g.host < 64
  pub root_fits : length g.root_dir < 160
  pub port_range : (1 ≤ g.port) × (g.port < 2 ^ 15)
  pub interval_range : (1 ≤ g.sync_interval_seconds) × (g.sync_interval_seconds ≤ 3600)
  pub plain : ArePlain (entries g)
