-- ===== src/App/Config/Tests.antt =====
-- Settings saved to an INI file in memory.
use win16sync.Prelude.{
  ℕ, Bool, true, false, Option, none, some, Text, codes, take, if◌then◌else◌, ◌-◌, text_eq, [],
}
use win16sync.App.Config.{Ini, Settings, Desktop, same_key, value_or}
use win16sync.Number.{strtoul}

abbrev Values : Type 0
Values = Text → Text → Option Text

abbrev flag_number : Bool → ℕ
flag_number flag = if flag then 1 else 0

abbrev is_one : Option Text → Bool
is_one none = false
is_one (some t) = text_eq t (codes "1")

abbrev memory : Ini
memory = record {
  State = Values;
  read_string = λ s section key default_text capacity.
      take (capacity - 1) (value_or default_text (s section key));
  read_int = λ s section key. if is_one (s section key) then 1 else 0;
  write_string = λ s section key text. (
    true,
    λ section' key'. if same_key section key section' key' then some text else s section' key',
  );
  flush = λ s. s;
}

abbrev atoi : Text → ℕ
atoi t = (strtoul 10 t).0

abbrev settings : Settings
settings = record {
  host = codes "10.0.0.1";
  port = 9071;
  root_dir = codes "C:\\DATA";
  sync_interval_seconds = 30;
  crc_disabled = false;
  cache_recheck_enabled = true;
  autostart = false;
  start_minimized = true;
}

abbrev old : Settings
old = record {
  host = [];
  port = 0;
  root_dir = [];
  sync_interval_seconds = 0;
  crc_disabled = true;
  cache_recheck_enabled = false;
  autostart = true;
  start_minimized = false;
}

abbrev desk : Desktop
desk = record { run = []; load = []; timer = none }
