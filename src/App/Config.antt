-- ===== src/App/Config.antt =====
-- client/main.c: the settings, app_load_config and app_save_config. The INI files are Windows'
-- matter and a parameter, as is `atoi`, cast to 16 bits.
pub mod Saved
mod Tests
use win16sync.Prelude.{
  ℕ, ◌%◌, ◌^◌, ◌≡◌, ◌&&◌, ◌||◌, Bool, true, false, not, Option, none, some, List, [], ◌∷◌, ltb, leb,
  ◌-◌, ◌==◌, if◌then◌else◌, Text, codes, get_or, take, text_eq,
}
use win16sync.App.{parse_interval_text, timer_milliseconds}
use win16sync.App.Autostart.{apply_autostart, app_path_capacity}
use win16sync.Client.{host_capacity}
use win16sync.Path.{is_empty}
use win16sync.Print.{print_dec}

-- The private INI file: GetPrivateProfileString with a default and a size, GetPrivateProfileInt
-- with the default 0, and WritePrivateProfileString, and the call of it that writes the buffer.
pub record Ini : Type 1 where
  pub State : Type 0
  pub read_string : State → Text → Text → Text → ℕ → Text
  pub read_int : State → Text → Text → ℕ
  pub write_string : State → Text → Text → Text → Bool × State
  pub flush : State → State

-- The settings in `g_app`.
pub record Settings : Type 0 where
  pub host : Text
  pub port : ℕ
  pub root_dir : Text
  pub sync_interval_seconds : ℕ
  pub crc_disabled : Bool
  pub cache_recheck_enabled : Bool
  pub autostart : Bool
  pub start_minimized : Bool

-- The lines `run` and `load` of WIN.INI, and the milliseconds of the timer.
pub record Desktop : Type 0 where
  pub run : Text
  pub load : Text
  pub timer : Option ℕ

abbrev pub port_of : ℕ → ℕ
port_of port = if port % 2 ^ 16 == 0 then 9071 else port % 2 ^ 16

-- `wsprintf(flag_text, "%d", b ? 1 : 0)`
abbrev pub flag_text : Bool → Text
flag_text true = codes "1"
flag_text false = codes "0"

abbrev pub IniEntry : Type 0
IniEntry = Text × Text × Text

-- What app_save_config writes, in order.
unfoldable pub entries : Settings → List IniEntry
entries g =
    (codes "server", codes "host", g.host)
    ∷ (codes "server", codes "port", print_dec g.port)
    ∷ (codes "client", codes "root_dir", g.root_dir)
    ∷ (codes "client", codes "interval_seconds", print_dec g.sync_interval_seconds)
    ∷ (codes "client", codes "crc_disabled", flag_text g.crc_disabled)
    ∷ (codes "client", codes "crc_recheck", flag_text g.cache_recheck_enabled)
    ∷ (codes "client", codes "autostart", flag_text g.autostart)
    ∷ (codes "client", codes "start_minimized", flag_text g.start_minimized)
    ∷ []

unfoldable pub apply_desktop : Option Text → Bool → Settings → Desktop → Desktop
apply_desktop module_path window g desk =
    let timer = if window then some (timer_milliseconds g.sync_interval_seconds) else desk.timer in
    elim module_path [
      | none ↦ record desk { timer = timer }
      | some path ↦
          let (run, load) = apply_autostart g.autostart g.start_minimized path desk.run desk.load in
          record { run = run; load = load; timer = timer }
    ]

module _ (w : Ini) where
  -- A chain of writes, which a failure ends.
  unfoldable pub write_all : List IniEntry → w.State → Bool × w.State
  write_all [] s = (true, s)
  write_all ((section, key, value) ∷ rest) s =
      let (written, s') = w.write_string s section key value in
      let after = write_all rest s' in if written then after else (false, s')

  -- app_save_config, with the path of the program, if it is found, and whether there is a window.
  unfoldable pub save_config :
      Option Text → Bool → Settings → w.State × Desktop → Bool × (w.State × Desktop)
  save_config module_path window g (s, desk) =
      let (written, s') = write_all (entries g) s in
      if written
      then (true, (w.flush s', apply_desktop module_path window g desk))
      else (false, (s', desk))

module _ (w : Ini) (atoi : Text → ℕ) where
  unfoldable pub load_config : w.State → Settings → Settings
  load_config s g = record {
    host = w.read_string s (codes "server") (codes "host") g.host host_capacity;
    port = port_of (atoi (w.read_string s (codes "server") (codes "port") (codes "9071") 16));
    root_dir =
        w.read_string s (codes "client") (codes "root_dir") (codes "C:\\SYNC") app_path_capacity;
    sync_interval_seconds =
        parse_interval_text atoi
          (w.read_string s (codes "client") (codes "interval_seconds") (codes "15") 16);
    crc_disabled = not (w.read_int s (codes "client") (codes "crc_disabled") == 0);
    cache_recheck_enabled = not (w.read_int s (codes "client") (codes "crc_recheck") == 0);
    autostart = not (w.read_int s (codes "client") (codes "autostart") == 0);
    start_minimized = not (w.read_int s (codes "client") (codes "start_minimized") == 0);
  }

-- The text that Windows gives back as it was written: no control characters, and neither end is a
-- space or a quotation mark.
abbrev pub is_outer : ℕ → Bool
is_outer c = c == b' ' || c == b'"' || c == b'\''

abbrev pub last_of : ℕ → Text → ℕ
last_of c [] = c
last_of c (d ∷ s) = last_of d s

abbrev pub is_printed : Text → Bool
is_printed [] = true
is_printed (c ∷ s) = leb 32 c && is_printed s

abbrev pub is_plain : Text → Bool
is_plain [] = true
is_plain (c ∷ s) = is_printed (c ∷ s) && not (is_outer c) && not (is_outer (last_of c s))

abbrev pub value_or : Text → Option Text → Text
value_or t none = t
value_or t (some v) = v

abbrev pub same_key : Text → Text → Text → Text → Bool
same_key section key section' key' = text_eq section section' && text_eq key key'

-- The documented behaviour of INI files: `value` is what is written under a key of a section.
pub record IsIni (w : Ini) : Type 0 where
  pub value : w.State → Text → Text → Option Text
  pub read_string_value :
      (s : w.State) (section key default_text : Text) (capacity : ℕ)
      → w.read_string s section key default_text capacity
        ≡ take (capacity - 1) (value_or default_text (value s section key))
  pub read_int_value :
      (s : w.State) (section key : Text) (flag : Bool)
      → value s section key ≡ some (flag_text flag)
      → w.read_int s section key ≡ (if flag then 1 else 0)
  pub write_string_value :
      (s : w.State) (section key text section' key' : Text)
      → is_plain text ≡ true
      → (w.write_string s section key text).0 ≡ true
      → value (w.write_string s section key text).1 section' key'
        ≡ (if same_key section key section' key' then some text else value s section' key')
  pub flush_value :
      (s : w.State) (section key : Text) → value (w.flush s) section key ≡ value s section key
