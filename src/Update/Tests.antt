-- ===== src/Update/Tests.antt =====
-- The loading of a newer client on a machine in memory.
use win16sync.Prelude.{◌≡◌, refl, none, some, [], ◌∷◌, ◌++◌, length, Text, codes, c_text, arith}
use win16sync.Action.{Done}
use win16sync.Action.Ends.{Ends}
use win16sync.Client.{client_init}
use win16sync.Crc.{file_crc32}
use win16sync.Dos.{Only}
use win16sync.Dos.Ram.{Files, ram, ram-IsDos}
use win16sync.Download.{kind_capacity}
use win16sync.Download.Local.{Others}
use win16sync.Line.{line_kind}
use win16sync.Session.{World}
use win16sync.Session.Calls.{ahead, said}
use win16sync.Update.{fetch_update}
use win16sync.Update.Fetched.{fetch_update-Fetches}
use win16sync.Wire.Newline.{HasNoNewline}
use win16sync.Wire.Pipe.{pipe, pipe-IsStream}
use win16sync.Wire.ReadLine.{strip_cr}

abbrev start : World (Text × Text) Files
start = record {
  net = record {
    client = record client_init {
      socket_handle = some (codes "UPDATEFILE size=3 crc=6BE3A105\r\nnew", []);
    };
    module_handle = 40;
    calls = [];
  };
  state = λ q. none;
}

abbrev path : Text
path = codes "C:\\W16NEW.EXE"

fetch_update-Fetches_example :
    Ends {A = Done}
      (λ _ u'.
        (raw : Text) × (bytes : Text) × (ahead pipe ram pipe-IsStream start
          ≡ raw ++ b'\n' ∷ (bytes ++ ahead pipe ram pipe-IsStream u'))
        × HasNoNewline raw
        × (line_kind [] (c_text (strip_cr raw)) kind_capacity ≡ codes "UPDATEFILE")
        × (length bytes ≡ 3)
        × (file_crc32 (some bytes) ≡ some 0x6BE3A105)
        × Only (λ s. s) path (some bytes) start.state u'.state
        × (said pipe ram pipe-IsStream u'
            ≡ said pipe ram pipe-IsStream start ++ codes "GETUPDATE\r\n"))
      (λ u'. Others (λ s. s) path start.state u'.state)
      (fetch_update pipe ram path 3 0x6BE3A105 start)
unfolding client_init
fetch_update-Fetches_example =
    fetch_update-Fetches pipe ram pipe-IsStream ram-IsDos (λ s p. refl) path 3 0x6BE3A105 start
      (omega arith)
