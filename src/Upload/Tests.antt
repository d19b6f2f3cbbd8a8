-- ===== src/Upload/Tests.antt =====
-- An upload from a machine in memory to a connection of two texts.
use win16sync.Prelude.{◌≡◌, refl, none, some, [], ◌++◌, Text, codes, if◌then◌else◌, text_eq}
use win16sync.Action.{Done}
use win16sync.Action.Ends.{Ends}
use win16sync.Client.{client_init}
use win16sync.Dos.Ram.{Files, ram, ram-IsDos}
use win16sync.Hex.{encode_hex}
use win16sync.Items.{FileItem}
use win16sync.Message.{describe}
use win16sync.Session.{World}
use win16sync.Session.Calls.{said}
use win16sync.Upload.{send_upload}
use win16sync.Upload.Sent.{IsCalm, send_upload-Ends}
use win16sync.Wire.Pipe.{pipe, pipe-IsStream}

abbrev disk : Files
disk q = if text_eq q (codes "C:\\A.TXT") then some (codes "hello") else none

abbrev start : World (Text × Text) Files
start = record {
  net = record {
    client = record client_init { socket_handle = some (codes "OK\r\n", []) };
    module_handle = 40;
    calls = [];
  };
  state = disk;
}

abbrev item : FileItem
item = record {
  path = codes "A.TXT";
  local_path = codes "C:\\A.TXT";
  size = 5;
  crc32 = 907060870;
  dos_stamp = 0;
}

send_upload-Ends_example :
    Ends {A = Done}
      (λ _ u'.
        IsCalm pipe ram pipe-IsStream ram-IsDos start u'
        × (said pipe ram pipe-IsStream u'
            ≡ (said pipe ram pipe-IsStream start
                ++ (describe (codes "PUT") (codes "412E545854") item start.net.client.crc_disabled
                    ++ codes "\r\n"))
              ++ codes "hello"))
      (IsCalm pipe ram pipe-IsStream ram-IsDos start)
      (send_upload pipe ram item start)
unfolding encode_hex text_eq
send_upload-Ends_example =
    send_upload-Ends pipe ram pipe-IsStream ram-IsDos item start (λ s p. refl) refl refl
