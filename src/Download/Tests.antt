-- ===== src/Download/Tests.antt =====
-- A download on a machine in memory, from a connection of two texts.
use win16sync.Prelude.{
  ◌≢◌, refl, ap, [], none, some, Text, codes, if◌then◌else◌, text_eq, arith, get_or,
}
use win16sync.Action.{Done}
use win16sync.Action.Ends.{Ends}
use win16sync.Client.{client_init}
use win16sync.Dos.Ram.{Files, ram, ram-IsDos}
use win16sync.Download.{Download, receive_download}
use win16sync.Download.Outcome.{IsFailed}
use win16sync.Download.Complete.{Downloaded, receive_download-Downloaded}
use win16sync.Path.{protocol_to_local, build_temp_path}
use win16sync.Session.{World}
use win16sync.Text.{append_text, copy_text}
use win16sync.Wire.Pipe.{pipe, pipe-IsStream}

-- The old file holds "old"; the server sends "new".
abbrev disk : Files
disk q = if text_eq q (codes "C:\\DATA\\A.TXT") then some (codes "old") else none

abbrev start : World (Text × Text) Files
start = record {
  net = record {
    client = record client_init { socket_handle = some (codes "FILE size=3\r\nnewDONE", []) };
    module_handle = 40;
    calls = [];
  };
  state = disk;
}

abbrev file : Download
file = record { path = codes "A.TXT"; size = 3; crc = 1810056261; dos_stamp = 0 }

apart : codes "C:\\DATA\\SYNC.$$$" ≢ codes "C:\\DATA\\A.TXT"
apart e = absurd (omega (arith, ap (λ t. get_or t 8 0) e))

receive_download-Downloaded_example :
    Ends {A = Done}
      (λ _.
        Downloaded pipe ram pipe-IsStream ram-IsDos
          (λ s p. refl)
          disk
          (codes "C:\\DATA\\SYNC.$$$")
          (codes "C:\\DATA\\A.TXT")
          file
          start)
      (λ u'.
        IsFailed ram ram-IsDos disk
          (codes "C:\\DATA\\SYNC.$$$")
          (codes "C:\\DATA\\A.TXT")
          start.net.client.crc_disabled
          file
          u'.state)
      (receive_download pipe ram (codes "C:\\DATA") file start)
unfolding protocol_to_local build_temp_path client_init append_text copy_text
receive_download-Downloaded_example =
    receive_download-Downloaded pipe ram pipe-IsStream ram-IsDos (λ s p. refl) (codes "C:\\DATA")
      file start refl refl apart (omega arith)
