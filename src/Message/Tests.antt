-- ===== src/Message/Tests.antt =====
-- A line of a list of files.
use win16sync.Prelude.{◌<◌, ◌≡◌, refl, false, some, [], if◌then◌else◌, length, Text, codes, arith}
use win16sync.Hex.{encode_hex, decode_hex}
use win16sync.Items.{FileItem}
use win16sync.Line.{extract_param, extract_ulong_dec, extract_ulong_hex}
use win16sync.Message.{path_hex_capacity, describe}
use win16sync.Message.Describe.{describe-read}
use win16sync.Path.{path_capacity}
use win16sync.Print.{print_dec, print_hex, dec_loop, hex_loop}
use win16sync.Session.{line_capacity}

abbrev item : FileItem
item = record {
  path = codes "A.TXT";
  local_path = codes "C:\\A.TXT";
  size = 70000;
  crc32 = 0x0A1B2C3D;
  dos_stamp = 0x21000000;
}

described :
    describe (codes "ITEM") (codes "412E545854") item false
    ≡ codes "ITEM path=412E545854 size=70000 crc=0A1B2C3D dos=21000000 crc_known=1"
unfolding describe print_dec print_hex dec_loop hex_loop
described = refl

abbrev line : Text
line = describe (codes "ITEM") (codes "412E545854") item false

describe-read_example :
    (length line < line_capacity)
    × (decode_hex (extract_param line (codes "path") [] path_hex_capacity).0 path_capacity
        ≡ some item.path)
    × (extract_ulong_dec line (codes "size") 0 ≡ item.size)
    × (extract_ulong_hex line (codes "crc") 0 ≡ item.crc32)
    × (extract_ulong_hex line (codes "dos") 0 ≡ item.dos_stamp)
    × (extract_ulong_dec line (codes "crc_known") 0 ≡ (if false then 0 else 1))
unfolding encode_hex
describe-read_example =
    describe-read b'I' (codes "TEM") item false
      ((refl, refl), ((refl, refl), ((refl, refl), ((refl, refl), tt)))) (omega arith)
      (omega arith, (omega arith, (omega arith, (omega arith, (omega arith, tt))))) (omega arith)
      (omega arith) (omega arith) (omega arith) refl
