-- ===== src/Message.antt =====
-- client/proto.c: the lines in which the client describes a file, of proto_send_upload and of
-- proto_sync_directory, and the texts with numbers that it shows.
pub mod Describe
mod Tests
use win16sync.Prelude.{ℕ, ◌-◌, ◌^◌, Bool, ◌++◌, ◌∷◌, ltb, if◌then◌else◌, Text, codes}
use win16sync.Items.{FileItem}
use win16sync.Print.{print_dec, print_hex}

-- `char path_hex[PROTO_PATH_CAPACITY * 2]`
abbrev pub path_hex_capacity : ℕ
path_hex_capacity = 288

-- `"ITEM path=%s size=%lu crc=%08lX dos=%08lX crc_known=%d"`, the kind being an argument.
unfoldable pub describe : Text → Text → FileItem → Bool → Text
describe kind path_hex item crc_disabled =
    kind
    ++ (codes " path="
        ++ (path_hex
            ++ (codes " size="
                ++ (print_dec item.size
                    ++ (codes " crc="
                        ++ (print_hex item.crc32
                            ++ (codes " dos="
                                ++ (print_hex item.dos_stamp
                                    ++ (codes " crc_known="
                                        ++ print_dec (if crc_disabled then 0 else 1))))))))))

-- `%d` of a 16-bit `int`, given by its bits
unfoldable pub print_int : ℕ → Text
print_int n = if ltb n (2 ^ 15) then print_dec n else b'-' ∷ print_dec (2 ^ 16 - n)

-- proto_summary_text
unfoldable pub summary_text : ℕ → ℕ → ℕ → Text
summary_text actions conflicts files =
    codes "Sync ok: "
    ++ (print_int actions
        ++ (codes " Aktionen, "
            ++ (print_int conflicts
                ++ (codes " Konflikte, " ++ (print_int files ++ codes " Dateien")))))
