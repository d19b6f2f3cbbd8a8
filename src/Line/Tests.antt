-- ===== src/Line/Tests.antt =====
-- Runs of the line routines.
use win16sync.Prelude.{◌≡◌, refl, true, false, [], codes, Text}
use win16sync.Number.{strtoul}
use win16sync.Line.{line_kind, extract_param, extract_ulong_hex, extract_ulong_dec}
use win16sync.Prelude.{◌∷◌, text_eq, arith}
use win16sync.Line.Fields.{extract_param-fields}

abbrev action : Text
action = codes "ACTION kind=download path=412F62 size=1200 crc=00fF10aB dos=0"

kind_of : line_kind [] action 16 ≡ codes "ACTION"
unfolding line_kind
kind_of = refl

path_of : extract_param action (codes "path") [] 288 ≡ (codes "412F62", true)
unfolding extract_param
path_of = refl

missing : extract_param action (codes "name") [] 288 ≡ ([], false)
unfolding extract_param
missing = refl

size_of : extract_ulong_dec action (codes "size") 0 ≡ 1200
unfolding extract_ulong_dec extract_param strtoul
size_of = refl

crc_of : extract_ulong_hex action (codes "crc") 0 ≡ 0xff10ab
unfolding extract_ulong_hex extract_param strtoul
crc_of = refl

extract_param-fields_example :
    extract_param (codes "ACTION kind=noop size=7") (codes "size") [] 8 ≡ (codes "7", true)
unfolding text_eq
extract_param-fields_example =
    extract_param-fields b'A' (codes "CTION")
      ((codes "kind", codes "noop") ∷ (codes "size", codes "7") ∷ []) (codes "size") [] 8
      (
        (refl, refl),
        ((refl, refl), ((refl, refl), ((refl, refl), ((refl, refl), ((refl, refl), tt))))),
      )
      (
        (
          ((refl, refl), ((refl, refl), ((refl, refl), ((refl, refl), tt)))),
          (refl, (refl, (refl, (refl, tt)))),
        ),
        ((((refl, refl), ((refl, refl), ((refl, refl), ((refl, refl), tt)))), (refl, tt)), tt),
      )
      ((refl, refl), ((refl, refl), ((refl, refl), ((refl, refl), tt))))
      (omega arith, (omega arith, tt)) (omega arith)
