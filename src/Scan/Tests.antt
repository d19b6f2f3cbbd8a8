-- ===== src/Scan/Tests.antt =====
-- The scan of a directory that holds a file, the client's own log and a directory with one file.
use win16sync.Prelude.{
  ℕ, Bool, true, false, some, List, [], ◌∷◌, refl, arith, Text, codes, text_eq, if◌then◌else◌, All,
}
use win16sync.Client.{ProtoClient, client_init}
use win16sync.Cache.Invariant.{no_cache-IsValid}
use win16sync.Items.{Surroundings}
use win16sync.Scan.{Found, Disk, scan_depth, scan_recursive, scan_directory}
use win16sync.Scan.Sorted.{Sorts, scan_directory-Sorts}
use win16sync.Scan.Listing.{IsDosName, IsDos, Lists, scan_recursive-Lists}

abbrev root : Text
root = codes "C:\\DATA\\FILES"

abbrev file : Text → Found
file name = record { name = name; is_directory = false; size = 2; wr_date = 1; wr_time = 1 }

abbrev top : List Found
top =
    file (codes "B.TXT")
    ∷ file (codes "W16SYNC.LOG")
    ∷ record { name = codes "SUB"; is_directory = true; size = 0; wr_date = 1; wr_time = 1 }
    ∷ []

abbrev find_in : Text → List Found
find_in pattern =
    if text_eq pattern (codes "C:\\DATA\\FILES\\*.*")
    then top
    else if text_eq pattern (codes "C:\\DATA\\FILES\\SUB\\*.*")
    then file (codes "A.TXT") ∷ []
    else []

abbrev calm : Surroundings
calm = record { looked = 1; written = 1; malloc_ok = true; read = λ path. some (codes "AB") }

abbrev disk : Disk
disk = record { find = find_in; around = λ n. calm; stale = λ current name. [] }

abbrev client : ProtoClient ℕ
client = client_init

All-if :
    (b : Bool) (xs ys : List Found)
    → All (λ found. IsDosName found.name) xs
    → All (λ found. IsDosName found.name) ys
    → All (λ found. IsDosName found.name) (if b then xs else ys)
All-if true xs ys h k = h
All-if false xs ys h k = k

disk-IsDos : IsDos disk
disk-IsDos pattern =
    All-if (text_eq pattern (codes "C:\\DATA\\FILES\\*.*")) top
      (if text_eq pattern (codes "C:\\DATA\\FILES\\SUB\\*.*")
        then file (codes "A.TXT") ∷ []
        else [])
      (
        ((refl, (refl, (refl, (refl, (refl, tt))))), refl, omega arith),
        (
          (
            (
              refl,
              (refl, (refl, (refl, (refl, (refl, (refl, (refl, (refl, (refl, (refl, tt)))))))))),
            ),
            refl,
            omega arith,
          ),
          (((refl, (refl, (refl, tt))), refl, omega arith), tt),
        ),
      )
      (All-if (text_eq pattern (codes "C:\\DATA\\FILES\\SUB\\*.*")) (file (codes "A.TXT") ∷ []) []
        (((refl, (refl, (refl, (refl, (refl, tt))))), refl, omega arith), tt) tt)

scan_recursive-Lists_example : Lists root (scan_recursive disk scan_depth root [] client [])
unfolding client_init
scan_recursive-Lists_example =
    scan_recursive-Lists disk disk-IsDos root (refl, refl) (omega arith) client no_cache-IsValid

scan_directory-Sorts_example :
    Sorts (scan_recursive disk scan_depth root [] client []) (scan_directory disk root client)
unfolding client_init
scan_directory-Sorts_example =
    scan_directory-Sorts disk root client disk-IsDos (refl, refl) (omega arith) no_cache-IsValid
