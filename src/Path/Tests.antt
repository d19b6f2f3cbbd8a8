-- ===== src/Path/Tests.antt =====
-- Runs of the path routines.
use win16sync.Prelude.{◌≡◌, refl, some, [], ◌∷◌, codes}
use win16sync.Text.{copy_text, append_text}
use win16sync.Path.{
  get_directory_path, path_name, local_join, protocol_to_local, build_temp_path, ensure_parent_dirs,
}
use win16sync.Prelude.{◌++◌, arith}
use win16sync.Path.Split.{directory-name_split, build_temp_path-beside, ensure_parent_dirs-split}
use win16sync.Path.Join.{protocol_to_local_lem, protocol_to_local-local_join}

directory : get_directory_path (codes "C:\\SYNC\\A.TXT") ≡ codes "C:\\SYNC"
unfolding get_directory_path
directory = refl

name : path_name (codes "SUB/A.TXT") ≡ codes "A.TXT"
unfolding path_name
name = refl

join : local_join 144 (codes "C:\\SYNC") (codes "*.*") ≡ some (codes "C:\\SYNC\\*.*")
unfolding local_join append_text
join = refl

local : protocol_to_local 144 (codes "C:\\") (codes "SUB/A.TXT") ≡ some (codes "C:\\SUB\\A.TXT")
unfolding protocol_to_local append_text
local = refl

outside : protocol_to_local 144 (codes "C:\\SYNC") (codes "../A") ≡ some (codes "C:\\SYNC\\..\\A")
unfolding protocol_to_local append_text
outside = refl

temp : build_temp_path 144 (codes "C:\\SYNC\\A.TXT") ≡ some (codes "C:\\SYNC\\SYNC.$$$")
unfolding build_temp_path append_text copy_text
temp = refl

parents :
    ensure_parent_dirs (codes "C:\\SYNC\\A\\B.TXT") ≡ codes "C:\\SYNC" ∷ codes "C:\\SYNC\\A" ∷ []
unfolding ensure_parent_dirs copy_text
parents = refl

directory-name_split_example :
    (get_directory_path (codes "C:\\SYNC\\A.TXT") ≡ codes "C:\\SYNC")
    × (path_name (codes "C:\\SYNC\\A.TXT") ≡ codes "A.TXT")
directory-name_split_example =
    directory-name_split (codes "C:\\SYNC") b'\\' (codes "A.TXT") refl
      (refl, (refl, (refl, (refl, (refl, tt)))))

build_temp_path-beside_example :
    build_temp_path 144 (codes "C:\\SYNC\\A.TXT") ≡ some (codes "C:\\SYNC\\SYNC.$$$")
build_temp_path-beside_example =
    build_temp_path-beside 144 (codes "C:\\SYNC") b'\\' (codes "A.TXT") refl
      (refl, (refl, (refl, (refl, (refl, tt))))) (omega arith)

ensure_parent_dirs-split_example :
    ensure_parent_dirs (codes "C:\\SYNC\\A.TXT")
    ≡ ensure_parent_dirs (codes "C:\\SYNC") ++ codes "C:\\SYNC" ∷ []
ensure_parent_dirs-split_example =
    ensure_parent_dirs-split (codes "C:\\SYNC") b'\\' (codes "A.TXT") refl
      (refl, (refl, (refl, (refl, (refl, tt))))) (omega arith)

protocol_to_local_lem_example :
    protocol_to_local 144 (codes "C:\\SYNC") (codes "SUB/A") ≡ some (codes "C:\\SYNC\\SUB\\A")
protocol_to_local_lem_example =
    protocol_to_local_lem 144 (codes "C:\\SYNC") b'S' (codes "UB/A") (refl, refl)

protocol_to_local-local_join_example :
    protocol_to_local 144 (codes "C:\\SYNC") (codes "SUB/A")
    ≡ local_join 144 (codes "C:\\SYNC\\SUB") (codes "A")
protocol_to_local-local_join_example =
    protocol_to_local-local_join 144 (codes "C:\\SYNC") b'S' (codes "UB") (codes "A") (refl, refl)
      refl (refl, tt) (protocol_to_local_lem 144 (codes "C:\\SYNC") b'S' (codes "UB") (refl, refl))
