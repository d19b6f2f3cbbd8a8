-- ===== src/Items/Tests.antt =====
-- A file is added to an empty list.
use win16sync.Prelude.{ℕ, true, some, [], refl, arith, codes}
use win16sync.Client.{ProtoClient, client_init}
use win16sync.Cache.Invariant.{no_cache-IsValid}
use win16sync.Items.{Surroundings, Entry, add_file_item}
use win16sync.Items.Add.{Adds, add_file_item-Adds}

abbrev disk : Surroundings
disk = record { looked = 1000; written = 1000; malloc_ok = true; read = λ path. some (codes "AB") }

abbrev entry : Entry
entry = record {
  path = codes "SUB/A.TXT";
  local_path = codes "C:\\SYNC\\SUB\\A.TXT";
  size = 2;
  dos_stamp = 7;
}

abbrev client : ProtoClient ℕ
client = client_init

add_file_item-Adds_example : Adds disk client [] entry (add_file_item disk client [] entry)
unfolding client_init
add_file_item-Adds_example =
    add_file_item-Adds disk client [] entry no_cache-IsValid refl (omega arith) tt
