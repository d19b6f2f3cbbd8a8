-- ===== src/Version/Tests.antt =====
-- Runs of the comparison.
use win16sync.Prelude.{◌≡◌, refl, codes}
use win16sync.Number.{strtoul}
use win16sync.Version.{newer, same, older, version_loop, compare_versions}
use win16sync.Prelude.{[], ◌∷◌}
use win16sync.Version.Dotted.{compare_versions-compare_parts}

client_version : compare_versions (codes "0.2.2") (codes "0.2.0") ≡ newer
unfolding compare_versions version_loop strtoul
client_version = refl

numeric : compare_versions (codes "0.9") (codes "0.10") ≡ older
unfolding compare_versions version_loop strtoul
numeric = refl

shorter : compare_versions (codes "1.0.0") (codes "1") ≡ same
unfolding compare_versions version_loop strtoul
shorter = refl

-- What stands behind the numbers is not read.
suffix : compare_versions (codes "1.2rc") (codes "1.2") ≡ same
unfolding compare_versions version_loop strtoul
suffix = refl

compare_versions-compare_parts_example : compare_versions (codes "0.2") (codes "0.10") ≡ older
compare_versions-compare_parts_example =
    compare_versions-compare_parts (codes "0" ∷ codes "2" ∷ []) (codes "0" ∷ codes "10" ∷ [])
      ((refl, (refl, tt)), ((refl, (refl, tt)), tt))
      ((refl, (refl, tt)), ((refl, (refl, (refl, tt))), tt))
