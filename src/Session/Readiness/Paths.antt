-- ===== src/Session/Readiness/Paths.antt =====
-- client_pods.go: the URLs that clients are given.
use xr_telepresence_k8s.Base.{◌≡◌, refl, some, List, [], ◌∷◌, ◌++◌, All, nat_eq}
use xr_telepresence_k8s.Base.Panic.{◌>>=◌}
use xr_telepresence_k8s.Base.Text.{Bytes, Lacks, from_first-append}
use xr_telepresence_k8s.Session.Readiness.{scheme, concat_path, concat_paths}

concat_path_local : (ip s : Bytes) → concat_path ip (b'/' ∷ s) ≡ some (scheme ++ ip ++ b'/' ∷ s)
unfolding concat_path nat_eq
concat_path_local ip s = refl

concat_path_url :
    (ip old s : Bytes)
    → Lacks b'/' old
    → concat_path ip (scheme ++ old ++ b'/' ∷ s) ≡ some (scheme ++ ip ++ b'/' ∷ s)
unfolding concat_path nat_eq
concat_path_url ip old s l = rw (from_first-append b'/' old s l)

-- The path of a pod's port, before it has an address.
abbrev pub IsLocal : Bytes → Type 0
IsLocal path = (s : Bytes) × (path ≡ b'/' ∷ s)

abbrev url : Bytes → Bytes → Bytes
url ip path = scheme ++ ip ++ path

abbrev urls : Bytes → List Bytes → List Bytes
urls ip [] = []
urls ip (p ∷ ps) = url ip p ∷ urls ip ps

concat_paths-local :
    (ip : Bytes) (paths : List Bytes)
    → All IsLocal paths
    → concat_paths ip paths ≡ some (urls ip paths)
unfolding concat_paths
concat_paths-local ip [] l = refl
concat_paths-local ip (p ∷ ps) ((s, e), l) =
    rw (e, concat_path_local ip s, concat_paths-local ip ps l)

concat_paths-urls :
    (ip old : Bytes) (paths : List Bytes)
    → Lacks b'/' old
    → All IsLocal paths
    → concat_paths ip (urls old paths) ≡ some (urls ip paths)
unfolding concat_paths
concat_paths-urls ip old [] k l = refl
concat_paths-urls ip old (p ∷ ps) k ((s, e), l) =
    rw (e, concat_path_url ip old s k, concat_paths-urls ip old ps k l)

-- If the old address has no slash and the paths start with one, putting the new address on paths
-- that have the old one gives what the new address alone gives.
pub concat_paths_again :
    (ip old : Bytes) (paths : List Bytes)
    → Lacks b'/' old
    → All IsLocal paths
    → (concat_paths old paths >>= concat_paths ip) ≡ concat_paths ip paths
concat_paths_again ip old paths k l = rw (
  concat_paths-local old paths l,
  concat_paths-urls ip old paths k l,
  concat_paths-local ip paths l,
)
