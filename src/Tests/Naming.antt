-- ===== src/Tests/Naming.antt =====
-- The names that new client pods are given on the session of the fixtures.
use xr_telepresence_k8s.Base.{◌≡◌, ◌≢◌, refl, some, [], ◌∷◌, nat_eq, bytes_eq, ℕ, true}
use xr_telepresence_k8s.Base.Text.{Bytes, text, Lacks}
use xr_telepresence_k8s.Base.Dict.{lookup}
use xr_telepresence_k8s.Tests.Fixtures.{
  contains-Lacks, vr, vr_template, first_pod_name, alice, bob, carol, serving,
}
use xr_telepresence_k8s.Session.Allocation.{AllocationValue, PodClient, template_of}
use xr_telepresence_k8s.Session.Placement.{Pool, allocate_in, choose_pod, find_first_pod_available}
use xr_telepresence_k8s.Session.Placement.Room.{AllFull}
use xr_telepresence_k8s.Session.Placement.Names.{
  template_of-allocate_in, template_of-allocate_in_dashed,
}

abbrev full_value : AllocationValue
full_value = record {
  pod_template = vr_template;
  pods = serving first_pod_name (alice ∷ bob ∷ []) ∷ [];
}

abbrev grown : Bytes → AllocationValue
grown name = record full_value {
  pods =
      serving first_pod_name (alice ∷ bob ∷ [])
      ∷ record { name = name; clients = record { id = carol; connected = true } ∷ [] }
      ∷ [];
}

abbrev no_idle_pod : Pool
no_idle_pod = record { reutilize = []; fresh = 0 }

abbrev one_drawn : Pool
one_drawn = record { reutilize = []; fresh = 1 }

abbrev drawn : ℕ → Bytes
drawn n = text "0003"

abbrev carol_joins : PodClient
carol_joins = record { id = carol; connected = true }

full_value-AllFull : AllFull 2 full_value.pods
unfolding nat_eq
full_value-AllFull = (refl, tt)

demo-Lacks : Lacks b'-' (text "demo")
unfolding nat_eq
demo-Lacks = contains-Lacks b'-' (text "demo") refl

id-Lacks : Lacks b'-' (text "1a2b")
unfolding nat_eq
id-Lacks = contains-Lacks b'-' (text "1a2b") refl

vr-Lacks : Lacks b'-' vr
unfolding nat_eq
vr-Lacks = contains-Lacks b'-' vr refl

template_of-allocate_in_example : template_of (text "demo-1a2b-vr-0003") ≡ some vr
unfolding allocate_in choose_pod find_first_pod_available lookup bytes_eq nat_eq
template_of-allocate_in_example =
    template_of-allocate_in drawn (text "demo") (text "1a2b") carol_joins full_value no_idle_pod vr
      {name = text "demo-1a2b-vr-0003"} {v' = grown (text "demo-1a2b-vr-0003")} {pool' = one_drawn}
      demo-Lacks id-Lacks vr-Lacks full_value-AllFull refl refl

template_of-allocate_in_dashed_example :
    (template_of (text "demo-1a2b-vr-hd-0003") ≡ some vr) × (vr ≢ text "vr-hd")
unfolding allocate_in choose_pod find_first_pod_available lookup bytes_eq nat_eq
template_of-allocate_in_dashed_example =
    template_of-allocate_in_dashed drawn (text "demo") (text "1a2b") carol_joins full_value
      no_idle_pod vr (text "hd") {name = text "demo-1a2b-vr-hd-0003"}
      {v' = grown (text "demo-1a2b-vr-hd-0003")} {pool' = one_drawn} demo-Lacks id-Lacks vr-Lacks
      full_value-AllFull refl refl
