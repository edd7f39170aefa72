-- ===== src/Network/Publishing/Names.antt =====
-- ingress.go: from a pod's name to its service and its paths, and back.
use xr_telepresence_k8s.Base.{
  ℕ, zero, suc, ◌≡◌, ◌≢◌, refl, ap, false, some, [], ◌∷◌, ◌++◌, arith, length, length-append, ltb,
  ◌∙◌, sym, nat_eq, ◌≤◌,
}
use xr_telepresence_k8s.Base.Panic.{some_injective}
use xr_telepresence_k8s.Base.Text.{Bytes, text, split, Lacks, split-append}
use xr_telepresence_k8s.Resources.Core.{Service, ServicePort}
use xr_telepresence_k8s.Network.Services.{service_name}
use xr_telepresence_k8s.Network.Publishing.{
  session_manager_path, pod_of_path, take_bytes, pod_of_service, path_for, path_suffix,
}
use mathlib.Core.List.{append_assoc}

take_bytes-append : (n : ℕ) (s t : Bytes) → n ≡ length s → take_bytes n (s ++ t) ≡ s
unfolding take_bytes
take_bytes-append zero [] t e = refl
take_bytes-append zero (c ∷ s) t e = absurd (omega arith)
take_bytes-append (suc n) [] t e = absurd (omega arith)
take_bytes-append (suc n) (c ∷ s) t e = ap (◌∷◌ c) (take_bytes-append n s t (omega arith))

-- The pod's name is read back from the name of its service.
pub pod_of_service-service_name : (pod : Bytes) → pod_of_service (service_name pod) ≡ some pod
unfolding pod_of_service
pod_of_service-service_name pod =
    let l = length-append pod (text "-svc") in
    rw (long (length (service_name pod)) (omega (arith, l)), pod_of_service)
      (ap some (take_bytes-append _ pod (text "-svc") (omega (arith, l))))
  where
    long : (n : ℕ) → 4 ≤ n → ltb n 4 ≡ false
    long n h = ground arith

-- If the pod's name has no slash, it is read back from the path of each of its ports.
pub pod_of_path-path_for :
    (pod : Bytes) (svc : Service) (port : ServicePort)
    → Lacks b'/' pod
    → pod_of_path (path_for pod svc port).path ≡ some pod
unfolding pod_of_path
pod_of_path-path_for pod svc port l =
    simp append_assoc (rw (split-append b'/' [] _ tt, split-append b'/' pod _ l))

pod_of_session_manager : pod_of_path session_manager_path ≡ some (text "session-manager(")
unfolding pod_of_path split nat_eq
pod_of_session_manager = refl

-- And it is not the session manager's.
pub path_for-ne-session_manager_path :
    (pod : Bytes) (svc : Service) (port : ServicePort)
    → Lacks b'/' pod
    → (path_for pod svc port).path ≢ session_manager_path
path_for-ne-session_manager_path pod svc port l e =
    omega (arith, ap length (rw same at e), length-append port.name path_suffix)
  where
    same : pod ≡ text "session-manager("
    same =
        some_injective
          (sym (pod_of_path-path_for pod svc port l) ∙ ap pod_of_path e ∙ pod_of_session_manager)
