-- ===== src/Tests/Refusing.antt =====
-- The network controller on a pod whose service was made without the label of the framework.
use xr_telepresence_k8s.Base.{
  ◌≡◌, ◌≢◌, refl, inr, some, ap, ◌==◌, true, false, [], ◌∷◌, All, bytes_eq, nat_eq,
}
use xr_telepresence_k8s.Base.Text.{Bytes, text, split}
use xr_telepresence_k8s.Base.Panic.{some_injective}
use xr_telepresence_k8s.Resources.Core.{NamespacedName, Ingress, IngressPath}
use xr_telepresence_k8s.Effect.{Error, ok, panic, api_error, already_exists}
use xr_telepresence_k8s.Cluster.{Server}
use xr_telepresence_k8s.Network.Publishing.{http_paths, pod_of_path}
use xr_telepresence_k8s.Network.Reconciler.{reconcile}
use xr_telepresence_k8s.Network.Reconciler.Nil.{reconcile-panics_on_nil}
use xr_telepresence_k8s.Tests.Fixtures.{willing, pod_named, first_pod_name, second_pod_name}

abbrev exists_already : Error
exists_already = api_error already_exists []

abbrev other_path : IngressPath
other_path = record {
  path = text "/demo-1a2b-vr-0002/web(/|$)(.*)";
  service_name = text "demo-1a2b-vr-0002-svc";
  service_port = 80;
}

abbrev one_path : Ingress
one_path = record { rules = some (other_path ∷ []) ∷ [] }

abbrev refusing : Server
refusing = record willing {
  pods = λ h n q. ok (pod_named second_pod_name ∷ pod_named first_pod_name ∷ []);
  ingress = λ h n. ok one_path;
  write = λ h c. some exists_already;
}

abbrev default_request : NamespacedName
default_request = record { namespace = text "default"; name = first_pod_name }

second-ne-first : second_pod_name ≢ first_pod_name
unfolding bytes_eq nat_eq
second-ne-first e = apart (ap (λ (n : Bytes). n == second_pod_name) e)
  where
    apart : true ≡ false → ⊥
    apart h = cc

one_path-unnamed :
    All (λ (x : IngressPath). pod_of_path x.path ≢ some first_pod_name) (other_path ∷ [])
unfolding pod_of_path split nat_eq
one_path-unnamed = ((λ e. second-ne-first (some_injective e)), tt)

reconcile-panics_on_nil_example : (reconcile default_request refusing []).0 ≡ panic
unfolding http_paths
reconcile-panics_on_nil_example =
    reconcile-panics_on_nil default_request refusing [] (pod_named second_pod_name ∷ [])
      (pod_named first_pod_name) [] {e = exists_already} {services = []} {ingress = one_path}
      {paths = other_path ∷ []} (λ h. refl) (second-ne-first, tt) (λ h. refl) tt (λ h. refl) refl
      one_path-unnamed (λ q svc. (svc, refl)) (λ h c. inr (exists_already, refl, refl)) refl
      (λ h svc e. refl)
