-- ===== src/Session/Reconciler/Address.antt =====
-- session_controller.go and session_pods.go: a run on a session with session pods while the ingress
-- service has no address.
use xr_telepresence_k8s.Base.{ℕ, ◌≡◌, refl, ◌∷◌, none, List, [], Option}
use xr_telepresence_k8s.Base.Text.{Bytes, text}
use xr_telepresence_k8s.Resources.Core.{NamespacedName, Pod, PodTemplate, Service}
use xr_telepresence_k8s.Resources.Session.{Session, SessionStatus}
use xr_telepresence_k8s.Resources.Registration.{GcRegistration}
use xr_telepresence_k8s.Effect.{Result, ok, err, panic, and_then, caught, pure}
use xr_telepresence_k8s.Cluster.{
  Server, Call, owned_pods, of_session, list_pods, list_registrations, get_service, get_session,
}
use xr_telepresence_k8s.Session.Registrations.{gc_namespace}
use xr_telepresence_k8s.Session.Pods.{reconcile_session_pods, reconcile_found_session_pods}
use xr_telepresence_k8s.Session.Reconciler.{
  first_address, ingress_service, get_ingress_service_external_ip, reconcile_session_part,
  reconcile_found, reconcile,
}

-- The service is missing, cannot be read, or has no address.
abbrev pub Unaddressed : Result Service → Type 0
Unaddressed (ok svc) = svc.load_balancer ≡ []
Unaddressed (err e) = Unit
Unaddressed panic = ⊥

first_address-Unaddressed : (r : Result Service) → Unaddressed r → first_address r ≡ none
unfolding first_address
first_address-Unaddressed (ok svc) u = rw u refl
first_address-Unaddressed (err e) u = refl
first_address-Unaddressed panic u = absurd u

external_ip-Unaddressed :
    (s : Server) (h : List Call)
    → Unaddressed (s.service h ingress_service)
    → get_ingress_service_external_ip s h ≡ (ok none, get_service ingress_service ∷ h)
unfolding get_ingress_service_external_ip first_address
external_ip-Unaddressed s h u = by_answer (s.service h ingress_service) u
  where
    by_answer :
        (r : Result Service)
        → Unaddressed r
        → ◌≡◌ {A = Result (Option Bytes) × List Call}
            (and_then
              (λ (svc : Result Service). pure (first_address svc))
              s
              (caught r)
              (get_service ingress_service ∷ h))
            (ok none, get_service ingress_service ∷ h)
    by_answer (ok svc) u = rw u refl
    by_answer (err e) u = refl
    by_answer panic u = absurd u

session_pods-panic :
    (now : ℕ) (namespace : Bytes) (session : Session) (registrations : List GcRegistration)
    (s : Server) (h : List Call) {found : List Pod}
    → s.pods h namespace (owned_pods session.name (text "session")) ≡ ok found
    → reconcile_session_pods now namespace session registrations none s h
      ≡ (panic, list_pods namespace ∷ h)
unfolding reconcile_session_pods reconcile_found_session_pods
session_pods-panic now namespace session registrations s h e = rw e

module _ (uuid : ℕ → Bytes) (hash_status : SessionStatus → Bytes) where
  session_part-panic :
      (now : ℕ) (namespace : Bytes) (session : Session) (registrations : List GcRegistration)
      (s : Server) (h : List Call) {found : List Pod} {t : PodTemplate} {ts : List PodTemplate}
      → session.spec.session_pod_templates ≡ t ∷ ts
      → s.pods h namespace (owned_pods session.name (text "session")) ≡ ok found
      → reconcile_session_part uuid hash_status now namespace registrations none session s h
        ≡ (panic, list_pods namespace ∷ h)
  unfolding reconcile_session_part
  session_part-panic now namespace session registrations s h templates e =
      rw (templates, reconcile_session_part)
        (rw (session_pods-panic now namespace session registrations s h e) refl)

  -- If the session is found and has session pods, its registrations and session pods can be
  -- listed, and the ingress service is missing, cannot be read or has no address, a run of the
  -- session controller panics, after these four reads and before any write.
  pub reconcile-panics :
      (now : ℕ) (request : NamespacedName) (s : Server) (h : List Call) (session : Session)
      {registrations : List GcRegistration} {found : List Pod} {t : PodTemplate}
      {ts : List PodTemplate}
      → s.session h request ≡ ok session
      → session.spec.session_pod_templates ≡ t ∷ ts
      → ((h : List Call)
          → s.registrations h gc_namespace (of_session session.name) ≡ ok registrations)
      → ((h : List Call) → Unaddressed (s.service h ingress_service))
      → ((h : List Call)
          → s.pods h request.namespace (owned_pods session.name (text "session")) ≡ ok found)
      → reconcile uuid hash_status now request s h ≡ (
        panic,
        list_pods request.namespace
            ∷ get_service ingress_service
            ∷ list_registrations gc_namespace
            ∷ get_session request
            ∷ h,
      )
  unfolding reconcile reconcile_found
  reconcile-panics now request s h session {registrations} here templates listed unaddressed pods =
      rw (here, listed _, external_ip-Unaddressed s _ (unaddressed _))
        (rw (session_part-panic now request.namespace session registrations s _ templates (pods _))
          refl)
