-- ===== src/Startup/Protocols.antt =====
-- The protocols that the servers of a program offer.
use xr_telepresence_k8s.Base.{◌≡◌, refl, false, Option, none, some, List, [], ◌∷◌}
use xr_telepresence_k8s.Base.Text.{Bytes, text}
use xr_telepresence_k8s.Effect.{ok, err, panic, Result, pure, ◌>>=◌}
use xr_telepresence_k8s.Effect.Emits.{
  Emits, bind-Emits, seq-Emits, pure-Emits, attempt-Emits, result-Emits,
}
use xr_telepresence_k8s.Startup.{
  add_watcher, get_config, setup_with_manager, add_healthz_check, add_readyz_check, start,
  Libraries, webhook_cert, metrics_cert, Flags, Program, CertWatcher, TlsConfig, TlsOpt, apply_opt,
  initial_tls_opts, with_certificate, manager_options, Step, new_manager, new_cert_watcher,
  add_to_scheme, step, or_die, init, cert_watcher, add, main,
}

-- The functions are applied in order.
abbrev pub apply_all : List TlsOpt → TlsConfig → TlsConfig
apply_all [] c = c
apply_all (o ∷ os) c = apply_all os (apply_opt o c)

-- Whatever the configuration was, the servers offer HTTP/1.1 alone.
abbrev pub OnlyHttp1 : List TlsOpt → Type 0
OnlyHttp1 opts = (c : TlsConfig) → (apply_all opts c).next_protos ≡ text "http/1.1" ∷ []

-- Both servers of a manager do, and what serves metrics over TLS checks its clients.
abbrev pub Guarded : Step → Type 0
Guarded (new_manager o) =
    OnlyHttp1 o.metrics.tls_opts
    × OnlyHttp1 o.webhook_tls_opts
    × (o.metrics.filtered ≡ o.metrics.secure_serving)
Guarded _ = Unit

step-Guarded : (c : Step) → Guarded c → Emits Guarded (step c)
step-Guarded c g = record { at = λ s h a. (g, a) }

or_die-Guarded : (r : Result (Unit {0})) → Emits Guarded (or_die r)
or_die-Guarded (ok _) = pure-Emits
or_die-Guarded (err _) = result-Emits panic
or_die-Guarded panic = result-Emits panic

init-Guarded : (xs : List Bytes) → Emits Guarded (init xs)
unfolding init
init-Guarded [] = pure-Emits
init-Guarded (x ∷ xs) =
    bind-Emits (attempt-Emits (step-Guarded (add_to_scheme x) tt))
      λ r. seq-Emits (or_die-Guarded r) (init-Guarded xs)

cert_watcher-Guarded : (w : CertWatcher) → Emits Guarded (cert_watcher w)
unfolding cert_watcher
cert_watcher-Guarded w = by_path w.path
  where
    by_path :
        (p : Bytes)
        → Emits {S = Libraries} {A = Option CertWatcher} Guarded
            (elim p [ [] ↦ pure none | _ ∷ _ ↦ step (new_cert_watcher w) >>= λ _. pure (some w) ])
    by_path [] = pure-Emits
    by_path (_ ∷ _) = seq-Emits (step-Guarded (new_cert_watcher w) tt) pure-Emits

add-Guarded : (o : Option CertWatcher) → Emits Guarded (add o)
add-Guarded none = pure-Emits
add-Guarded (some w) = step-Guarded (add_watcher w) tt

-- A certificate changes no protocol.
with_certificate-OnlyHttp1 :
    (flags : Flags) (o : Option CertWatcher)
    → flags.enable_http2 ≡ false
    → OnlyHttp1 (with_certificate (initial_tls_opts flags) o)
unfolding apply_opt
with_certificate-OnlyHttp1 flags none e c = rw e refl
with_certificate-OnlyHttp1 flags (some w) e c = rw e refl

-- Without the flag for HTTP/2, whatever the libraries answer, the manager that `main` makes serves
-- its webhooks and its metrics over HTTP/1.1 only, and its metrics are filtered exactly if they
-- are served over TLS.
pub main-Guarded :
    (flags : Flags) (program : Program)
    → flags.enable_http2 ≡ false
    → Emits Guarded (main flags program)
unfolding main manager_options
main-Guarded flags program e = seq-Emits (init-Guarded program.schemes) (
    bind-Emits (cert_watcher-Guarded (webhook_cert flags)) λ webhook.
      bind-Emits (cert_watcher-Guarded (metrics_cert flags)) λ metrics.
        seq-Emits (step-Guarded get_config tt) (
          seq-Emits
            (step-Guarded (new_manager (manager_options flags program webhook metrics)) (
              with_certificate-OnlyHttp1 flags metrics e,
              with_certificate-OnlyHttp1 flags webhook e,
              refl,
            ))
            (seq-Emits (step-Guarded (setup_with_manager program.controller) tt) (
              seq-Emits (add-Guarded metrics) (
                seq-Emits (add-Guarded webhook) (
                  seq-Emits (step-Guarded add_healthz_check tt)
                    (seq-Emits (step-Guarded add_readyz_check tt) (step-Guarded start tt))))))))
