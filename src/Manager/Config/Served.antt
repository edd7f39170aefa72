-- ===== src/Manager/Config/Served.antt =====
-- handlers/handler.go: which cluster each client of a handler leads to.
use xr_telepresence_k8s.Base.{
  ◌≡◌, refl, sym, subst, ap, ◌∙◌, inl, inr, Option, none, some, [], ◌∷◌, ◌==◌, bytes_eq, ==-cases,
  if◌then◌else◌, Option-cases,
}
use xr_telepresence_k8s.Base.Dict.{
  Dict, lookup, insert, erase, lookup-insert, lookup-erase, lookup-nil, lookup-cons,
}
use xr_telepresence_k8s.Base.Panic.{none_absurd}
use xr_telepresence_k8s.Base.Text.{Bytes}
use xr_telepresence_k8s.Effect.{Result, ok, err, panic, ok_injective}
use xr_telepresence_k8s.Manager.Config.{
  ◌>>=◌, Kube, Maps, Configured, main_cluster, add_cluster, config_main, config_contexts,
  config_handler, no_maps,
}

-- What a sequence of calls that succeeds went through.
passed :
    {A B : Type 0} {rest : A → Result B} {end : B} (answer : Result A)
    → (answer >>= rest) ≡ ok end
    → (value : A) × (rest value ≡ ok end) × (answer ≡ ok value)
passed (ok value) e = (value, e, refl)
passed panic e = cc
passed (err x) e = cc

module _ {Config Context Client Clientset : Type 0}
    (kube : Kube Config Context Client Clientset) where
  -- The configuration that the client of that name has to be made of, if there is to be one.
  abbrev pub wanted : Dict Bytes Context → Result Config → Bytes → Option (Result Config)
  wanted contexts (ok cfg) name =
      if name == main_cluster then some (ok cfg) else elim (lookup name contexts) [
        | none ↦ none
        | some _ ↦ some (kube.config_with_context name)
      ]
  wanted contexts _ name = elim (lookup name contexts) [
    | none ↦ none
    | some _ ↦ some (kube.config_with_context name)
  ]

  -- The client is made of the configuration.
  abbrev pub Leads : Option (Result Config) → Option Client → Type 0
  Leads none found = found ≡ none
  Leads (some r) found =
      (cfg : Config) × (c : Client) × (r ≡ ok cfg) × (kube.new_client cfg ≡ ok c) × (found ≡ some c)

  add_cluster-client :
      (name : Bytes) (cfg : Config) (maps : Maps Client Clientset) {maps' : Maps Client Clientset}
      → add_cluster kube name cfg maps ≡ ok maps'
      → (c : Client) × (kube.new_client cfg ≡ ok c) × (maps'.clients ≡ insert name c maps.clients)
  unfolding add_cluster
  add_cluster-client name cfg maps h =
      let (c, h', e) = passed (kube.new_client cfg) h in
      let (cs, h'', f) = passed (kube.new_clientset cfg) h' in
      (c, e, ap (λ (m : Maps Client Clientset). m.clients) (sym (ok_injective h'')))

  -- What the loop over the contexts leaves under a name.
  record Loops (contexts : Dict Bytes Context) (maps maps' : Maps Client Clientset) (name : Bytes)
      : Type 0 where
    others : lookup name contexts ≡ none → lookup name maps'.clients ≡ lookup name maps.clients
    listed :
        (x : Context)
        → lookup name contexts ≡ some x
        → Leads (some (kube.config_with_context name)) (lookup name maps'.clients)

  config_contexts-Loops :
      (contexts : Dict Bytes Context) (maps : Maps Client Clientset) {maps' : Maps Client Clientset}
      (name : Bytes)
      → config_contexts kube contexts maps ≡ ok maps'
      → Loops contexts maps maps' name
  unfolding config_contexts
  config_contexts-Loops [] maps name h = record {
    others = λ _. ap (λ (m : Maps Client Clientset). lookup name m.clients) (sym (ok_injective h));
    listed = λ x e. absurd (none_absurd (sym (lookup-nil name) ∙ e));
  }
  config_contexts-Loops ((k, y) ∷ contexts) maps {maps'} name h =
      let (cfg, h', e) = passed (kube.config_with_context k) h in
      let (maps1, h'', f) = passed (add_cluster kube k cfg maps) h' in
      let (c, g, added) = add_cluster-client k cfg maps f in
      let w = config_contexts-Loops contexts maps1 name h'' in
      let after = ap (lookup name) added ∙ lookup-insert name k c maps.clients in
      let here : lookup name ((k, y) ∷ contexts)
          ≡ (if name == k then some y else lookup name contexts) =
        lookup-cons name k y contexts in
      elim (==-cases name k) [
        | inr b ↦ record {
          others = λ n. w.others (sym (rw b at here) ∙ n) ∙ after ∙ rw b refl;
          listed = λ x l. w.listed x (sym (rw b at here) ∙ l);
        }
        | inl (same, b) ↦ record {
          others = λ n. absurd (none_absurd (sym n ∙ rw b at here));
          listed = λ x l. elim (Option-cases (lookup name contexts)) [
            | inr (z, m) ↦ w.listed z m
            | inl m ↦
                (cfg, c, ap kube.config_with_context same ∙ e, g, w.others m ∙ after ∙ rw b refl)
          ];
        }
      ]

  loops :
      {contexts contexts' : Dict Bytes Context} {maps1 maps maps' : Maps Client Clientset}
      {name : Bytes}
      → ◌≡◌ {A = Maps Client Clientset × Dict Bytes Context} (maps1, contexts) (maps, contexts')
      → Loops contexts' maps maps' name
      → Loops contexts maps1 maps' name
  loops {maps'} {name} e w =
      subst (λ (p : Maps Client Clientset × Dict Bytes Context). Loops p.1 p.0 maps' name) (sym e) w

  outside :
      {contexts : Dict Bytes Context} {maps' : Maps Client Clientset} {name : Bytes}
      → Loops contexts no_maps maps' name
      → Leads
          (elim (lookup name contexts) [
            | none ↦ none
            | some _ ↦ some (kube.config_with_context name)
          ])
          (lookup name maps'.clients)
  outside {contexts} {maps'} {name} w = elim (Option-cases (lookup name contexts)) [
    | inl e ↦ rw e (w.others e ∙ lookup-nil name)
    | inr (x, e) ↦ rw e (w.listed x e)
  ]

  in_cluster :
      (contexts : Dict Bytes Context) {maps1 maps' : Maps Client Clientset} {name : Bytes}
      (cfg : Config) (c : Client)
      → kube.new_client cfg ≡ ok c
      → lookup name maps1.clients ≡ (if name == main_cluster then some c else lookup name [])
      → Loops (erase main_cluster contexts) maps1 maps' name
      → Leads (wanted contexts (ok cfg) name) (lookup name maps'.clients)
  in_cluster contexts {maps1} {maps'} {name} cfg c made held w =
      let erased = lookup-erase name main_cluster contexts in
      elim (==-cases name main_cluster) [
        | inl (same, b) ↦ rw b (cfg, c, refl, made, w.others (rw b at erased) ∙ (rw b at held))
        | inr b ↦ elim (Option-cases (lookup name contexts)) [
          | inl e ↦ rw b (rw e (w.others ((rw b at erased) ∙ e) ∙ (rw b at held) ∙ lookup-nil name))
          | inr (x, e) ↦ rw b (rw e (w.listed x ((rw b at erased) ∙ e)))
        ]
      ]

  -- If the kubeconfig is read and the handler is configured, a cluster called main has a client of
  -- the cluster in which the program runs if there is one, each other context has a client of its
  -- own configuration, and no other name has a client.
  pub config_handler-Leads :
      {contexts : Dict Bytes Context} {configured : Configured Client Clientset} (name : Bytes)
      → kube.api_config ≡ ok (some contexts)
      → config_handler kube ≡ ok configured
      → Leads (wanted contexts kube.in_cluster_config name) (lookup name configured.maps.clients)
  unfolding config_handler config_main
  config_handler-Leads {contexts} {configured} name read h =
      let ((maps, contexts'), h', e) =
        passed (config_main kube contexts kube.in_cluster_config) (rw read at h) in
      let (maps', h'', f) = passed (config_contexts kube contexts' maps) h' in
      let (templates, h''', g) = passed kube.session_templates h'' in
      rw (← ap (λ (c : Configured Client Clientset). c.maps) (ok_injective h''')) (
        by_place kube.in_cluster_config maps contexts' e
          (config_contexts-Loops contexts' maps name f))
    where
      by_place :
          (r : Result Config) (maps : Maps Client Clientset) (contexts' : Dict Bytes Context)
          {maps' : Maps Client Clientset}
          → config_main kube contexts r ≡ ok (maps, contexts')
          → Loops contexts' maps maps' name
          → Leads (wanted contexts r name) (lookup name maps'.clients)
      by_place (ok cfg) maps contexts' e w =
          let (maps1, g, f) = passed (add_cluster kube main_cluster cfg no_maps) e in
          let (c, made, added) = add_cluster-client main_cluster cfg no_maps f in
          in_cluster contexts cfg c made
            (ap (lookup name) added ∙ lookup-insert name main_cluster c [])
            (loops (ok_injective g) w)
      by_place (err x) maps contexts' e w = outside (loops (ok_injective e) w)
      by_place panic maps contexts' e w = cc
