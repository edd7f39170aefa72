-- ===== src/Startup/Plan.antt =====
-- The steps of a program in order, and that `main` takes them until one fails.
use xr_telepresence_k8s.Base.{
  ◌≡◌, refl, sym, ap, ◌∙◌, Option, none, some, List, [], ◌∷◌, ◌++◌, Option-cases, inl, inr, Bool,
  All, false, true, ◌||◌, arith, All-append, subst,
}
use xr_telepresence_k8s.Base.Text.{Bytes}
use xr_telepresence_k8s.Effect.{Error, pure, and_then, ◌>>=◌, ◌>>◌}
use xr_telepresence_k8s.Startup.{
  Flags, Program, CertWatcher, Step, add_to_scheme, new_cert_watcher, get_config, new_manager,
  setup_with_manager, add_watcher, add_healthz_check, add_readyz_check, start, Libraries, Exec,
  done, step, add, init, cert_watcher, manager_options, main, webhook_cert, metrics_cert,
}

-- The watcher of a directory that is given.
abbrev pub watcher_of : CertWatcher → Option CertWatcher
watcher_of w = elim w.path [ [] ↦ none | _ ∷ _ ↦ some w ]

abbrev pub webhook_watcher : Flags → Option CertWatcher
webhook_watcher flags = watcher_of (record {
  path = flags.webhook_cert_path;
  cert_name = flags.webhook_cert_name;
  cert_key = flags.webhook_cert_key;
})

abbrev pub metrics_watcher : Flags → Option CertWatcher
metrics_watcher flags = watcher_of (record {
  path = flags.metrics_cert_path;
  cert_name = flags.metrics_cert_name;
  cert_key = flags.metrics_cert_key;
})

abbrev pub for_each : (CertWatcher → Step) → Option CertWatcher → List Step
for_each f none = []
for_each f (some w) = f w ∷ []

-- The steps after the schemes, up to the last: certificates, manager, controller, watchers, checks.
abbrev pub preparation : Flags → Program → List Step
preparation flags program =
    let webhook = webhook_watcher flags in
    let metrics = metrics_watcher flags in
    for_each new_cert_watcher webhook
    ++ (for_each new_cert_watcher metrics
        ++ (get_config
            ∷ new_manager (manager_options flags program webhook metrics)
            ∷ setup_with_manager program.controller
            ∷ (for_each add_watcher metrics
                ++ (for_each add_watcher webhook ++ add_healthz_check ∷ add_readyz_check ∷ []))))

-- The steps one after the other, and then `k`.
abbrev pub take : List Step → Exec (Unit {0}) → Exec (Unit {0})
take [] k = k
take (c ∷ cs) k = step c >> take cs k

take-append : (xs ys : List Step) (k : Exec (Unit {0})) → take (xs ++ ys) k ≡ take xs (take ys k)
take-append [] ys k = refl
take-append (x ∷ xs) ys k = ap (λ m. step x >> m) (take-append xs ys k)

take_blocks :
    (a b c d e : List Step) (x y z : Step) (k : Exec (Unit {0}))
    → take (a ++ (b ++ (x ∷ y ∷ z ∷ (c ++ (d ++ e))))) k
      ≡ take a (take b (step x >> (step y >> (step z >> take c (take d (take e k))))))
take_blocks a b c d e x y z k =
    take-append a _ k
    ∙ ap (take a) (
        take-append b _ k
        ∙ ap (λ m. take b (step x >> (step y >> (step z >> m))))
            (take-append c (d ++ e) k ∙ ap (take c) (take-append d e k)))

-- Both go on with what the certificate watcher is, unless the step fails.
cert_watcher_then :
    (w : CertWatcher) (k : Option CertWatcher → Exec (Unit {0}))
    → (cert_watcher w >>= k) ≡ take (for_each new_cert_watcher (watcher_of w)) (k (watcher_of w))
unfolding cert_watcher
cert_watcher_then w k = by_path w.path
  where
    answered :
        (o : Option Error) (s : Libraries) (h : List Step)
        → and_then k s
            (and_then (λ (_ : Unit {0}). pure {S = Libraries} {C = Step} (some w)) s (done o) h).0
            (and_then (λ (_ : Unit {0}). pure {S = Libraries} {C = Step} (some w)) s (done o) h).1
          ≡ and_then (λ (_ : Unit {0}). k (some w)) s (done o) h
    answered none s h = refl
    answered (some e) s h = refl

    by_path :
        (p : Bytes)
        → (elim p [ [] ↦ pure none | _ ∷ _ ↦ step (new_cert_watcher w) >>= λ _. pure (some w) ]
            >>= k)
          ≡ take
              (for_each new_cert_watcher (elim p [ [] ↦ none | _ ∷ _ ↦ some w ]))
              (k (elim p [ [] ↦ none | _ ∷ _ ↦ some w ]))
    by_path [] = refl
    by_path (_ ∷ _) = λ i s h. answered (s h (new_cert_watcher w)) s (new_cert_watcher w ∷ h) i

add_then :
    (o : Option CertWatcher) (k : Exec (Unit {0})) → (add o >> k) ≡ take (for_each add_watcher o) k
add_then none k = refl
add_then (some w) k = refl

-- `main` is the registration of the schemes, the preparation, and the start.
main-prepares :
    (flags : Flags) (program : Program)
    → main flags program ≡ (init program.schemes >> take (preparation flags program) (step start))
unfolding main
main-prepares flags program =
    let webhook = watcher_of (webhook_cert flags) in
    let metrics = watcher_of (metrics_cert flags) in
    ap (λ m. init program.schemes >> m)
      (cert_watcher_then (webhook_cert flags) _
        ∙ ap (take (for_each new_cert_watcher webhook)) (
            cert_watcher_then (metrics_cert flags) _
            ∙ ap
                (λ m. take (for_each new_cert_watcher metrics) (
                  step get_config
                  >> (step (new_manager (manager_options flags program webhook metrics))
                      >> (step (setup_with_manager program.controller) >> m))))
                (add_then metrics _
                  ∙ ap (take (for_each add_watcher metrics)) (add_then webhook _)))
        ∙ sym (
            take_blocks (for_each new_cert_watcher webhook) (for_each new_cert_watcher metrics)
              (for_each add_watcher metrics) (for_each add_watcher webhook) _ _ _ _ (step start)))

abbrev pub is_start : Step → Bool
is_start start = true
is_start _ = false

abbrev pub has_start : List Step → Bool
has_start [] = false
has_start (c ∷ h) = is_start c || has_start h

-- The steps on top of those that were taken, the newest first.
abbrev pub taken : List Step → List Step → List Step
taken [] h = h
taken (c ∷ cs) h = taken cs (c ∷ h)

taken-append : (xs ys h : List Step) → taken (xs ++ ys) h ≡ taken ys (taken xs h)
taken-append [] ys h = refl
taken-append (x ∷ xs) ys h = taken-append xs ys (x ∷ h)

-- No step of the preparation starts the manager.
abbrev pub Prepares : List Step → Type 0
Prepares = All (λ c. is_start c ≡ false)

-- Each of the steps in turn succeeded.
abbrev pub AllWent : Libraries → List Step → List Step → Type 0
AllWent s [] h = Unit
AllWent s (c ∷ cs) h = (s h c ≡ none) × AllWent s cs (c ∷ h)

AllWent-append :
    (s : Libraries) (xs ys h : List Step)
    → AllWent s xs h
    → AllWent s ys (taken xs h)
    → AllWent s (xs ++ ys) h
AllWent-append s [] ys h _ v = v
AllWent-append s (x ∷ xs) ys h (e, u) v = (e, AllWent-append s xs ys (x ∷ h) u v)

take-starts :
    (cs : List Step) (s : Libraries) (h : List Step)
    → Prepares cs
    → has_start h ≡ false
    → has_start (take cs (step start) s h).1 ≡ true
    → ((take cs (step start) s h).1 ≡ start ∷ taken cs h) × AllWent s cs h
take-starts [] s h _ none_yet started = (refl, tt)
take-starts (c ∷ cs) s h (n, ns) none_yet started = elim (Option-cases (s h c)) [
  | inl e ↦
      let (same, went) =
        take-starts cs s (c ∷ h) ns (ground (arith, n, none_yet)) (rw e at started) in
      (rw e same, (e, went))
  | inr (x, e) ↦ absurd (refused (rw e at started))
]
  where
    refused : has_start (c ∷ h) ≡ true → ⊥
    refused q = ground (arith, q, n, none_yet)

abbrev pub schemes_of : List Bytes → List Step
schemes_of [] = []
schemes_of (x ∷ xs) = add_to_scheme x ∷ schemes_of xs

-- If a start follows the schemes, all of them were added.
init-starts :
    (xs : List Bytes) (k : Exec (Unit {0})) (s : Libraries) (h : List Step)
    → has_start h ≡ false
    → has_start ((init xs >> k) s h).1 ≡ true
    → ((init xs >> k) s h ≡ k s (taken (schemes_of xs) h))
      × (has_start (taken (schemes_of xs) h) ≡ false)
      × AllWent s (schemes_of xs) h
unfolding init
init-starts [] k s h none_yet started = (refl, none_yet, tt)
init-starts (x ∷ xs) k s h none_yet started = elim (Option-cases (s h (add_to_scheme x))) [
  | inl e ↦
      let (same, fresh, went) =
        init-starts xs k s (add_to_scheme x ∷ h) none_yet (rw e at started) in
      (rw e same, fresh, (e, went))
  | inr (y, e) ↦ absurd (refused (rw e at started))
]
  where
    refused : has_start h ≡ true → ⊥
    refused q = cc

for_each-Prepares :
    (f : CertWatcher → Step) (o : Option CertWatcher)
    → ((w : CertWatcher) → is_start (f w) ≡ false)
    → Prepares (for_each f o)
for_each-Prepares f none n = tt
for_each-Prepares f (some w) n = (n w, tt)

preparation-Prepares : (flags : Flags) (program : Program) → Prepares (preparation flags program)
preparation-Prepares flags program =
    let webhook = watcher_of (webhook_cert flags) in
    let metrics = watcher_of (metrics_cert flags) in
    let checks =
      All-append _ (for_each add_watcher webhook) _
        (for_each-Prepares add_watcher webhook (λ w. refl)) (refl, (refl, tt)) in
    let watchers =
      All-append _ (for_each add_watcher metrics) _
        (for_each-Prepares add_watcher metrics (λ w. refl)) checks in
    All-append _ (for_each new_cert_watcher webhook) _
      (for_each-Prepares new_cert_watcher webhook (λ w. refl))
      (All-append _ (for_each new_cert_watcher metrics) _
        (for_each-Prepares new_cert_watcher metrics (λ w. refl)) (refl, (refl, (refl, watchers))))

-- If no manager was started before, and `main` comes to start one, whatever the libraries answer,
-- it has before registered the schemes, made a watcher for each certificate directory that is
-- given, made the manager, set up the controller, added the watchers and the two checks, in this
-- order, and nothing else, and each of these steps succeeded.
pub main-starts :
    (flags : Flags) (program : Program) (s : Libraries) (h : List Step)
    → has_start h ≡ false
    → has_start (main flags program s h).1 ≡ true
    → ((main flags program s h).1
        ≡ start ∷ taken (schemes_of program.schemes ++ preparation flags program) h)
      × AllWent s (schemes_of program.schemes ++ preparation flags program) h
main-starts flags program s h none_yet started =
    let prepared = ap (λ m. m s h) (main-prepares flags program) in
    let started' = subst (λ r. has_start r.1 ≡ true) prepared started in
    let added = schemes_of program.schemes in
    let (same, fresh, registered) =
      init-starts program.schemes (take (preparation flags program) (step start)) s h none_yet
        started' in
    let (all, went) =
      take-starts (preparation flags program) s (taken added h) (preparation-Prepares flags program)
        fresh (subst (λ r. has_start r.1 ≡ true) same started') in
    (
      ap (λ r. r.1) (prepared ∙ same)
          ∙ all
          ∙ ap (◌∷◌ start) (sym (taken-append added (preparation flags program) h)),
      AllWent-append s added (preparation flags program) h registered went,
    )
