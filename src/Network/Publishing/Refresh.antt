-- ===== src/Network/Publishing/Refresh.antt =====
-- ingress.go: the ingress after a run, and a second run on it.
use xr_telepresence_k8s.Network.Publishing.News.{
  IsRegular, Covers, Covers-map, Listed, ListedAs, all_new_paths-News, all_new_paths-covered,
  covered_at_last,
}
use xr_telepresence_k8s.Base.{
  ◌≡◌, refl, sym, ap, ◌∙◌, inl, inr, Bool, true, false, ◌||◌, Option, none, some, List, [], ◌∷◌,
  ◌++◌, arith, All, All-append, ◌==◌, bytes_eq, contains, Bool-cases, All-map,
}
use xr_telepresence_k8s.Base.Panic.{◌>>=◌, none_absurd}
use xr_telepresence_k8s.Base.Dict.{lookup, lookup-cons}
use xr_telepresence_k8s.Base.Text.{Bytes}
use xr_telepresence_k8s.Resources.Core.{Service, IngressPath, Ingress}
use xr_telepresence_k8s.Network.Services.{ServicesMap}
use xr_telepresence_k8s.Network.Publishing.{
  http_paths, with_http_paths, any_path, ingress_garbage_collection, publish_to_ingress,
  refresh_ingress, replace_first,
}
use xr_telepresence_k8s.Network.Publishing.Sweep.{
  IsServed, pods_of, collect_paths-Swept, collect_paths-served, NamesPod, collect_paths_total,
}
use mathlib.Core.List.{append-nil}

http_paths-with_http_paths :
    (ingress : Ingress) (ps : List IngressPath) {qs : List IngressPath}
    → http_paths ingress ≡ some qs
    → http_paths (with_http_paths ps ingress) ≡ some ps
unfolding http_paths with_http_paths
http_paths-with_http_paths ingress ps h = first_rule ingress.rules h
  where
    first_rule :
        (rules : List (Option (List IngressPath))) {qs : List IngressPath}
        → elim rules [ [] ↦ none | rule ∷ _ ↦ rule ] ≡ some qs
        → elim (replace_first ps rules) [ [] ↦ none | rule ∷ _ ↦ rule ] ≡ some ps
    first_rule [] h = absurd (none_absurd h)
    first_rule (r ∷ rules) h = refl

with_http_paths_twice :
    (ingress : Ingress) (ps : List IngressPath)
    → http_paths ingress ≡ some ps
    → with_http_paths ps ingress ≡ ingress
unfolding http_paths with_http_paths
with_http_paths_twice ingress ps h =
    ap (λ rules. record ingress { rules = rules }) (same ingress.rules h)
  where
    same :
        (rules : List (Option (List IngressPath)))
        → elim rules [ [] ↦ none | rule ∷ _ ↦ rule ] ≡ some ps
        → replace_first ps rules ≡ rules
    same [] h = refl
    same (r ∷ rules) h = ap (λ r. r ∷ rules) (sym h)

all-Listed : (services : ServicesMap) → All (Listed services) services
all-Listed [] = tt
all-Listed ((k, v) ∷ d) = (
  (v, lookup-cons k k v d ∙ ground arith),
  All-map (λ (j, w) (u, h). still j u h) d (all-Listed d),
)
  where
    still : (j : Bytes) (u : Option Service) → lookup j d ≡ some u → ListedAs ((k, v) ∷ d) j
    still j u h = elim (Bool-cases (j == k)) [
      | inl b ↦ (v, lookup-cons j k v d ∙ rw b)
      | inr b ↦ (u, lookup-cons j k v d ∙ rw b h)
    ]

-- The outcome of a run that has left nothing to do.
pub record Refreshed (services : ServicesMap) (rs : All IsRegular services) (ingress : Ingress)
    : Type 0 where
  pub paths : List IngressPath
  pub on_ingress : http_paths ingress ≡ some paths
  pub served : All (IsServed services) paths
  pub reached : Covers (λ pod. contains (pods_of paths) pod ≡ true) services rs
  pub settled : refresh_ingress ingress services ≡ some (ingress, false)

nothing_to_collect :
    (services : ServicesMap) (ingress : Ingress) (ps : List IngressPath)
    → http_paths ingress ≡ some ps
    → All (IsServed services) ps
    → ingress_garbage_collection ingress services ≡ some (ingress, pods_of ps, false)
unfolding ingress_garbage_collection
nothing_to_collect services ingress ps h served =
    rw (h, ◌>>=◌, collect_paths-served services ps served)
      (ap (λ i. some (i, pods_of ps, false)) (with_http_paths_twice ingress ps h))

nothing_to_publish :
    (services : ServicesMap) (rs : All IsRegular services) (ingress : Ingress)
    (ps : List IngressPath)
    → http_paths ingress ≡ some ps
    → Covers (λ pod. contains (pods_of ps) pod ≡ true) services rs
    → publish_to_ingress ingress services (pods_of ps) ≡ some (ingress, false)
unfolding publish_to_ingress
nothing_to_publish services rs ingress ps h reached =
    rw (h, ◌>>=◌, all_new_paths-covered (pods_of ps) services rs reached)
      (ap (λ i. some (i, false))
        (ap (λ qs. with_http_paths qs ingress) (append-nil ps)
          ∙ with_http_paths_twice ingress ps h))

settled_again :
    (services : ServicesMap) (rs : All IsRegular services) (ingress : Ingress)
    (ps : List IngressPath)
    → http_paths ingress ≡ some ps
    → All (IsServed services) ps
    → Covers (λ pod. contains (pods_of ps) pod ≡ true) services rs
    → refresh_ingress ingress services ≡ some (ingress, false)
unfolding refresh_ingress
settled_again services rs ingress ps h served reached =
    rw (nothing_to_collect services ingress ps h served, ◌>>=◌)
      (rw (nothing_to_publish services rs ingress ps h reached))

-- With regular services and paths that name pods, refreshing the ingress succeeds; then its paths
-- are the session manager's or lead to pods with services, every service with ports is led to, and
-- a second refresh changes nothing.
pub refresh_ingress-Refreshed :
    (ingress : Ingress) (services : ServicesMap) (rs : All IsRegular services)
    {ps : List IngressPath}
    → http_paths ingress ≡ some ps
    → All NamesPod ps
    → (refreshed : Ingress) × (updated : Bool) × (refresh_ingress ingress services
        ≡ some (refreshed, updated))
      × Refreshed services rs refreshed
unfolding refresh_ingress ingress_garbage_collection publish_to_ingress
refresh_ingress-Refreshed ingress services rs {ps} h named =
    let (c, e) = collect_paths_total services ps named in
    let w = collect_paths-Swept services ps e in
    let news = all_new_paths-News services c.pods services rs (all-Listed services) in
    let collected = with_http_paths c.paths ingress in
    let h1 = http_paths-with_http_paths ingress c.paths h in
    let paths = c.paths ++ news.paths in
    let h2 = http_paths-with_http_paths collected paths h1 in
    let served = All-append _ c.paths news.paths w.served news.served in
    let reached =
      Covers-map services rs (λ pod (has, d). covered_at_last services c news.paths pod w has d)
        news.covers in
    (
      with_http_paths paths collected,
      c.updated || any_path news.paths,
      rw (h, ◌>>=◌, e, h1, news.published),
      record {
        paths = paths;
        on_ingress = h2;
        served = served;
        reached = reached;
        settled = settled_again services rs _ paths h2 served reached;
      },
    )
