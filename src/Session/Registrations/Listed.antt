-- ===== src/Session/Registrations/Listed.antt =====
-- client_pods.go: what is found in the map of the registrations, in terms of the list.
use xr_telepresence_k8s.Base.{
  ◌≡◌, ◌≢◌, ap, sym, ◌∙◌, ◌⊎◌, inl, inr, none, some, List, [], ◌∷◌, bytes_eq, All, Memᴰ, ==-cases,
  arith,
}
use xr_telepresence_k8s.Base.Panic.{none_absurd, some_injective}
use xr_telepresence_k8s.Base.Dict.{lookup, insert, lookup-insert, lookup-nil}
use xr_telepresence_k8s.Base.Text.{Bytes}
use xr_telepresence_k8s.Resources.Registration.{GcRegistration}
use xr_telepresence_k8s.Session.Registrations.{
  Registered, registrations_by_name_from, registrations_by_name,
}

-- No registration of the list has the name.
abbrev pub Unregistered : List GcRegistration → Bytes → Type 0
Unregistered rs name = All (λ (r : GcRegistration). r.name ≢ name) rs

found_none :
    (name : Bytes) (m : Registered) (rs : List GcRegistration)
    → lookup name (registrations_by_name_from m rs) ≡ none
    → (lookup name m ≡ none) × Unregistered rs name
unfolding registrations_by_name_from
found_none name m [] e = (e, tt)
found_none name m (r ∷ rs) e =
    let (e', us) = found_none name (insert r.name r m) rs e in
    let here = sym (lookup-insert name r.name r m) ∙ e' in
    (ground (arith, here), ((λ q. ground (arith, here, q)), us))

found_some :
    (name : Bytes) (m : Registered) (rs : List GcRegistration) {r : GcRegistration}
    → lookup name (registrations_by_name_from m rs) ≡ some r
    → (lookup name m ≡ some r) ⊎ (Memᴰ r rs × (r.name ≡ name))
unfolding registrations_by_name_from
found_some name m [] e = inl e
found_some name m (x ∷ rs) {r} e = elim (found_some name (insert x.name x m) rs e) [
  | inr (i, q) ↦ inr (Memᴰ.tail i, q)
  | inl here ↦
      let found = sym (lookup-insert name x.name x m) ∙ here in
      elim (==-cases name x.name) [
        | inr b ↦ inl (rw b at found)
        | inl (q, b) ↦
            let same = some_injective (rw b at found) in
            inr (Memᴰ.head (sym same), ap (λ (y : GcRegistration). y.name) (sym same) ∙ sym q)
      ]
]

pub registrations_by_name-none :
    (name : Bytes) (rs : List GcRegistration)
    → lookup name (registrations_by_name rs) ≡ none
    → Unregistered rs name
unfolding registrations_by_name
registrations_by_name-none name rs e = (found_none name [] rs e).1

pub registrations_by_name-some :
    (name : Bytes) (rs : List GcRegistration) {r : GcRegistration}
    → lookup name (registrations_by_name rs) ≡ some r
    → Memᴰ r rs × (r.name ≡ name)
unfolding registrations_by_name
registrations_by_name-some name rs e = elim (found_some name [] rs e) [
  | inl f ↦ absurd (none_absurd (sym (lookup-nil name) ∙ f))
  | inr found ↦ found
]
