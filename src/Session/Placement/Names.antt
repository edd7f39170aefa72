-- ===== src/Session/Placement/Names.antt =====
-- client_pods.go: the names that new client pods are given, and the template that is read back from
-- them. The session manager names a session after a template of its own and four characters.
use mathlib.Core.List.{append_assoc}
use xr_telepresence_k8s.Base.{
  ℕ, ◌≡◌, ◌≢◌, sym, ap, ◌∙◌, subst, some, [], ◌∷◌, ◌++◌, bytes_eq, Option,
}
use xr_telepresence_k8s.Base.Dict.{lookup}
use xr_telepresence_k8s.Base.Text.{Bytes, text, Lacks, split-append}
use xr_telepresence_k8s.Session.Allocation.{PodClient, AllocationValue, inner, template_of}
use xr_telepresence_k8s.Session.Placement.{Pool, allocate_in}
use xr_telepresence_k8s.Session.Placement.Room.{AllFull}
use xr_telepresence_k8s.Session.Placement.Reuse.{allocate_in-names}

template_of-joined :
    (a b t u : Bytes)
    → Lacks b'-' a
    → Lacks b'-' b
    → Lacks b'-' t
    → template_of (a ++ text "-" ++ b ++ text "-" ++ t ++ text "-" ++ u) ≡ some t
unfolding template_of
template_of-joined a b t u la lb lt =
    simp append_assoc
      (rw (split-append b'-' a _ la, split-append b'-' b _ lb, split-append b'-' t u lt))

template_of-joined_dashed :
    (a b t after u : Bytes)
    → Lacks b'-' a
    → Lacks b'-' b
    → Lacks b'-' t
    → template_of (a ++ text "-" ++ b ++ text "-" ++ (t ++ b'-' ∷ after) ++ text "-" ++ u) ≡ some t
unfolding template_of
template_of-joined_dashed a b t after u la lb lt =
    simp append_assoc
      (rw (split-append b'-' a _ la, split-append b'-' b _ lb, split-append b'-' t _ lt))

longer : (xs ys : Bytes) (y : ℕ) → xs ≢ xs ++ y ∷ ys
longer [] ys y e = cc
longer (x ∷ xs) ys y e = longer xs ys y (ap tail e)
  where
    tail : Bytes → Bytes
    tail [] = []
    tail (_ ∷ zs) = zs

module _ (uuid : ℕ → Bytes) (session_template session_id : Bytes) (client : PodClient)
    (v : AllocationValue) (pool : Pool) where
  abbrev Allocated : Type 0
  Allocated = Option (Bytes × AllocationValue × Pool)

  abbrev name_of : Allocated → Bytes
  name_of (some (name, _, _)) = name
  name_of _ = []

  abbrev session_name : Bytes
  session_name = session_template ++ text "-" ++ session_id

  -- If neither part of the session's name nor the template's name has a dash, every pod of the
  -- template is full, no idle pod can be reused, and a client is placed, the template is read back
  -- from the name of the new pod that the client gets.
  pub template_of-allocate_in :
      (t : Bytes) {name : Bytes} {v' : AllocationValue} {pool' : Pool}
      → Lacks b'-' session_template
      → Lacks b'-' session_id
      → Lacks b'-' t
      → AllFull v.pod_template.max_clients v.pods
      → inner (lookup t pool.reutilize) ≡ []
      → allocate_in uuid session_name client t v pool ≡ some (name, v', pool')
      → template_of name ≡ some t
  template_of-allocate_in t la lb lt full idle e =
      subst (λ (n : Bytes). template_of n ≡ some t)
        (ap name_of (sym (allocate_in-names uuid session_name client t v pool full idle) ∙ e))
        (template_of-joined session_template session_id t (uuid pool.fresh) la lb lt)

  -- If the template's name has a dash, but no part before it has one, every pod of the template is
  -- full, no idle pod can be reused, and a client is placed, the part before the dash is read back
  -- from the new pod's name as the template, which is another one.
  pub template_of-allocate_in_dashed :
      (before after : Bytes) {name : Bytes} {v' : AllocationValue} {pool' : Pool}
      → let t = before ++ b'-' ∷ after in
        Lacks b'-' session_template
        → Lacks b'-' session_id
        → Lacks b'-' before
        → AllFull v.pod_template.max_clients v.pods
        → inner (lookup t pool.reutilize) ≡ []
        → allocate_in uuid session_name client t v pool ≡ some (name, v', pool')
        → (template_of name ≡ some before) × (before ≢ t)
  template_of-allocate_in_dashed before after la lb lt full idle e = (
    subst (λ (n : Bytes). template_of n ≡ some before)
        (ap name_of (sym (allocate_in-names uuid session_name client _ v pool full idle) ∙ e))
        (template_of-joined_dashed session_template session_id before after (uuid pool.fresh) la lb
          lt),
    longer before after b'-',
  )
