-- ===== src/Session/Conditions/Uniqueness.antt =====
-- utils/conditions.go: the conditions before and after the Ready condition is set.
use xr_telepresence_k8s.Base.{
  ℕ, zero, suc, ◌+◌, ◌-◌, ◌≡◌, refl, ◌⊎◌, inl, inr, true, Option, none, some, List, [], ◌∷◌, ◌++◌,
  arith, ◌==◌, bytes_eq, if◌then◌else◌, Bool-cases,
}
use xr_telepresence_k8s.Base.Text.{Bytes}
use xr_telepresence_k8s.Resources.Session.{Condition}
use xr_telepresence_k8s.Session.Conditions.{
  type_ready, contains_condition_from, contains_condition, remove_condition_at_index,
  append_condition, set_ready,
}

-- The conditions of other kinds, in order, and how many there are of the kind.
abbrev pub others : Bytes → List Condition → List Condition
others kind [] = []
others kind (c ∷ cs) = if c.kind == kind then others kind cs else c ∷ others kind cs

abbrev pub occurrences : Bytes → List Condition → ℕ
occurrences kind [] = 0
occurrences kind (c ∷ cs) =
    if c.kind == kind then suc (occurrences kind cs) else occurrences kind cs

-- The last condition of the kind stands at the index.
abbrev Last : Bytes → List Condition → ℕ → Type 0
Last kind [] i = ⊥
Last kind (c ∷ cs) zero = ((c.kind == kind) ≡ true) × (occurrences kind cs ≡ 0)
Last kind (c ∷ cs) (suc i) = Last kind cs i

contains_condition_from-Last :
    (kind : Bytes) (i : ℕ) (index : Option ℕ) (cs : List Condition)
    → ((occurrences kind cs ≡ 0) × (contains_condition_from kind i index cs ≡ index))
      ⊎ ((j : ℕ) × (contains_condition_from kind i index cs ≡ some (i + j)) × Last kind cs j)
unfolding contains_condition_from
contains_condition_from-Last kind i index [] = inl (refl, refl)
contains_condition_from-Last kind i index (c ∷ cs) =
    elim (contains_condition_from-Last kind (suc i) (if c.kind == kind then some i else index) cs) [
      | inl (none_left, e) ↦ first none_left e
      | inr (j, e, l) ↦ inr (suc j, ground (arith, e), l)
    ]
  where
    first :
        occurrences kind cs ≡ 0
        → contains_condition_from kind (suc i) (if c.kind == kind then some i else index) cs
          ≡ (if c.kind == kind then some i else index)
        → ((occurrences kind (c ∷ cs) ≡ 0)
            × (contains_condition_from kind i index (c ∷ cs) ≡ index))
          ⊎ ((j : ℕ) × (contains_condition_from kind i index (c ∷ cs) ≡ some (i + j))
              × Last kind (c ∷ cs) j)
    first z e = elim (Bool-cases (c.kind == kind)) [
      | inl b ↦ inr (0, ground (arith, e, b), (b, z))
      | inr b ↦ inl (ground (arith, z, b), ground (arith, e, b))
    ]

remove-Last :
    (kind : Bytes) (i : ℕ) (cs : List Condition)
    → Last kind cs i
    → (others kind (remove_condition_at_index i cs) ≡ others kind cs)
      × (suc (occurrences kind (remove_condition_at_index i cs)) ≡ occurrences kind cs)
unfolding remove_condition_at_index
remove-Last kind i [] l = absurd l
remove-Last kind zero (c ∷ cs) (b, z) = ground (arith, b)
remove-Last kind (suc i) (c ∷ cs) l = ground (arith, remove-Last kind i cs l)

abbrev pub condition : ℕ → Bytes → Bytes × Bytes → Condition
condition now status (reason, message) = record {
  kind = type_ready;
  status = status;
  reason = reason;
  message = message;
  last_transition_time = now;
}

-- Setting the Ready condition puts the new one at the end, takes out one old one if there is any,
-- and keeps the conditions of other kinds in order.
pub set_ready_lem :
    (now : ℕ) (status : Bytes) (why : Bytes × Bytes) (cs : List Condition)
    → (rest : List Condition) × (set_ready now status why cs
        ≡ rest ++ condition now status why ∷ [])
      × (others type_ready rest ≡ others type_ready cs)
      × (occurrences type_ready rest ≡ occurrences type_ready cs - 1)
unfolding set_ready contains_condition append_condition
set_ready_lem now status why cs = elim (contains_condition_from-Last type_ready 0 none cs) [
  | inl (z, e) ↦ (cs, rw (e, set_ready, contains_condition), refl, omega arith)
  | inr (j, e, l) ↦
      let e' : contains_condition_from type_ready 0 none cs ≡ some j = ground (arith, e) in
      let (same, fewer) = remove-Last type_ready j cs l in
      (remove_condition_at_index j cs, rw (e', set_ready, contains_condition), same, omega arith)
]
