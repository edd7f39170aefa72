-- ===== src/Base/Text.antt =====
-- Go's strings as lists of bytes, and the functions of package strings that the controllers call.
use Prim.Native.Nat.{ℕ, ◌+◌, ◌≤◌, compare, Ordering}
use Prim.Native.Char.{code}
use Prim.Native.String.{String}
use mathlib.Core.Path.{◌≡◌, refl}
use mathlib.Core.Logic.{◌≢◌, inl, inr}
use mathlib.Core.Bool.{Bool, true, false}
use mathlib.Core.Option.{Option, none, some}
use mathlib.Core.List.{List, [], ◌∷◌, ◌++◌}
use native.Mathlib.Omega.{arith}
use xr_telepresence_k8s.Base.Equality.{◌==◌, nat_eq}
use xr_telepresence_k8s.Base.Tests.{if◌then◌else◌, Option-cases, Bool-cases}
use xr_telepresence_k8s.Base.Lists.{length}
use xr_telepresence_k8s.Base.{Option-cases}

abbrev pub Bytes : Type 0
Bytes = List ℕ

-- The bytes of a text, if it is ASCII.
abbrev pub text : String → Bytes
text String.[] = []
text (String.◌∷◌ c s) = code c ∷ text s

extend : ℕ → List Bytes → List Bytes
extend c [] = (c ∷ []) ∷ []
extend c (w ∷ ws) = (c ∷ w) ∷ ws

-- `strings.Split(s, sep)` at a separator of one byte
unfoldable pub split : ℕ → Bytes → List Bytes
unfolding extend
split sep [] = [] ∷ []
split sep (c ∷ s) = let rest = split sep s in if c == sep then [] ∷ rest else extend c rest

-- `s[strings.Index(s, sep):]`; the slice panics where `Index` is -1
unfoldable pub from_first : ℕ → Bytes → Option Bytes
from_first sep [] = none
from_first sep (c ∷ s) = let rest = from_first sep s in if c == sep then some (c ∷ s) else rest

-- `s[strings.LastIndex(s, sep):]`, likewise
unfoldable pub from_last : ℕ → Bytes → Option Bytes
from_last sep [] = none
from_last sep (c ∷ s) = elim (from_last sep s) [
  | none ↦ if c == sep then some (c ∷ s) else none
  | some t ↦ some t
]

-- `a < b` on strings: the order of their bytes
unfoldable pub bytes_lt : Bytes → Bytes → Bool
bytes_lt [] [] = false
bytes_lt [] (_ ∷ _) = true
bytes_lt (_ ∷ _) [] = false
bytes_lt (x ∷ xs) (y ∷ ys) =
    let rest = bytes_lt xs ys in
    elim (compare x y) [ Ordering.lt ↦ true | Ordering.eq ↦ rest | Ordering.gt ↦ false ]

-- The byte does not occur in the string.
abbrev pub Lacks : ℕ → Bytes → Type 0
Lacks sep [] = Unit
Lacks sep (c ∷ s) = (c ≢ sep) × Lacks sep s

pub split-Lacks : (sep : ℕ) (s : Bytes) → Lacks sep s → split sep s ≡ s ∷ []
unfolding split
split-Lacks sep [] _ = refl
split-Lacks sep (c ∷ s) (d, h) = ground (arith, split-Lacks sep s h)

-- The part before the first separator is the first of the split.
pub split-append :
    (sep : ℕ) (s t : Bytes) → Lacks sep s → split sep (s ++ sep ∷ t) ≡ s ∷ split sep t
unfolding split
split-append sep [] t _ = ground arith
split-append sep (c ∷ s) t (d, h) = ground (arith, split-append sep s t h)

pub from_first-append :
    (sep : ℕ) (s t : Bytes) → Lacks sep s → from_first sep (s ++ sep ∷ t) ≡ some (sep ∷ t)
unfolding from_first
from_first-append sep [] t _ = ground arith
from_first-append sep (c ∷ s) t (d, h) = ground (arith, from_first-append sep s t h)

-- A string of which `LastIndex` finds nothing is not split.
pub split-from_last : (sep : ℕ) (s : Bytes) → from_last sep s ≡ none → split sep s ≡ s ∷ []
unfolding split from_last extend
split-from_last sep [] _ = refl
split-from_last sep (c ∷ s) h = elim (Option-cases (from_last sep s)) [
  | inl e ↦ ground (arith, split-from_last sep s e, e, h)
  | inr (t, e) ↦ absurd (some_absurd (rw e at h))
]
  where
    some_absurd : {t : Bytes} → ◌≡◌ {A = Option Bytes} (some t) none → ⊥
    some_absurd h = cc

length-extend : (c : ℕ) (ws : List Bytes) → 1 ≤ length ws → length (extend c ws) ≡ length ws
unfolding extend
length-extend c [] h = omega (arith, h)
length-extend c (w ∷ ws) h = refl

pub split-nonempty : (sep : ℕ) (s : Bytes) → 1 ≤ length (split sep s)
unfolding split
split-nonempty sep [] = omega arith
split-nonempty sep (c ∷ s) = elim (Bool-cases (c == sep)) [
  | inl b ↦ rw b (omega arith)
  | inr b ↦ rw (b, length-extend c (split sep s) (split-nonempty sep s)) (split-nonempty sep s)
]

-- A separator parts the string in two.
pub length-split-append :
    (sep : ℕ) (s t : Bytes)
    → length (split sep (s ++ sep ∷ t)) ≡ length (split sep s) + length (split sep t)
unfolding split
length-split-append sep [] t = ground arith
length-split-append sep (c ∷ s) t = elim (Bool-cases (c == sep)) [
  | inl b ↦ rw b (omega (arith, length-split-append sep s t))
  | inr b ↦
      rw
        (
          b,
          length-extend c (split sep (s ++ sep ∷ t)) (split-nonempty sep (s ++ sep ∷ t)),
          length-extend c (split sep s) (split-nonempty sep s),
        )
        (length-split-append sep s t)
]

-- The slice from the first separator starts with it.
pub from_first_total :
    (sep : ℕ) (s t : Bytes) → (u : Bytes) × (from_first sep (s ++ sep ∷ t) ≡ some (sep ∷ u))
unfolding from_first
from_first_total sep [] t = (t, ground arith)
from_first_total sep (c ∷ s) t = elim (Bool-cases (c == sep)) [
  | inl b ↦ (s ++ sep ∷ t, ground (arith, b))
  | inr b ↦ let (u, e) = from_first_total sep s t in (u, rw b e)
]
