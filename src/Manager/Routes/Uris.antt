-- ===== src/Manager/Routes/Uris.antt =====
-- handlers/session.go and handlers/client.go: what a server makes of a URI that the session manager
-- hands out. The handlers put the names in as they are; `net/url` cuts the URI at a query or a
-- fragment and decodes what is left, and gin chooses the route of the decoded path.
use xr_telepresence_k8s.Base.{
  ℕ, ◌+◌, ◌*◌, ◌-◌, ◌≡◌, ◌≢◌, refl, Bool, true, ◌&&◌, ◌||◌, Option, none, some, [], ◌∷◌, ◌++◌, All,
  nat_eq, ◌==◌, if◌then◌else◌, leb, arith, All-map, All-append,
}
use xr_telepresence_k8s.Base.Text.{Bytes, text, Lacks}

-- What a byte of a URI does.
pub data Role : Type 0 where
  ends escapes stands : Role

unfoldable pub role : ℕ → Role
role c = if c == b'?' || c == b'#' then ends else if c == b'%' then escapes else stands

abbrev pub within : ℕ → ℕ → ℕ → Bool
within low high c = leb low c && leb c high

unfoldable pub hex_digit : ℕ → Option ℕ
hex_digit c =
    if within b'0' b'9' c
    then some (c - b'0')
    else if within b'A' b'F' c
    then some (10 + (c - b'A'))
    else if within b'a' b'f' c
    then some (10 + (c - b'a'))
    else none

-- Between two characters, after a percent sign, and after one digit more.
pub data Decoding : Type 0 where
  between after_percent : Decoding
  after_digit : ℕ → Decoding

abbrev put : ℕ → Option Bytes → Option Bytes
put c none = none
put c (some s) = some (c ∷ s)

-- A bad escape is refused.
unfoldable pub decode : Decoding → Bytes → Option Bytes
unfolding role hex_digit
decode between [] = some []
decode between (c ∷ s) = elim (role c) [
  | ends ↦ some []
  | escapes ↦ decode after_percent s
  | stands ↦ put c (decode between s)
]
decode after_percent [] = none
decode after_percent (c ∷ s) = elim (hex_digit c) [
  | none ↦ none
  | some d ↦ decode (after_digit d) s
]
decode (after_digit d) [] = none
decode (after_digit d) (c ∷ s) = elim (hex_digit c) [
  | none ↦ none
  | some d' ↦ put (16 * d + d') (decode between s)
]

-- The path that a URI without a host names.
abbrev pub url_path : Bytes → Option Bytes
url_path = decode between

-- The characters that a URI carries as they are.
unfoldable pub is_unreserved : ℕ → Bool
is_unreserved c =
    within b'a' b'z' c
    || within b'A' b'Z' c
    || within b'0' b'9' c
    || c == b'-'
    || c == b'.'
    || c == b'_'
    || c == b'~'

-- A name of such characters, but for the two that stand for a directory.
abbrev pub IsName : Bytes → Type 0
IsName v = All (λ (c : ℕ). is_unreserved c ≡ true) v × (v ≢ []) × (v ≢ text ".") × (v ≢ text "..")

abbrev pub Stands : Bytes → Type 0
Stands = All (λ (c : ℕ). role c ≡ stands)

pub Stands-append : (s t : Bytes) → Stands s → Stands t → Stands (s ++ t)
Stands-append = All-append (λ (c : ℕ). role c ≡ stands)

pub url_path-Stands : (s : Bytes) → Stands s → url_path s ≡ some s
unfolding decode
url_path-Stands [] _ = refl
url_path-Stands (c ∷ s) (p, ps) = rw (p, decode) (rw (url_path-Stands s ps) refl)

role-unreserved : (c : ℕ) → is_unreserved c ≡ true → role c ≡ stands
unfolding role is_unreserved nat_eq
role-unreserved c h = ground arith

abbrev pub every : (ℕ → Bool) → Bytes → Bool
every f [] = true
every f (c ∷ s) = f c && every f s

pub All-every : (f : ℕ → Bool) (s : Bytes) → every f s ≡ true → All (λ (c : ℕ). f c ≡ true) s
All-every f [] _ = tt
All-every f (c ∷ s) e = (ground (arith, e), All-every f s (ground (arith, e)))

abbrev pub in_path : ℕ → Bool
in_path c = c == b'/' || is_unreserved c

role-in_path : (c : ℕ) → in_path c ≡ true → role c ≡ stands
unfolding role is_unreserved nat_eq
role-in_path c h = ground arith

pub every-Stands : (s : Bytes) → every in_path s ≡ true → Stands s
every-Stands s e = All-map role-in_path s (All-every in_path s e)

pub IsName-Stands : (v : Bytes) → IsName v → Stands v
IsName-Stands v named = All-map role-unreserved v named.0

not_slash : (c : ℕ) → is_unreserved c ≡ true → c ≢ b'/'
unfolding is_unreserved nat_eq
not_slash c h e = ground arith

pub IsName-Lacks : (v : Bytes) → IsName v → Lacks b'/' v
IsName-Lacks v named = slashless v named.0
  where
    slashless : (v : Bytes) → All (λ (c : ℕ). is_unreserved c ≡ true) v → Lacks b'/' v
    slashless [] _ = tt
    slashless (c ∷ v) (p, ps) = (not_slash c p, slashless v ps)
