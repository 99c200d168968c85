-- ===== src/Server/Auth.antt =====
-- internal/server/middleware.go: which requests pass. Strings are taken as their bytes; a header
-- that is missing is empty.
pub mod Laws
use web3signer_go.Base.{
  leb, ◌==◌, if◌then◌else◌, length, get_elem?, take, bytes, ℕ, Bool, true, false, not, ◌&&◌, ◌||◌,
  Option, none, some, List, [], ◌∷◌,
}

pub record AuthRequest : Type 0 where
  pub path : List ℕ
  pub authorization : List ℕ
  pub api_key : List ℕ

-- Also subtle.ConstantTimeCompare, whose time is not modelled.
unfoldable pub same_bytes : List ℕ → List ℕ → Bool
same_bytes [] [] = true
same_bytes (x ∷ xs) (y ∷ ys) = (x == y) && same_bytes xs ys
same_bytes _ _ = false

abbrev is_slash : Option ℕ → Bool
is_slash none = false
is_slash (some b) = b == b'/'

unfoldable pub starts_path : List ℕ → List ℕ → Bool
unfolding same_bytes
starts_path entry path =
    leb (length entry) (length path)
    && same_bytes (take (length entry) path) entry
    && ((length path == length entry) || is_slash (get_elem? path (length entry)))

-- The root stands for itself alone.
unfoldable pub covers : List ℕ → List ℕ → Bool
unfolding starts_path
covers entry path =
    if same_bytes entry (b'/' ∷ []) then same_bytes path (b'/' ∷ []) else starts_path entry path

unfoldable pub is_whitelisted : List (List ℕ) → List ℕ → Bool
unfolding covers
is_whitelisted [] path = false
is_whitelisted (entry ∷ whitelist) path = covers entry path || is_whitelisted whitelist path

-- strings.SplitN(s, " ", 2), where there is a space.
unfoldable pub split_space : List ℕ → Option (List ℕ × List ℕ)
split_space [] = none
split_space (b ∷ bs) = elim (split_space bs) [
  | none ↦ if b == b' ' then some ([], bs) else none
  | some (before, after) ↦ if b == b' ' then some ([], bs) else some (b ∷ before, after)
]

abbrev pub bearer : List ℕ
bearer = b'B' ∷ b'e' ∷ b'a' ∷ b'r' ∷ b'e' ∷ b'r' ∷ []

unfoldable pub is_bearer : List ℕ → List ℕ → Bool
unfolding split_space
is_bearer secret header = elim (split_space header) [
  | none ↦ false
  | some (scheme, token) ↦ same_bytes scheme bearer && same_bytes token secret
]

abbrev is_empty : List ℕ → Bool
is_empty [] = true
is_empty _ = false

-- True where the next handler runs, and false where the answer is status 401.
unfoldable pub auth_middleware : Bool → List ℕ → List (List ℕ) → AuthRequest → Bool
unfolding is_whitelisted is_bearer
auth_middleware enabled secret whitelist req =
    if not enabled
    then true
    else if is_whitelisted whitelist req.path
    then true
    else if not (is_empty req.authorization)
    then is_bearer secret req.authorization
    else if not (is_empty req.api_key)
    then same_bytes req.api_key secret
    else false
