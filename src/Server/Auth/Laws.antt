-- ===== src/Server/Auth/Laws.antt =====
-- Exactly the requests that pass.
use web3signer_go.Base.{
  ==_iff, Bool-cases, Option-cases, ℕ, ◌≡◌, refl, sym, ap₂, subst, ◌∙◌, ◌≢◌, ◌↔◌, ◌⊎◌, inl, inr,
  Bool, true, false, some, List, [], ◌∷◌, ◌++◌, arith,
}
use web3signer_go.Server.Auth.{
  AuthRequest, same_bytes, starts_path, covers, is_whitelisted, split_space, bearer, is_bearer,
  auth_middleware,
}

pub same_bytes_iff : (xs ys : List ℕ) → (same_bytes xs ys ≡ true) ↔ (xs ≡ ys)
unfolding same_bytes
same_bytes_iff [] [] = ((λ h. refl), (λ h. refl))
same_bytes_iff [] (y ∷ ys) = ((λ h. absurd (ground arith)), (λ h. absurd (ground arith)))
same_bytes_iff (x ∷ xs) [] = ((λ h. absurd (ground arith)), (λ h. absurd (ground arith)))
same_bytes_iff (x ∷ xs) (y ∷ ys) = ground (arith, same_bytes_iff xs ys, ==_iff x y)

-- What follows an entry in a path below it.
abbrev pub Below : List ℕ → Type 0
Below [] = Unit {0}
Below (b ∷ bs) = b ≡ b'/'

starts_path_iff :
    (entry path : List ℕ)
    → (starts_path entry path ≡ true) ↔ ((rest : List ℕ) × (path ≡ entry ++ rest) × Below rest)
unfolding starts_path same_bytes
starts_path_iff [] [] = ((λ h. ([], refl, tt)), (λ h. refl))
starts_path_iff [] (p ∷ path) =
    ((λ h. (p ∷ path, refl, ground arith)), (λ (rest, e, b). ground arith))
starts_path_iff (x ∷ entry) [] =
    ((λ h. absurd (ground arith)), (λ (rest, e, b). absurd (ground arith)))
starts_path_iff (x ∷ entry) (p ∷ path) = (
  (λ h.
      let (rest, e, b) = (starts_path_iff entry path).0 (ground arith) in
      (rest, ground (arith, ==_iff p x), b)),
  (λ (rest, e, b).
      let h = (starts_path_iff entry path).1 (rest, ground arith, b) in ground (arith, ==_iff p x)),
)

-- An entry of the whitelist covers itself and the paths below it; the root only itself.
abbrev pub Covers : List ℕ → List ℕ → Type 0
Covers entry path =
    ((entry ≡ b'/' ∷ []) × (path ≡ b'/' ∷ []))
    ⊎ ((entry ≢ b'/' ∷ []) × (rest : List ℕ) × (path ≡ entry ++ rest) × Below rest)

abbrev pub Whitelisted : List (List ℕ) → List ℕ → Type 0
Whitelisted [] path = ⊥
Whitelisted (entry ∷ whitelist) path = Covers entry path ⊎ Whitelisted whitelist path

covers_iff : (entry path : List ℕ) → (covers entry path ≡ true) ↔ Covers entry path
unfolding covers
covers_iff entry path = elim (Bool-cases (same_bytes entry (b'/' ∷ []))) [
  | inl root ↦ (
    (λ h. inl ((same_bytes_iff entry _).0 root, (same_bytes_iff path _).0 (ground arith))),
    (λ c. elim c [
      | inl (e, e') ↦ let h = (same_bytes_iff path (b'/' ∷ [])).1 e' in ground arith
      | inr (other, rest, e, b) ↦ absurd (other ((same_bytes_iff entry (b'/' ∷ [])).0 root))
    ]),
  )
  | inr other ↦ (
    (λ h.
        let (rest, e, below) = (starts_path_iff entry path).0 (ground arith) in
        inr (
          (λ same. let root = (same_bytes_iff entry (b'/' ∷ [])).1 same in ground arith),
          rest,
          e,
          below,
        )),
    (λ c. elim c [
      | inl (e, e') ↦ let root = (same_bytes_iff entry (b'/' ∷ [])).1 e in absurd (ground arith)
      | inr (other', rest, e, b) ↦
          let h = (starts_path_iff entry path).1 (rest, e, b) in ground arith
    ]),
  )
]

split_space-ok :
    (bs before after : List ℕ)
    → split_space bs ≡ some (before, after)
    → bs ≡ before ++ (b' ' ∷ after)
unfolding split_space
split_space-ok [] before after h = absurd (ground arith)
split_space-ok (b ∷ bs) before after h = elim (Option-cases (split_space bs)) [
  | inl e ↦ ground (arith, ==_iff b b' ')
  | inr ((first, rest), e) ↦
      let same = split_space-ok bs first rest e in ground (arith, ==_iff b b' ')
]

split_space-space : (bs : List ℕ) → split_space (b' ' ∷ bs) ≡ some ([], bs)
unfolding split_space
split_space-space bs = elim (Option-cases (split_space bs)) [
  | inl e ↦ ground arith
  | inr (p, e) ↦ ground arith
]

is_bearer-bearer : (secret : List ℕ) → is_bearer secret (bearer ++ (b' ' ∷ secret)) ≡ true
unfolding is_bearer split_space same_bytes
is_bearer-bearer secret =
    let split = split_space-space secret in
    let same = (same_bytes_iff secret secret).1 refl in ground arith

is_bearer_iff :
    (secret header : List ℕ)
    → (is_bearer secret header ≡ true) ↔ (header ≡ bearer ++ (b' ' ∷ secret))
unfolding is_bearer
is_bearer_iff secret header = (to, from)
  where
    to : is_bearer secret header ≡ true → header ≡ bearer ++ (b' ' ∷ secret)
    to h = elim (Option-cases (split_space header)) [
      | inl e ↦ absurd (ground arith)
      | inr ((scheme, token), e) ↦
          let scheme_is = (same_bytes_iff scheme bearer).0 (ground arith) in
          let token_is = (same_bytes_iff token secret).0 (ground arith) in
          split_space-ok header scheme token e ∙ ap₂ (λ x y. x ++ (b' ' ∷ y)) scheme_is token_is
    ]

    from : header ≡ bearer ++ (b' ' ∷ secret) → is_bearer secret header ≡ true
    from e = subst (λ x. is_bearer secret x ≡ true) (sym e) (is_bearer-bearer secret)

is_whitelisted_iff :
    (whitelist : List (List ℕ)) (path : List ℕ)
    → (is_whitelisted whitelist path ≡ true) ↔ Whitelisted whitelist path
unfolding is_whitelisted
is_whitelisted_iff [] path = ((λ h. absurd (ground arith)), (λ c. elim c [ ]))
is_whitelisted_iff (entry ∷ whitelist) path =
    ground (arith, covers_iff entry path, is_whitelisted_iff whitelist path)

-- What a request shows to pass: nothing, where authentication is off; a path that the whitelist
-- covers; the token; or, without an Authorization header, the key.
abbrev pub Admitted : Bool → List ℕ → List (List ℕ) → AuthRequest → Type 0
Admitted enabled secret whitelist req =
    (enabled ≡ false)
    ⊎ (Whitelisted whitelist req.path
        ⊎ ((req.authorization ≡ bearer ++ (b' ' ∷ secret))
            ⊎ ((req.authorization ≡ []) × (req.api_key ≢ []) × (req.api_key ≡ secret))))

-- A request passes the authentication exactly when that is off, or the whitelist has the path
-- itself or a path above it (the root only itself), or the Authorization header is Bearer, a
-- space and the secret, or there is none and the X-API-Key header is not empty and is the
-- secret.
pub auth_middleware_iff :
    (enabled : Bool) (secret : List ℕ) (whitelist : List (List ℕ)) (req : AuthRequest)
    → (auth_middleware enabled secret whitelist req ≡ true) ↔ Admitted enabled secret whitelist req
unfolding auth_middleware
auth_middleware_iff enabled secret whitelist req = ground (
  arith,
  is_whitelisted_iff whitelist req.path,
  is_bearer_iff secret req.authorization,
  same_bytes_iff req.api_key secret,
)
