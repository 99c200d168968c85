-- ===== src/Kms/Signing/Injective.antt =====
-- The signing string names one request.
use text.Mathlib.TextLemmas.{cons-append, nil-append}
use Prim.Native.Char.{code}
use Prim.Native.String.{◌∷◌ as ◌∷ˢ◌, [] as []ˢ}
use web3signer_go.Base.{
  ◌+++◌, String, ◌≡◌, ◌≢◌, ◌∙◌, refl, sym, ap, List, [], ◌∷◌, ◌++◌, ℕ, All, runes,
}
use web3signer_go.Kms.Signing.{build_signing_string}

abbrev pub IsLine : String → Type 0
IsLine s = All (λ c. c ≢ 10) (runes s)

runes-append : (s t : String) → runes (s +++ t) ≡ runes s ++ runes t
unfolding runes
runes-append []ˢ t = ap runes (nil-append t)
runes-append (c ∷ˢ s) t = ap runes (cons-append c s t) ∙ ap (λ x. code c ∷ x) (runes-append s t)

-- At the first newline a text falls apart in one way.
split_unique :
    (xs xs' ys ys' : List ℕ)
    → All (λ c. c ≢ 10) xs
    → All (λ c. c ≢ 10) xs'
    → xs ++ (10 ∷ ys) ≡ xs' ++ (10 ∷ ys')
    → (xs ≡ xs') × (ys ≡ ys')
split_unique [] [] ys ys' h h' e = (refl, cc)
split_unique [] (x ∷ xs') ys ys' h h' e = absurd (h'.0 (cc))
split_unique (x ∷ xs) [] ys ys' h h' e = absurd (h.0 (cc))
split_unique (x ∷ xs) (x' ∷ xs') ys ys' h h' e =
    let (same, rest) = split_unique xs xs' ys ys' h.1 h'.1 (cc) in (cc, rest)

lines : String → String → String → String → List ℕ
lines verb hash type date =
    runes verb ++ (10 ∷ (runes hash ++ (10 ∷ (runes type ++ (10 ∷ runes date)))))

runes-build_signing_string :
    (verb hash type date : String)
    → runes (build_signing_string verb hash type date) ≡ lines verb hash type date
unfolding build_signing_string lines runes
runes-build_signing_string verb hash type date =
    after verb _
    ∙ ap (λ x. runes verb ++ (10 ∷ x))
        (after hash _ ∙ ap (λ x. runes hash ++ (10 ∷ x)) (after type date))
  where
    line : (t : String) → runes ("\n" +++ t) ≡ 10 ∷ runes t
    line t = runes-append "\n" t

    after : (s t : String) → runes (s +++ ("\n" +++ t)) ≡ runes s ++ (10 ∷ runes t)
    after s t = runes-append s ("\n" +++ t) ∙ ap (λ x. runes s ++ x) (line t)

-- Two equal signing strings are of the same method, content hash, content type and date, where
-- no method, hash or content type has a newline.
pub build_signing_string_injective :
    (verb hash type date verb' hash' type' date' : String)
    → IsLine verb
    → IsLine hash
    → IsLine type
    → IsLine verb'
    → IsLine hash'
    → IsLine type'
    → build_signing_string verb hash type date ≡ build_signing_string verb' hash' type' date'
    → (runes verb ≡ runes verb')
      × (runes hash ≡ runes hash')
      × (runes type ≡ runes type')
      × (runes date ≡ runes date')
unfolding lines
build_signing_string_injective verb hash type date verb' hash' type' date' a b c a' b' c' e =
    let same =
      sym (runes-build_signing_string verb hash type date)
      ∙ ap runes e
      ∙ runes-build_signing_string verb' hash' type' date' in
    let (verbs, rest₁) = split_unique (runes verb) (runes verb') _ _ a a' same in
    let (hashes, rest₂) = split_unique (runes hash) (runes hash') _ _ b b' rest₁ in
    let (types, dates) = split_unique (runes type) (runes type') _ _ c c' rest₂ in
    (verbs, hashes, types, dates)
