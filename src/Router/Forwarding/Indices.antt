-- ===== src/Router/Forwarding/Indices.antt =====
-- The indices that the batch is split into.
use web3signer_go.Base.{
  if◌then◌else◌, Bool-cases, get_elem?, ℕ, zero, suc, ◌+◌, ◌≡◌, refl, sym, ap, subst, ◌↔◌, ◌⊎◌, inl,
  inr, Bool, true, false, not, some, List, [], ◌∷◌, arith,
}
use web3signer_go.Jsonrpc.Types.{Request}
use web3signer_go.Router.SignHandler.{is_sign_method}
use web3signer_go.Router.Forwarding.{sign_indices, forward_indices, forward_requests}

abbrev pub In : ℕ → List ℕ → Type 0
In x [] = ⊥
In x (y ∷ ys) = (x ≡ y) ⊎ In x ys

-- Where an index that counts from `i` points.
abbrev pub Points : Bool → ℕ → List Request → ℕ → Type 0
Points signing i reqs x =
    (k : ℕ) × (q : Request) × (x ≡ i + k)
    × (get_elem? reqs k ≡ some q)
    × (is_sign_method q.method ≡ signing)

Points-later :
    (signing : Bool) (i : ℕ) (q : Request) (qs : List Request) (x : ℕ)
    → Points signing (suc i) qs x
    → Points signing i (q ∷ qs) x
Points-later signing i q qs x (k, r, e, got, s) = (suc k, r, omega arith, got, s)

abbrev agrees : Bool → Bool → Bool
agrees true b = b
agrees false b = not b

agrees-eq : (signing b : Bool) → agrees signing b ≡ true → b ≡ signing
agrees-eq true true h = refl
agrees-eq true false h = absurd (ground arith)
agrees-eq false true h = absurd (ground arith)
agrees-eq false false h = refl

eq-agrees : (signing b : Bool) → b ≡ signing → agrees signing b ≡ true
eq-agrees true b h = h
eq-agrees false b h = ground arith

abbrev keep : Bool → ℕ → List ℕ → List ℕ
keep b i is = if b then i ∷ is else is

-- Both lists of indices at once.
indices : Bool → ℕ → List Request → List ℕ
indices signing i [] = []
indices signing i (q ∷ qs) =
    let rest = indices signing (suc i) qs in keep (agrees signing (is_sign_method q.method)) i rest

sign_indices-eq : (i : ℕ) (reqs : List Request) → sign_indices i reqs ≡ indices true i reqs
unfolding sign_indices indices
sign_indices-eq i [] = refl
sign_indices-eq i (q ∷ qs) = ap (keep (is_sign_method q.method) i) (sign_indices-eq (suc i) qs)

forward_indices-eq : (i : ℕ) (reqs : List Request) → forward_indices i reqs ≡ indices false i reqs
unfolding forward_indices indices
forward_indices-eq i [] = refl
forward_indices-eq i (q ∷ qs) = ground (arith, forward_indices-eq (suc i) qs)

indices-Points :
    (signing : Bool) (i : ℕ) (reqs : List Request) (x : ℕ)
    → In x (indices signing i reqs)
    → Points signing i reqs x
unfolding indices
indices-Points signing i [] x h = elim h [ ]
indices-Points signing i (q ∷ qs) x h =
    let rest = indices signing (suc i) qs in
    elim (Bool-cases (agrees signing (is_sign_method q.method))) [
      | inr other ↦
          Points-later signing i q qs x
            (indices-Points signing (suc i) qs x (subst (λ b. In x (keep b i rest)) other h))
      | inl same ↦ elim (subst (λ b. In x (keep b i rest)) same h) [
        | inl e ↦ (0, q, omega arith, refl, agrees-eq signing _ same)
        | inr later ↦ Points-later signing i q qs x (indices-Points signing (suc i) qs x later)
      ]
    ]

In-keep : (b : Bool) (x i : ℕ) (is : List ℕ) → In x is → In x (keep b i is)
In-keep true x i is h = inr h
In-keep false x i is h = h

In-indices :
    (signing : Bool) (i k : ℕ) (reqs : List Request) (q : Request)
    → get_elem? reqs k ≡ some q
    → is_sign_method q.method ≡ signing
    → In (i + k) (indices signing i reqs)
unfolding indices
In-indices signing i k [] q got s = absurd (ground arith)
In-indices signing i zero (p ∷ ps) q got s =
    let same = eq-agrees signing (is_sign_method p.method) (ground arith) in
    subst (λ b. In (i + 0) (keep b i (indices signing (suc i) ps))) (sym same) (inl (omega arith))
In-indices signing i (suc k) (p ∷ ps) q got s = In-keep _ _ i _ (
    subst (λ x. In x (indices signing (suc i) ps)) (omega arith)
      (In-indices signing (suc i) k ps q got s))

-- The two lists hold the indices of the signing requests and those of the others.
pub sign_indices_iff :
    (reqs : List Request) (x : ℕ) → In x (sign_indices 0 reqs) ↔ Points true 0 reqs x
sign_indices_iff reqs x = (
  (λ h. indices-Points true 0 reqs x (subst (In x) (sign_indices-eq 0 reqs) h)),
  (λ (k, q, e, got, s).
      subst (In x) (sym (sign_indices-eq 0 reqs))
        (subst (λ y. In y (indices true 0 reqs)) (sym e) (In-indices true 0 k reqs q got s))),
)

pub forward_indices_iff :
    (reqs : List Request) (x : ℕ) → In x (forward_indices 0 reqs) ↔ Points false 0 reqs x
forward_indices_iff reqs x = (
  (λ h. indices-Points false 0 reqs x (subst (In x) (forward_indices-eq 0 reqs) h)),
  (λ (k, q, e, got, s).
      subst (In x) (sym (forward_indices-eq 0 reqs))
        (subst (λ y. In y (indices false 0 reqs)) (sym e) (In-indices false 0 k reqs q got s))),
)

pub forward_requests-empty :
    (reqs : List Request) (k : ℕ) (q : Request)
    → forward_requests reqs ≡ []
    → get_elem? reqs k ≡ some q
    → is_sign_method q.method ≡ true
unfolding forward_requests
forward_requests-empty [] k q e got = absurd (ground arith)
forward_requests-empty (p ∷ ps) zero q e got = ground arith
forward_requests-empty (p ∷ ps) (suc k) q e got = forward_requests-empty ps k q (ground arith) got
