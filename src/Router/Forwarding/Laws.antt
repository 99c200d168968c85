-- ===== src/Router/Forwarding/Laws.antt =====
-- What a batch is answered with on the forwarding path.
use web3signer_go.Base.{
  ◌==◌, ==_iff, Bool-cases, Option-cases, length, get_elem?, set, replicate, length-set,
  length-replicate, get_elem?-set_self, get_elem?-set_ne, Result, ok, err, ℕ, zero, suc, ◌+◌, ◌<◌,
  ◌≡◌, refl, sym, ap, subst, ◌∙◌, ◌⊎◌, inl, inr, true, false, Option, none, some, List, [], ◌∷◌,
  arith,
}
use web3signer_go.Errors.Types.{GoError}
use web3signer_go.Jsonrpc.Types.{Request, Response, new_error_response}
use web3signer_go.Jsonrpc.Codes.{internal_error}
use web3signer_go.Router.Node.{Libraries}
use web3signer_go.Router.SignHandler.{is_sign_method}
use web3signer_go.Router.ForwardHandler.{ForwardHandler}
use web3signer_go.Router.Table.{Router, error_of, get_handler, handle}
use web3signer_go.Router.Table.Laws.{finish_response-id}
use web3signer_go.Router.Forwarding.{
  Slots, sign_indices, forward_indices, forward_requests, fill_answers, fill_errors, fill_forwarded,
  sign_one, sign_loop, forward_pass, batch_responses, id_at,
}
use web3signer_go.Router.Forwarding.Indices.{
  In, Points, sign_indices_iff, forward_indices_iff, forward_requests-empty,
}

-- The response to a signing request has its id.
abbrev pub Belongs : List Request → ℕ → Response → Type 0
Belongs reqs i resp =
    (q : Request) → get_elem? reqs i ≡ some q → is_sign_method q.method ≡ true → resp.id ≡ q.id

-- There is a response at the index, and it belongs there.
abbrev pub Holds : List Request → Slots → ℕ → Type 0
Holds reqs slots i =
    (resp : Response) × (get_elem? slots i ≡ some (some resp)) × Belongs reqs i resp

-- A loop that writes a response at each of the indices in turn.
data Wrote (reqs : List Request) : List ℕ → Slots → Slots → Type 0 where
  done : {slots : Slots} → Wrote reqs [] slots slots
  write :
      {i : ℕ} {is : List ℕ} {slots slots' : Slots} (resp : Response)
      → Belongs reqs i resp
      → Wrote reqs is (set slots i (some resp)) slots'
      → Wrote reqs (i ∷ is) slots slots'

set-Holds_self :
    (reqs : List Request) (slots : Slots) (i j : ℕ) (resp : Response)
    → Belongs reqs i resp
    → j < length slots
    → j ≡ i
    → Holds reqs (set slots i (some resp)) j
set-Holds_self reqs slots i j resp b lt e =
    subst (Holds reqs (set slots i (some resp))) (sym e)
      (resp, get_elem?-set_self slots i (some resp) (omega arith), b)

set-Holds :
    (reqs : List Request) (slots : Slots) (i j : ℕ) (resp : Response)
    → Belongs reqs i resp
    → j < length slots
    → Holds reqs slots j
    → Holds reqs (set slots i (some resp)) j
set-Holds reqs slots i j resp b lt (old, e, c) = elim (Bool-cases (i == j)) [
  | inl same ↦ set-Holds_self reqs slots i j resp b lt (sym ((==_iff i j).0 same))
  | inr differ ↦
      (old, get_elem?-set_ne slots i j (some resp) (λ x. ground (arith, ==_iff i j)) ∙ e, c)
]

module _ {reqs : List Request} where
  Wrote-Holds :
      {is : List ℕ} {slots slots' : Slots} (j : ℕ)
      → Wrote reqs is slots slots'
      → j < length slots
      → In j is ⊎ Holds reqs slots j
      → Holds reqs slots' j
  Wrote-Holds j done lt (inl h) = elim h [ ]
  Wrote-Holds j done lt (inr h) = h
  Wrote-Holds {slots = slots} j (write {i = i} resp b ws) lt h =
      Wrote-Holds j ws (omega (arith, length-set slots i (some resp))) (elim h [
        | inl (inl e) ↦ inr (set-Holds_self reqs slots i j resp b lt e)
        | inl (inr later) ↦ inl later
        | inr old ↦ inr (set-Holds reqs slots i j resp b lt old)
      ])

  Wrote-length :
      {is : List ℕ} {slots slots' : Slots}
      → Wrote reqs is slots slots'
      → length slots' ≡ length slots
  Wrote-length done = refl
  Wrote-length {slots = slots} (write {i = i} resp b ws) =
      Wrote-length ws ∙ length-set slots i (some resp)

-- A response that is forwarded takes the place of a request that is not signed for.
forwarded-Belongs :
    (reqs : List Request) (i : ℕ) (resp : Response) → Points false 0 reqs i → Belongs reqs i resp
forwarded-Belongs reqs i resp (k, p, e, got, other) q here signing =
    absurd (ground (arith, ap (get_elem? reqs) e))

zero_add : (k : ℕ) → 0 + k ≡ k
zero_add k = omega arith

sign_indices-valid :
    (reqs : List Request) (x : ℕ)
    → In x (sign_indices 0 reqs)
    → (q : Request) × (get_elem? reqs x ≡ some q)
sign_indices-valid reqs x h =
    let (k, q, e, got, s) = (sign_indices_iff reqs x).0 h in
    (q, ap (get_elem? reqs) (e ∙ zero_add k) ∙ got)

get_elem?-lt :
    (reqs : List Request) (j : ℕ) (q : Request) → get_elem? reqs j ≡ some q → j < length reqs
get_elem?-lt [] j q e = absurd (ground arith)
get_elem?-lt (p ∷ ps) zero q e = omega arith
get_elem?-lt (p ∷ ps) (suc j) q e = omega (arith, get_elem?-lt ps j q e)

module _ (libs : Libraries) where
  fill_answers-Wrote :
      (reqs : List Request) (is : List ℕ) (rs : List Response) (slots : Slots)
      → ((x : ℕ) → In x is → Points false 0 reqs x)
      → Wrote reqs is slots (fill_answers libs reqs is rs slots)
  unfolding fill_answers
  fill_answers-Wrote reqs [] rs slots p = done
  fill_answers-Wrote reqs (i ∷ is) [] slots p =
      let resp = new_error_response (id_at reqs i) internal_error in
      write resp (forwarded-Belongs reqs i resp (p i (inl refl)))
        (fill_answers-Wrote reqs is [] _ (λ x h. p x (inr h)))
  fill_answers-Wrote reqs (i ∷ is) (r ∷ rs) slots p =
      write r (forwarded-Belongs reqs i r (p i (inl refl)))
        (fill_answers-Wrote reqs is rs _ (λ x h. p x (inr h)))

  fill_errors-Wrote :
      (reqs : List Request) (is : List ℕ) (e : GoError) (slots : Slots)
      → ((x : ℕ) → In x is → Points false 0 reqs x)
      → Wrote reqs is slots (fill_errors libs reqs is e slots)
  unfolding fill_errors
  fill_errors-Wrote reqs [] e slots p = done
  fill_errors-Wrote reqs (i ∷ is) e slots p =
      let resp =
        new_error_response (id_at reqs i) (error_of libs "Failed to forward batch request" e) in
      write resp (forwarded-Belongs reqs i resp (p i (inl refl)))
        (fill_errors-Wrote reqs is e _ (λ x h. p x (inr h)))

  fill_forwarded-Wrote :
      (reqs : List Request) (got : Result GoError (List Response)) (slots : Slots)
      → Wrote reqs (forward_indices 0 reqs) slots (fill_forwarded libs reqs got slots)
  fill_forwarded-Wrote reqs (ok rs) slots =
      fill_answers-Wrote reqs (forward_indices 0 reqs) rs slots
        (λ x. (forward_indices_iff reqs x).0)
  fill_forwarded-Wrote reqs (err e) slots =
      fill_errors-Wrote reqs (forward_indices 0 reqs) e slots (λ x. (forward_indices_iff reqs x).0)

  module _ {W : Type 0} where
    sign_one-id : (r : Router W) (req : Request) (w : W) → (sign_one libs r req w).0.id ≡ req.id
    unfolding new_error_response
    sign_one-id r req w = elim (Option-cases (get_handler req.method r)) [
      | inl e ↦ ground arith
      | inr (h, e) ↦
          let (same, version) = finish_response-id libs req (handle libs h req w).0 in ground arith
    ]

    sign_loop-Wrote :
        (r : Router W) (reqs : List Request) (is : List ℕ) (slots : Slots) (w : W)
        → ((x : ℕ) → In x is → (q : Request) × (get_elem? reqs x ≡ some q))
        → Wrote reqs is slots (sign_loop libs r reqs is slots w).0
    unfolding sign_loop
    sign_loop-Wrote r reqs [] slots w p = done
    sign_loop-Wrote r reqs (i ∷ is) slots w p =
        let (q, got) = p i (inl refl) in
        let (resp, w') = sign_one libs r q w in
        rw (got, sign_loop)
          (write resp (λ q' here s. ground (arith, sign_one-id r q w))
            (sign_loop-Wrote r reqs is (set slots i (some resp)) w' (λ x h. p x (inr h))))

    forward_pass-Holds :
        (fwd : ForwardHandler W) (reqs : List Request) (slots : Slots) (w : W) (j : ℕ) (q : Request)
        → get_elem? reqs j ≡ some q
        → j < length slots
        → (is_sign_method q.method ≡ true → Holds reqs slots j)
        → Holds reqs (forward_pass libs fwd reqs slots w).0 j
    unfolding forward_pass
    forward_pass-Holds fwd reqs slots w j q got lt signed = go (forward_requests reqs) refl
      where
        place : In j (forward_indices 0 reqs) ⊎ Holds reqs slots j
        place = elim (Bool-cases (is_sign_method q.method)) [
          | inl s ↦ inr (signed s)
          | inr s ↦ inl ((forward_indices_iff reqs j).1 (j, q, omega arith, got, s))
        ]

        go :
            (fs : List Request)
            → forward_requests reqs ≡ fs
            → Holds reqs (forward_pass libs fwd reqs slots w).0 j
        go [] e = rw (e, forward_pass) (signed (forward_requests-empty reqs j q e got))
        go (p ∷ ps) e =
            rw (e, forward_pass)
              (Wrote-Holds j
                (fill_forwarded-Wrote reqs (fwd.client.forward_batch_request (p ∷ ps) w).0 slots) lt
                place)

    -- Where a batch is forwarded with a ForwardHandler, each of its requests has a response at
    -- its place, whatever the node and the handlers return, and the response to a signing
    -- request has its id.
    pub batch_responses-Holds :
        (r : Router W) (fwd : ForwardHandler W) (reqs : List Request) (w : W) (j : ℕ) (q : Request)
        → get_elem? reqs j ≡ some q
        → Holds reqs (batch_responses libs r fwd reqs w).0 j
    unfolding batch_responses
    batch_responses-Holds r fwd reqs w j q got =
        let slots = replicate (length reqs) none in
        let (slots', w') = sign_loop libs r reqs (sign_indices 0 reqs) slots w in
        let ws = sign_loop-Wrote r reqs (sign_indices 0 reqs) slots w (sign_indices-valid reqs) in
        let n = length-replicate {A = Option Response} (length reqs) none in
        let lt = get_elem?-lt reqs j q got in
        forward_pass-Holds fwd reqs slots' w' j q got (omega (arith, Wrote-length ws)) (λ s.
          Wrote-Holds j ws (omega arith)
            (inl ((sign_indices_iff reqs j).1 (j, q, omega arith, got, s))))
