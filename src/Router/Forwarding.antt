-- ===== src/Router/Forwarding.antt =====
-- internal/router/router.go, handleBatchWithForwarding: the signing requests of a batch are handled
-- one after the other, the others go to the node in one batch.
pub mod Indices
pub mod Laws
use web3signer_go.Base.{
  if◌then◌else◌, length, get_elem?, set, replicate, Result, ok, err, ℕ, suc, Option, none, some,
  List, [], ◌∷◌,
}
use web3signer_go.Errors.Types.{GoError}
use web3signer_go.Jsonrpc.Value.{Value, null}
use web3signer_go.Jsonrpc.Codes.{invalid_request_error, method_not_found_error, internal_error}
use web3signer_go.Jsonrpc.Types.{
  Request, Response, new_error_response, marshal_response, marshal_responses,
}
use web3signer_go.Router.Node.{Libraries}
use web3signer_go.Router.SignHandler.{is_sign_method}
use web3signer_go.Router.ForwardHandler.{ForwardHandler}
use web3signer_go.Router.Table.{Router, get_handler, handle, error_of, finish_response}

-- The slice of responses while it is filled: nil where there is none yet.
abbrev pub Slots : Type 0
Slots = List (Option Response)

-- Split: the indices of the signing requests and of the others, counted from `i`.
unfoldable pub sign_indices : ℕ → List Request → List ℕ
sign_indices i [] = []
sign_indices i (q ∷ qs) =
    let rest = sign_indices (suc i) qs in if is_sign_method q.method then i ∷ rest else rest

unfoldable pub forward_indices : ℕ → List Request → List ℕ
forward_indices i [] = []
forward_indices i (q ∷ qs) =
    let rest = forward_indices (suc i) qs in if is_sign_method q.method then rest else i ∷ rest

unfoldable pub forward_requests : List Request → List Request
forward_requests [] = []
forward_requests (q ∷ qs) =
    let rest = forward_requests qs in if is_sign_method q.method then rest else q ∷ rest

-- requests[idx], which the loops only read at indices of the slice.
abbrev id_at : List Request → ℕ → Value
id_at reqs i = elim (get_elem? reqs i) [ none ↦ null | some q ↦ q.id ]

module _ (libs : Libraries) where
  -- A forwarded request: the response at the same place of the node's batch, or an error.
  unfoldable pub fill_answers : List Request → List ℕ → List Response → Slots → Slots
  unfolding new_error_response
  fill_answers reqs [] rs slots = slots
  fill_answers reqs (i ∷ is) [] slots =
      fill_answers reqs is []
        (set slots i (some (new_error_response (id_at reqs i) internal_error)))
  fill_answers reqs (i ∷ is) (r ∷ rs) slots = fill_answers reqs is rs (set slots i (some r))

  unfoldable pub fill_errors : List Request → List ℕ → GoError → Slots → Slots
  unfolding new_error_response
  fill_errors reqs [] e slots = slots
  fill_errors reqs (i ∷ is) e slots = fill_errors reqs is e (
      set slots i (
        some
          (new_error_response (id_at reqs i) (error_of libs "Failed to forward batch request" e))))

  abbrev fill_forwarded : List Request → Result GoError (List Response) → Slots → Slots
  fill_forwarded reqs (ok rs) slots = fill_answers reqs (forward_indices 0 reqs) rs slots
  fill_forwarded reqs (err e) slots = fill_errors reqs (forward_indices 0 reqs) e slots

  module _ {W : Type 0} where
    abbrev sign_one : Router W → Request → W → Response × W
    sign_one r req w = elim (get_handler req.method r) [
      | none ↦ (new_error_response req.id method_not_found_error, w)
      | some h ↦ let (got, w') = handle libs h req w in (finish_response libs req got, w')
    ]

    unfoldable pub sign_loop : Router W → List Request → List ℕ → Slots → W → Slots × W
    unfolding new_error_response
    sign_loop r reqs [] slots w = (slots, w)
    sign_loop r reqs (i ∷ is) slots w = elim (get_elem? reqs i) [
      | none ↦ sign_loop r reqs is slots w
      | some req ↦
          let (resp, w') = sign_one r req w in sign_loop r reqs is (set slots i (some resp)) w'
    ]

    unfoldable pub forward_pass : ForwardHandler W → List Request → Slots → W → Slots × W
    unfolding forward_requests forward_indices fill_answers fill_errors
    forward_pass fwd reqs slots w = elim (forward_requests reqs) [
      | [] ↦ (slots, w)
      | q ∷ qs ↦
          let (got, w') = fwd.client.forward_batch_request (q ∷ qs) w in
          (fill_forwarded reqs got slots, w')
    ]

    unfoldable pub batch_responses : Router W → ForwardHandler W → List Request → W → Slots × W
    unfolding sign_indices sign_loop forward_pass
    batch_responses r fwd reqs w =
        let (slots, w') = sign_loop r reqs (sign_indices 0 reqs) (replicate (length reqs) none) w in
        forward_pass fwd reqs slots w'

    -- What is written: an error for an empty batch, or the responses in the order of the requests.
    unfoldable pub handle_batch_with_forwarding :
        Router W → ForwardHandler W → List Request → W → Value × W
    unfolding batch_responses new_error_response marshal_responses marshal_response
    handle_batch_with_forwarding r fwd [] w =
        (marshal_response (new_error_response null invalid_request_error), w)
    handle_batch_with_forwarding r fwd (q ∷ qs) w =
        let (slots, w') = batch_responses r fwd (q ∷ qs) w in (marshal_responses slots, w')
