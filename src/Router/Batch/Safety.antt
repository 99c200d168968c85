-- ===== src/Router/Batch/Safety.antt =====
-- What RouteBatch returns, and how often a request is routed.
use web3signer_go.Base.{
  get_elem?-All, lt_of_get_elem?, subst, length, get_elem?, ℕ, ◌+◌, ◌≤◌, ◌<◌, ◌≡◌, ◌⊎◌, ◌↔◌, inr,
  Bool, false, some, List, [], ◌∷◌, arith, get_elem?_of_lt,
}
use web3signer_go.Jsonrpc.Value.{null}
use web3signer_go.Jsonrpc.Codes.{invalid_request_error}
use web3signer_go.Jsonrpc.Types.{Request, Response, new_error_response}
use web3signer_go.Router.Node.{Libraries}
use web3signer_go.Router.Table.{Router}
use web3signer_go.Router.Http.{max_batch_size, batch_limit_response}
use web3signer_go.Router.Batch.{
  routing, Pool, stopped, refusal, worker_count, start_pool, feed, become, receive, respond, Step,
  feeds, closes, receives, ends, breaks, begins, routes, panics, cancels, Run, here, next, IsFinal,
  RouteBatch, refused, pooled,
}
use web3signer_go.Router.Batch.Places.{
  filled-none, one_if, filled, queued, holds-le-held, held-stopped, filled-set, is_filled_iff,
}
use web3signer_go.Router.Batch.Invariant.{Answered, Inv, start-Inv, Run-Inv}

module _ (libs : Libraries) {W : Type 0} (r : Router W) (reqs : List Request) where
  -- How often a run has routed the request at an index, panics included.
  abbrev routed : {s t : Pool W} → ℕ → Step libs r reqs s t → ℕ
  routed i (feeds lt e) = 0
  routed i (closes all c e) = 0
  routed i (receives k j rest p q e) = 0
  routed i (ends k p q c e) = 0
  routed i (breaks k j p c e) = 0
  routed i (begins k j p c e) = 0
  routed i (routes k j req p q e) = one_if i j
  routed i (panics k j req w p q e) = one_if i j
  routed i (cancels c e) = 0

  abbrev pub routings : {s t : Pool W} → ℕ → Run libs r reqs s t → ℕ
  routings i here = 0
  routings i (next run step) = routings i run + routed i step

  filled-respond :
      (s : Pool W) (k j : ℕ) (req : Request) (resp : Response) (w : W) (i : ℕ)
      → get_elem? s.workers k ≡ some (routing j)
      → get_elem? reqs j ≡ some req
      → Inv libs r reqs s
      → filled i (respond k j resp w s).responses ≡ filled i s.responses + one_if i j
  unfolding respond
  filled-respond s k j req resp w i p q v = ground (
    arith,
    v.once j,
    v.shape,
    lt_of_get_elem? reqs j q,
    holds-le-held j s.workers k p,
    filled-set i j s.responses resp (omega (arith, v.shape, lt_of_get_elem? reqs j q)),
  )

  filled-Step :
      {s t : Pool W} (i : ℕ) (step : Step libs r reqs s t)
      → Inv libs r reqs s
      → filled i t.responses ≡ filled i s.responses + routed i step
  unfolding feed become receive
  filled-Step i (feeds lt e) v = rw e (omega arith)
  filled-Step i (closes all c e) v = rw e (omega arith)
  filled-Step i (receives k j rest p q e) v = rw e (omega arith)
  filled-Step i (ends k p q c e) v = rw e (omega arith)
  filled-Step i (breaks k j p c e) v = rw e (omega arith)
  filled-Step i (begins k j p c e) v = rw e (omega arith)
  filled-Step {s} i (routes k j req p q e) v = rw e (filled-respond s k j req _ _ i p q v)
  filled-Step {s} i (panics k j req w p q e) v = rw e (filled-respond s k j req _ w i p q v)
  filled-Step i (cancels c e) v = rw e (omega arith)

  routings-filled :
      {s t : Pool W} (i : ℕ) (run : Run libs r reqs s t)
      → Inv libs r reqs s
      → filled i t.responses ≡ filled i s.responses + routings i run
  routings-filled i here v = omega arith
  routings-filled i (next run step) v =
      omega (arith, routings-filled i run v, filled-Step i step (Run-Inv libs r reqs run v))

  -- In every run of the goroutines of RouteBatch the request at an index is routed at most
  -- once, and once exactly where the index has a response.
  pub route_batch_once :
      (cancelled : Bool) (w : W) {t : Pool W}
      (run : Run libs r reqs (start_pool cancelled reqs w) t) (i : ℕ)
      → (routings i run ≤ 1)
        × ((routings i run ≡ 1)
            ↔ ((resp : Response) × (get_elem? t.responses i ≡ some (some resp))))
  unfolding start_pool
  route_batch_once cancelled w {t} run i = (
    omega (arith, counted, (Run-Inv libs r reqs run (start-Inv libs r reqs cancelled w)).once i),
    (
      (λ e. is_filled_iff (get_elem? t.responses i) (omega (arith, counted))),
      (λ (resp, e). ground (arith, counted)),
    ),
  )
    where
      counted : filled i t.responses ≡ routings i run
      counted = omega (
        arith,
        filled-none i (length reqs),
        routings-filled i run (start-Inv libs r reqs cancelled w),
      )

  -- What a call may return: the world is where the responses stand.
  abbrev pub Batched : Bool → W → Pool W → Type 0
  Batched cancelled w end =
      ((length reqs ≡ 0)
        × (end.responses ≡ some (new_error_response null invalid_request_error) ∷ [])
        × (end.world ≡ w))
      ⊎ ((max_batch_size < length reqs)
          × (end.responses ≡ some batch_limit_response ∷ [])
          × (end.world ≡ w))
      ⊎ ((0 < length reqs)
          × (length reqs ≤ max_batch_size)
          × (length end.responses ≡ length reqs)
          × ((i : ℕ) (resp : Response)
              → get_elem? end.responses i ≡ some (some resp)
              → Answered libs r reqs i resp)
          × (end.cancelled ≡ false
              → (i : ℕ) → i < length reqs
              → (resp : Response) × (get_elem? end.responses i ≡ some (some resp))))

  worker_count-pos : 0 < length reqs → 0 < worker_count reqs
  unfolding worker_count
  worker_count-pos h = ground arith

  final-filled :
      (t : Pool W) (i : ℕ)
      → Inv libs r reqs t
      → IsFinal libs r reqs t
      → 0 < length reqs
      → t.cancelled ≡ false
      → i < length reqs
      → filled i t.responses ≡ 1
  unfolding queued
  final-filled t i v done some_reqs c lt =
      let (worker, at) =
        get_elem?_of_lt t.workers 0 (omega (arith, v.crew, worker_count-pos some_reqs)) in
      let last =
        subst (λ x. get_elem? t.workers 0 ≡ some x)
          (get_elem?-All (λ x. x ≡ stopped) t.workers 0 done.1 at) at in
      ground (
        arith,
        v.kept c i,
        held-stopped i t.workers done.1,
        v.fed_all done.0,
        (v.drained c 0 last).1,
      )

  -- Whatever the interleaving of its goroutines, RouteBatch returns for no request the
  -- invalid-request error, for more than 100 the batch error, neither with an effect on the
  -- world, and otherwise a slice with a place for each request in which every response is what
  -- routing the request of its place gives in some world, or the processing-failed error with
  -- its id; unless the context is cancelled at the end, every place has a response.
  pub RouteBatch-sound :
      (cancelled : Bool) (w : W) (end : Pool W)
      → RouteBatch libs r reqs cancelled w end
      → Batched cancelled w end
  unfolding refusal
  RouteBatch-sound cancelled w end (refused resps e p q) = ground arith
  RouteBatch-sound cancelled w end (pooled e run done) = inr (
      inr (
        ground arith,
        ground arith,
        v.shape,
        v.sound,
        (λ c i lt.
            is_filled_iff (get_elem? end.responses i)
              (final-filled end i v done (ground arith) c lt)),
      ))
    where
      v : Inv libs r reqs end
      v = Run-Inv libs r reqs run (start-Inv libs r reqs cancelled w)
