-- ===== src/Router/Batch.antt =====
-- internal/router/router.go: RouteBatch, whose goroutines share a channel of indices and the slice
-- of the responses. A step is what one goroutine does between two points where others may act.
pub mod Places
pub mod Invariant
pub mod Safety
pub mod Progress
use web3signer_go.Base.{
  ltb, leb, ◌==◌, if◌then◌else◌, length, get_elem?, set, replicate, All, ℕ, ◌+◌, ◌<◌, min, ◌≡◌,
  ◌+++◌, show_ℕ, Bool, true, false, Option, none, some, List, [], ◌∷◌, ◌++◌, map, neg,
}
use web3signer_go.Jsonrpc.Value.{Value, null, str}
use web3signer_go.Jsonrpc.Codes.{code_invalid_params, invalid_request_error, new_server_error}
use web3signer_go.Jsonrpc.Types.{Request, Response, new_error_response}
use web3signer_go.Router.Node.{Libraries}
use web3signer_go.Router.Table.{Router, route}
use web3signer_go.Router.Http.{max_batch_size, batch_limit_response}

abbrev pub default_batch_worker_count : ℕ
default_batch_worker_count = 50

-- A worker waits at `range taskCh`, has received an index and not yet looked at the context, is
-- routing the request at an index, or has left its loop.
pub data Worker : Type 0 where
  waiting : Worker
  received : ℕ → Worker
  routing : ℕ → Worker
  stopped : Worker

-- What the goroutines share: `fed` is the loop variable of the feeder, `closed` says that it has
-- closed the channel, and `cancelled` that ctx.Err() is not nil.
pub record Pool (W : Type 0) : Type 0 where
  pub responses : List (Option Response)
  pub fed : ℕ
  pub closed : Bool
  pub channel : List ℕ
  pub workers : List Worker
  pub cancelled : Bool
  pub world : W

-- What a batch is answered with where no goroutine is started.
unfoldable pub refusal : List Request → Option (List Response)
unfolding new_error_response
refusal reqs =
    if length reqs == 0
    then some (new_error_response null invalid_request_error ∷ [])
    else if ltb max_batch_size (length reqs)
    then some (batch_limit_response ∷ [])
    else none

-- The response where routing panics.
unfoldable pub processing_failed : Value → Response
unfolding new_error_response new_server_error
processing_failed id =
    new_error_response id (new_server_error (neg 32603) "Internal error" (str "Processing failed"))

unfoldable pub worker_count : List Request → ℕ
worker_count reqs =
    if ltb (length reqs) default_batch_worker_count then length reqs else default_batch_worker_count

unfoldable pub start_pool : {W : Type 0} → Bool → List Request → W → Pool W
unfolding worker_count
start_pool cancelled reqs w = record {
  responses = replicate (length reqs) none;
  fed = 0;
  closed = false;
  channel = [];
  workers = replicate (worker_count reqs) waiting;
  cancelled = cancelled;
  world = w;
}

module _ {W : Type 0} where
  -- `taskCh <- i`: the channel has room for every index.
  unfoldable pub feed : Pool W → Pool W
  feed s = record s { channel = s.channel ++ s.fed ∷ []; fed = s.fed + 1 }

  unfoldable pub become : ℕ → Worker → Pool W → Pool W
  become k worker s = record s { workers = set s.workers k worker }

  unfoldable pub receive : ℕ → ℕ → List ℕ → Pool W → Pool W
  receive k i rest s = record s { channel = rest; workers = set s.workers k (received i) }

  -- `responses[idx] = …`, after which the worker goes back to the channel.
  unfoldable pub respond : ℕ → ℕ → Response → W → Pool W → Pool W
  respond k i resp w s = record s {
    responses = set s.responses i (some resp);
    workers = set s.workers k waiting;
    world = w;
  }

module _ (libs : Libraries) {W : Type 0} (r : Router W) (reqs : List Request) where
  -- The steps of the feeder, of worker `k`, and of whoever cancels the context. Routing takes one
  -- step, from the world that it finds; a handler that panics may have left any world.
  pub data Step (s t : Pool W) : Type 0 where
    feeds : s.fed < length reqs → t ≡ feed s → Step s t
    closes : s.fed ≡ length reqs → s.closed ≡ false → t ≡ record s { closed = true } → Step s t
    receives :
        (k i : ℕ) (rest : List ℕ)
        → get_elem? s.workers k ≡ some waiting
        → s.channel ≡ i ∷ rest
        → t ≡ receive k i rest s
        → Step s t
    ends :
        (k : ℕ)
        → get_elem? s.workers k ≡ some waiting
        → s.channel ≡ []
        → s.closed ≡ true
        → t ≡ become k stopped s
        → Step s t
    breaks :
        (k i : ℕ)
        → get_elem? s.workers k ≡ some (received i)
        → s.cancelled ≡ true
        → t ≡ become k stopped s
        → Step s t
    begins :
        (k i : ℕ)
        → get_elem? s.workers k ≡ some (received i)
        → s.cancelled ≡ false
        → t ≡ become k (routing i) s
        → Step s t
    routes :
        (k i : ℕ) (req : Request)
        → get_elem? s.workers k ≡ some (routing i)
        → get_elem? reqs i ≡ some req
        → t ≡ respond k i (route libs r (some req) s.world).0 (route libs r (some req) s.world).1 s
        → Step s t
    panics :
        (k i : ℕ) (req : Request) (w : W)
        → get_elem? s.workers k ≡ some (routing i)
        → get_elem? reqs i ≡ some req
        → t ≡ respond k i (processing_failed req.id) w s
        → Step s t
    cancels : s.cancelled ≡ false → t ≡ record s { cancelled = true } → Step s t

  pub data Run (s : Pool W) : Pool W → Type 0 where
    here : Run s s
    next : {t u : Pool W} → Run s t → Step t u → Run s u

  -- wg.Wait returns.
  abbrev pub IsFinal : Pool W → Type 0
  IsFinal s = (s.closed ≡ true) × All (λ worker. worker ≡ stopped) s.workers

  -- A call of RouteBatch with the responses that it may return, and whether the context is
  -- cancelled when it does.
  pub data RouteBatch (cancelled : Bool) (w : W) (end : Pool W) : Type 0 where
    refused :
        (resps : List Response)
        → refusal reqs ≡ some resps
        → end.responses ≡ map some resps
        → end.world ≡ w
        → RouteBatch cancelled w end
    pooled :
        refusal reqs ≡ none
        → Run (start_pool cancelled reqs w) end
        → IsFinal end
        → RouteBatch cancelled w end
