-- ===== src/Router/Http/Laws.antt =====
-- What an HTTP request is answered with.
use web3signer_go.Base.{length, ok, err, ◌≤◌, ◌<◌, ◌≡◌, ◌⊎◌, true, false, some, List, [], ◌∷◌, map}
use web3signer_go.Jsonrpc.Value.{Value, null}
use web3signer_go.Jsonrpc.Codes.{parse_error}
use web3signer_go.Jsonrpc.Parse.{parse_request, ParseError}
use web3signer_go.Jsonrpc.Types.{
  Request, Response, jsonrpc_version, new_error_response, marshal_response, marshal_responses,
}
use web3signer_go.Router.Node.{Libraries}
use web3signer_go.Router.Table.{Router}
use web3signer_go.Router.Http.{
  HttpReply, HttpBody, max_batch_size, batch_limit_response, too_large, okay,
}

-- Responses that belong to the requests, in their order.
abbrev pub Answers : List Request → List Response → Type 0
Answers [] [] = Unit {0}
Answers (q ∷ qs) (r ∷ rs) = (r.id ≡ q.id) × (r.jsonrpc ≡ jsonrpc_version) × Answers qs rs
Answers _ _ = ⊥

module _ (libs : Libraries) {W : Type 0} where
  -- What comes of a body that is read.
  abbrev pub Parsed : HttpBody → W → HttpReply × W → Type 0
  Parsed body w reply =
      ((e : ParseError) × (parse_request body.document ≡ err e)
        × (reply ≡ (okay (marshal_response (new_error_response null parse_error)), w)))
      ⊎ ((reqs : List Request) × (parse_request body.document ≡ ok reqs)
          × (max_batch_size < length reqs)
          × (reply ≡ (okay (marshal_response batch_limit_response), w)))
      ⊎ ((reqs : List Request) × (rs : List Response) × (w' : W) × (parse_request body.document
            ≡ ok reqs)
          × (length reqs ≤ max_batch_size)
          × (reply ≡ (okay (marshal_responses (map some rs)), w'))
          × Answers reqs rs)

  -- What comes of a body: it is refused where it is too large or cut off, and only there.
  abbrev pub Replied : Router W → HttpBody → W → HttpReply × W → Type 0
  Replied r body w reply =
      (((r.max_request_size < body.size) ⊎ (body.broken ≡ true)) × (reply ≡ (too_large, w)))
      ⊎ ((body.size ≤ r.max_request_size) × (body.broken ≡ false) × Parsed body w reply)
