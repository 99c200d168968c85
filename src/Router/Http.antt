-- ===== src/Router/Http.antt =====
-- internal/router/router.go: an HTTP request with a body, from reading it to what is written.
pub mod Laws
use web3signer_go.Base.{
  ltb, if◌then◌else◌, length, str_eq, ◌+++◌, bytes, show_ℕ, ok, err, ℕ, String, Bool, ◌||◌, Option,
  none, some, List, [], ◌∷◌, map,
}
use web3signer_go.Jsonrpc.Value.{Value, null, int, str, obj, end, field}
use web3signer_go.Jsonrpc.Codes.{parse_error, new_server_error, code_invalid_params}
use web3signer_go.Jsonrpc.Types.{
  Request, Response, new_error_response, marshal_response, marshal_responses,
}
use web3signer_go.Jsonrpc.Parse.{parse_request}
use web3signer_go.Router.Node.{Libraries}
use web3signer_go.Router.ForwardHandler.{ForwardHandler}
use web3signer_go.Router.Table.{Handler, forwards, Router, route_request}
use web3signer_go.Router.Forwarding.{handle_batch_with_forwarding}

-- A request body: its length in bytes, whether reading it fails, and the JSON value that it spells,
-- where there is one.
pub record HttpBody : Type 0 where
  pub size : ℕ
  pub broken : Bool
  pub document : Option Value

-- What is written, with the content type application/json.
pub record HttpReply : Type 0 where
  pub status : ℕ
  pub content : Value

abbrev pub max_batch_size : ℕ
max_batch_size = 100

abbrev pub batch_limit_response : Response
batch_limit_response = new_error_response null (
    new_server_error code_invalid_params "Invalid params"
      (str ("Batch size exceeds maximum limit of " +++ show_ℕ max_batch_size)))

abbrev pub too_large : HttpReply
too_large = record {
  status = 413;
  content = obj (
      field "jsonrpc" (str "2.0") (
        field "error"
          (obj (
            field "code" (int code_invalid_params)
              (field "message" (str "Request entity too large") end)))
          (field "id" null end)));
}

abbrev pub okay : Value → HttpReply
okay v = record { status = 200; content = v }

-- The default handler, where its dynamic type is *ForwardHandler.
unfoldable pub as_forward_handler : {W : Type 0} → Option (Handler W) → Option (ForwardHandler W)
as_forward_handler (some (forwards h)) = some h
as_forward_handler _ = none

module _ (libs : Libraries) {W : Type 0} where
  unfoldable pub route_all : Router W → List Request → W → List Response × W
  route_all r [] w = ([], w)
  route_all r (q ∷ qs) w =
      let (resp, w₁) = route_request libs r (some q) w in
      let (rest, w₂) = route_all r qs w₁ in (resp ∷ rest, w₂)

  abbrev answer_requests : Router W → List Request → W → HttpReply × W
  answer_requests r reqs w = elim (as_forward_handler r.default_handler) [
    | some fwd ↦ let (v, w') = handle_batch_with_forwarding libs r fwd reqs w in (okay v, w')
    | none ↦ let (rs, w') = route_all r reqs w in (okay (marshal_responses (map some rs)), w')
  ]

  unfoldable pub parse_and_route : Router W → Option Value → W → HttpReply × W
  unfolding new_error_response new_server_error marshal_response marshal_responses route_all
      as_forward_handler
  parse_and_route r document w = elim (parse_request document) [
    | err e ↦ (okay (marshal_response (new_error_response null parse_error)), w)
    | ok reqs ↦
        if ltb max_batch_size (length reqs)
        then (okay (marshal_response batch_limit_response), w)
        else answer_requests r reqs w
  ]

  -- The log alone depends on the requests that are parsed here first.
  unfoldable pub parse_and_route_simple : Router W → Option Value → W → HttpReply × W
  unfolding parse_and_route
  parse_and_route_simple r document w = elim (parse_request document) [
    | err e ↦ parse_and_route r document w
    | ok reqs ↦ parse_and_route r document w
  ]

  -- http.MaxBytesReader fails beyond the limit.
  unfoldable pub read_and_route :
      (Router W → Option Value → W → HttpReply × W) → Router W → HttpBody → W → HttpReply × W
  read_and_route route_body r body w =
      if ltb r.max_request_size body.size || body.broken
      then (too_large, w)
      else route_body r body.document w

  -- OPTIONS and every other method, each with its branch.
  unfoldable pub handle_http_request_with_context : Router W → String → HttpBody → W → HttpReply × W
  unfolding read_and_route parse_and_route
  handle_http_request_with_context r method body w =
      if str_eq method "OPTIONS"
      then read_and_route parse_and_route r body w
      else read_and_route parse_and_route r body w

  unfoldable pub handle_http_request : Router W → String → HttpBody → W → HttpReply × W
  unfolding read_and_route parse_and_route_simple
  handle_http_request r method body w =
      if str_eq method "OPTIONS"
      then read_and_route parse_and_route_simple r body w
      else read_and_route parse_and_route_simple r body w
