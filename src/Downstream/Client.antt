-- ===== src/Downstream/Client.antt =====
-- internal/downstream/client.go: one request, or a batch, posted to the node. `W` is the state of
-- the world that a post may change; warnings in the log are left out.
pub mod Laws
use web3signer_go.Base.{
  ◌==◌, if◌then◌else◌, length, all, pos, ◌+++◌, show_ℕ, Result, ok, err, ◌>>=◌, ℕ, String, true,
  false, Option, none, some, List, [], ◌∷◌, map,
}
use web3signer_go.Jsonrpc.Value.{Value, null, int, arr, of_items}
use web3signer_go.Jsonrpc.Types.{Request, Response, marshal_request}
use web3signer_go.Errors.Types.{GoError, plain, request_failed, invalid_response, error_text}
use web3signer_go.Errors.Downstream.{
  wrapped, connection_error, request_error, invalid_response_error, batch_size_mismatch_error,
}
use web3signer_go.Downstream.Wire.{decode_response, decode_responses}

-- A response body: what a limited read of it gives as text, whether reading all of it fails, the
-- JSON value that it starts with and the one that all of it spells, where there is one.
pub record Body : Type 0 where
  pub excerpt : String
  pub read_error : Option GoError
  pub first : Option Value
  pub whole : Option Value

pub data Reply : Type 0 where
  unreachable : GoError → Reply
  replied : ℕ → Body → Reply

-- net/http, and the messages of net/http and encoding/json.
pub record Transport (W : Type 0) : Type 0 where
  pub url_error : String → Option GoError
  pub post : String → Value → W → Reply × W
  pub decode_failure : Option Value → GoError

-- internal/downstream/interface.go: ClientInterface.
pub record DownstreamClient (W : Type 0) : Type 0 where
  pub forward_request : Request → W → Result GoError Response × W
  pub forward_batch_request : List Request → W → Result GoError (List Response) × W
  pub endpoint : String

abbrev check_status : Reply → Result GoError Body
check_status (unreachable e) = err (connection_error e)
check_status (replied status body) =
    if status == 200
    then ok body
    else err (
        request_error (
          plain (
            "downstream service returned status " +++ (show_ℕ status +++ (": " +++ body.excerpt)))))

-- The id of a response that has none is that of its request.
unfoldable pub with_id : Value → Response → Response
with_id null r = r
with_id v r = elim r.id [ null ↦ record r { id = v } | _ ↦ r ]

abbrev pub with_ids : List Request → List Response → List Response
with_ids (q ∷ qs) (r ∷ rs) = with_id q.id r ∷ with_ids qs rs
with_ids qs [] = []
with_ids [] (r ∷ rs) = r ∷ rs

abbrev read_all : Body → Result GoError (Option Value)
read_all body = elim body.read_error [
  | none ↦ ok body.whole
  | some e ↦ err (wrapped e invalid_response "failed to read response body")
]

abbrev one_response : Option Response → Option (List Response)
one_response none = none
one_response (some r) = some (r ∷ [])

-- The array, or else the single response.
unfoldable pub parse_responses : Option Value → Option (List Response)
parse_responses none = none
parse_responses (some v) = elim (decode_responses v) [
  | none ↦ one_response (decode_response false v)
  | some rs ↦ some rs
]

module _ {W : Type 0} (t : Transport W) (url : String) where
  unfoldable pub perform_http_request : Value → W → Result GoError Body × W
  perform_http_request content w = elim (t.url_error url) [
    | some e ↦ (err (wrapped e request_failed "failed to create HTTP request"), w)
    | none ↦ let (reply, w') = t.post url content w in (check_status reply, w')
  ]

  abbrev decode_body : Request → Body → Result GoError Response
  decode_body req body = elim body.first [
    | none ↦ err (invalid_response_error (t.decode_failure none))
    | some v ↦ elim (decode_response true v) [
      | none ↦ err (invalid_response_error (t.decode_failure (some v)))
      | some r ↦ ok (with_id req.id r)
    ]
  ]

  unfoldable pub forward_request : Request → W → Result GoError Response × W
  unfolding perform_http_request with_id
  forward_request req w =
      let (got, w') = perform_http_request (marshal_request req) w in (got >>= decode_body req, w')

  abbrev match_up : List Request → List Response → Result GoError (List Response)
  match_up reqs rs =
      if length rs == length reqs
      then ok (with_ids reqs rs)
      else err (batch_size_mismatch_error (length reqs) (length rs))

  abbrev decode_batch : List Request → Option Value → Result GoError (List Response)
  decode_batch reqs v = elim (parse_responses v) [
    | none ↦ err (invalid_response_error (t.decode_failure v))
    | some rs ↦ match_up reqs rs
  ]

  unfoldable pub forward_batch_request : List Request → W → Result GoError (List Response) × W
  unfolding perform_http_request parse_responses with_id
  forward_batch_request reqs w =
      let (got, w') = perform_http_request (arr (of_items (map marshal_request reqs))) w in
      (got >>= read_all >>= decode_batch reqs, w')

  unfoldable pub test_connection : (Value → String) → W → Result GoError (Unit {0}) × W
  unfolding forward_request
  test_connection fmt_v w =
      let (got, w') =
        forward_request
          (record {
            jsonrpc = "2.0";
            method = "web3_clientVersion";
            params = none;
            id = int (pos 1);
          })
          w in
      (
        elim got [
          | ok r ↦ ok tt
          | err e ↦
              err (connection_error (plain ("connection test failed: " +++ error_text fmt_v e)))
        ],
        w',
      )

  unfoldable pub client : DownstreamClient W
  unfolding forward_request forward_batch_request
  client = record {
    forward_request = forward_request;
    forward_batch_request = forward_batch_request;
    endpoint = url;
  }
