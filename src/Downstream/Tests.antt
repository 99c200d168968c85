-- ===== src/Downstream/Tests.antt =====
-- Replies of the node at concrete batches.
use web3signer_go.Base.{
  length, pos, equal_fold, ok, err, ℕ, suc, ◌≡◌, refl, true, none, some, List, [], ◌∷◌, map, arith,
}
use web3signer_go.Errors.Types.{plain}
use web3signer_go.Errors.Downstream.{batch_size_mismatch_error}
use web3signer_go.Jsonrpc.Value.{Value, null, int, str, arr, of_items}
use web3signer_go.Jsonrpc.Interface.{as_interface}
use web3signer_go.Jsonrpc.Interface.Laws.{IsHeld}
use web3signer_go.Jsonrpc.Types.{Request, Response, marshal_response}
use web3signer_go.Downstream.Wire.{decode_response, decode_responses}
use web3signer_go.Downstream.Wire.Laws.{decode-marshal_response}
use web3signer_go.Downstream.Client.{
  Body, replied, Transport, with_ids, with_id, parse_responses, perform_http_request,
  forward_batch_request,
}
use web3signer_go.Downstream.Client.Laws.{
  Answered, forward_batch_request_sound, forward_batch_request-answered,
  forward_batch_request-mismatch,
}

abbrev pub query : Value → Request
query id = record { jsonrpc = "2.0"; method = "eth_blockNumber"; params = none; id = id }

abbrev pub block : Value → Response
block id = record { jsonrpc = "2.0"; result = some (str "0x10"); error = none; id = id }

abbrev queries : List Request
queries = query (int (pos 1)) ∷ query (int (pos 2)) ∷ []

-- The second response has no id.
abbrev blocks : List Response
blocks = block (int (pos 1)) ∷ block null ∷ []

abbrev batch_body : List Response → Body
batch_body rs = record {
  excerpt = "";
  read_error = none;
  first = none;
  whole = some (arr (of_items (map marshal_response rs)));
}

-- Every post is answered with these responses, and counted.
abbrev node : List Response → Transport ℕ
node rs = record {
  url_error = (λ url. none);
  post = (λ url v n. (replied 200 (batch_body rs), suc n));
  decode_failure = (λ v. plain "bad JSON");
}

decode-marshal_response_example :
    decode_response true (marshal_response (block (int (pos 1)))) ≡ some (block (int (pos 1)))
unfolding IsHeld
decode-marshal_response_example =
    decode-marshal_response true (block (int (pos 1))) tt tt (omega arith)

forward_batch_request-answered_example :
    forward_batch_request (node blocks) "http://node" queries 0 ≡ (ok (with_ids queries blocks), 1)
unfolding IsHeld
forward_batch_request-answered_example =
    forward_batch_request-answered (node blocks) "http://node" queries blocks 0 1
      (batch_body blocks) refl refl refl refl ((tt, tt, omega arith), ((tt, tt, tt), tt)) refl

forward_batch_request_sound_example :
    (body : Body) × (raw : List Response) × (replied 200 (batch_body blocks) ≡ replied 200 body)
    × (parse_responses body.whole ≡ some raw)
    × (length raw ≡ 2)
    × (with_ids queries blocks ≡ with_ids queries raw)
    × Answered queries (with_ids queries blocks)
unfolding forward_batch_request perform_http_request parse_responses with_id marshal_response
    decode_response decode_responses equal_fold as_interface
forward_batch_request_sound_example =
    forward_batch_request_sound (node blocks) "http://node" queries 0 (with_ids queries blocks) refl

forward_batch_request-mismatch_example :
    forward_batch_request (node (block null ∷ [])) "http://node" queries 0
    ≡ (err (batch_size_mismatch_error 2 1), 1)
unfolding as_interface
forward_batch_request-mismatch_example =
    forward_batch_request-mismatch (node (block null ∷ [])) "http://node" queries (block null ∷ [])
      0 1 (batch_body (block null ∷ [])) refl refl refl refl (tt, tt) ((block null, refl), tt)
      (λ e. omega arith)
