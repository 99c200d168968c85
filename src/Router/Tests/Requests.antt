-- ===== src/Router/Tests/Requests.antt =====
-- Requests to the signing methods and over HTTP.
use web3signer_go.Base.{
  pos, bytes, equal_fold, is_prefix, has_prefix, ℕ, ◌≡◌, refl, false, none, some, [], ◌∷◌, map,
  arith,
}
use web3signer_go.Jsonrpc.Value.{Value, int, str, obj, end, field}
use web3signer_go.Jsonrpc.Interface.{as_interface}
use web3signer_go.Jsonrpc.Types.{Request, Response, marshal_responses}
use web3signer_go.Jsonrpc.Parse.{parse_request}
use web3signer_go.Utils.{hex_encode, is_valid_eth_address, hex_number, is_hex_digit, hex_char}
use web3signer_go.Signer.Params.{
  parse_transaction, unmarshal_json, unmarshal_fields, decode_gas, decode_input, decode_value,
  decode_nonce, decode_to, decode_from, decode_fees, decode_access,
}
use web3signer_go.Signer.Decode.{
  decode_uint, strip_0x, trim_quotes, parse_uint, decode_bytes, decode_big_int_optional, parse_big,
  decode_uint_optional, decode_addr, decode_big_int, is_key_set, unmarshal_access_list,
}
use web3signer_go.Base.Dict.{lookup}
use web3signer_go.Router.Node.{fill_gas_price, is_unset, call_msg, with_margin}
use web3signer_go.Router.SignHandler.{
  validate_request, sender_checked, fetch_nonce, fetch_gas_price, estimate_gas_if_needed,
  sign_prepared, forward_transaction, handle_eth_send_transaction,
}
use web3signer_go.Router.SignHandler.Sending.{Sent, handle_eth_send_transaction_sound}
use web3signer_go.Router.Table.{Router}
use web3signer_go.Router.Http.{HttpBody, okay, parse_and_route, route_all}
use web3signer_go.Router.Factory.{create_router}
use web3signer_go.Router.Factory.Laws.{create_router-one_by_one}
use web3signer_go.Router.Tests.{libs, key, node, eth_node, handler, send_call}

abbrev sent_response : Response
sent_response = record {
  jsonrpc = "2.0";
  result = some (str "0xab");
  error = none;
  id = int (pos 1);
}

handle_eth_send_transaction_sound_example : Sent libs handler send_call 0 sent_response 5
unfolding handle_eth_send_transaction validate_request sender_checked fetch_nonce fetch_gas_price
    fill_gas_price is_unset estimate_gas_if_needed call_msg with_margin sign_prepared
    forward_transaction parse_transaction unmarshal_json unmarshal_fields decode_gas decode_input
    decode_value decode_nonce decode_to decode_from decode_fees decode_access decode_uint strip_0x
    trim_quotes parse_uint decode_bytes decode_big_int_optional parse_big decode_uint_optional
    decode_addr decode_big_int is_key_set unmarshal_access_list hex_number is_hex_digit hex_char
    is_valid_eth_address hex_encode lookup bytes equal_fold has_prefix is_prefix
handle_eth_send_transaction_sound_example =
    handle_eth_send_transaction_sound libs handler send_call 0 sent_response 5 refl refl

abbrev document : Value
document = obj (
    field "jsonrpc" (str "2.0")
      (field "method" (str "eth_accounts") (field "id" (int (pos 1)) end)))

abbrev accounts_call : Request
accounts_call = record { jsonrpc = "2.0"; method = "eth_accounts"; params = none; id = int (pos 1) }

abbrev router : Router ℕ
router = create_router 1000 key node eth_node

create_router-one_by_one_example : parse_and_route libs router (some document) 0 ≡ (
  okay (marshal_responses (map some (route_all libs router (accounts_call ∷ []) 0).0)),
  (route_all libs router (accounts_call ∷ []) 0).1,
)
unfolding parse_request equal_fold as_interface
create_router-one_by_one_example =
    create_router-one_by_one 1000 key node eth_node libs (some document) (accounts_call ∷ []) 0 refl
      (omega arith)

abbrev posted : HttpBody
posted = record { size = 60; broken = false; document = some document }
