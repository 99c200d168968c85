-- ===== src/Router/Tests.antt =====
-- The router and its handlers at concrete requests. The world counts what is asked of others.
mod Requests
mod Batches
mod Pools
use web3signer_go.Base.{
  ◌==◌, if◌then◌else◌, replicate, ℤ, pos, ◌+++◌, ok, err, ℕ, suc, String, ◌≡◌, ◌≢◌, ◌⊎◌, Option,
  none, some, List, [], ◌∷◌, arith,
}
use web3signer_go.Errors.Types.{plain}
use web3signer_go.Jsonrpc.Value.{Value, null, int, str, arr, obj, end, field, cons, nil}
use web3signer_go.Jsonrpc.Types.{Request}
use web3signer_go.Utils.{hex_encode}
use web3signer_go.Downstream.Client.{DownstreamClient}
use web3signer_go.Signer.Transaction.{Transaction, zero_transaction, dynamic_fee}
use web3signer_go.Signer.MultiKey.{Key}
use web3signer_go.Signer.Tests.{sample_json, sample_ethgo, sample_messages, sample_address}
use web3signer_go.Router.Node.{Libraries, EthNode, fill_gas_price}
use web3signer_go.Router.SignHandler.{SignHandler, is_sign_method}
use web3signer_go.Router.SignHandler.Fees.{Filled, fill_gas_price_lem}
use web3signer_go.Router.Table.{Handler, wraps, forwards, other, Router, select_handler}
use web3signer_go.Router.Table.Laws.{Change, registers, defaults, unregisters}
use web3signer_go.Router.Factory.{create_router}
use web3signer_go.Router.Factory.Laws.{sign_handler, create_router-select}

abbrev pub libs : Libraries
libs = record {
  fastjson = sample_json;
  ethgo = sample_ethgo;
  messages = sample_messages;
  fmt_v = (λ v. "");
  transaction_json = (λ tx. null);
  marshal_rlp = (λ tx. ok (1 ∷ 2 ∷ []));
}

abbrev pub key : Key ℕ
key = record {
  address = sample_address;
  sign = (λ content n. (ok (replicate 65 1), suc n));
  sign_transaction = (λ tx n. (ok tx, suc n));
}

abbrev pub node : DownstreamClient ℕ
node = record {
  forward_request = (λ req n. (
    ok (record { jsonrpc = "2.0"; result = some (str "0xab"); error = none; id = req.id }),
    suc n,
  ));
  forward_batch_request = (λ reqs n. (err (plain "unused"), n));
  endpoint = "http://node";
}

abbrev pub eth_node : EthNode ℕ
eth_node = record {
  get_nonce = (λ a n. (ok 5, suc n));
  gas_price = (λ n. (ok 100, suc n));
  estimate_gas = (λ m n. (ok 21000, suc n));
}

abbrev handler : SignHandler ℕ
handler = record { signer = key; client = node; downstream_rpc = eth_node }

abbrev call : String → Value → Request
call method params = record {
  jsonrpc = "2.0";
  method = method;
  params = some params;
  id = int (pos 1);
}

abbrev own_text : String
own_text = "0x0000000000000000000000000000000000000001"

abbrev pub sign_call : Request
sign_call =
    call "eth_sign"
      (arr (cons (str own_text) (cons (str ("0x" +++ hex_encode (replicate 32 7))) nil)))

abbrev pub transaction_call : Request
transaction_call =
    call "eth_signTransaction"
      (arr (cons (obj (field "gas" (str "0x0") (field "from" (str own_text) end))) nil))

abbrev send_call : Request
send_call =
    call "eth_sendTransaction"
      (arr (cons (obj (field "gas" (str "0x0") (field "from" (str own_text) end))) nil))

abbrev typed : Transaction
typed = record zero_transaction { kind = dynamic_fee; max_fee_per_gas = some (pos 7) }

fill_gas_price_lem_example :
    ((dynamic_fee ≡ dynamic_fee)
      × (fee : Option ℤ) × (tip : Option ℤ) × (fill_gas_price 100 typed
          ≡ record typed { max_fee_per_gas = fee; max_priority_fee_per_gas = tip })
      × Filled 100 (some (pos 7)) fee
      × Filled 100 none tip)
    ⊎ ((dynamic_fee ≢ dynamic_fee)
        × (fill_gas_price 100 typed
            ≡ record typed { gas_price = if typed.gas_price == 0 then 100 else typed.gas_price }))
fill_gas_price_lem_example = fill_gas_price_lem 100 typed (omega arith) (omega arith)

create_router-select_example :
    select_handler "eth_sign" (create_router 1000 key node eth_node)
    ≡ some (
        if is_sign_method "eth_sign"
        then wraps (sign_handler 1000 key node eth_node) "eth_sign"
        else wraps (forwards (record { client = node })) "forward_handler")
create_router-select_example = create_router-select 1000 key node eth_node "eth_sign"

abbrev custom : Handler ℕ
custom = other "net_version" (λ req n. (ok none, n))

abbrev edits : List (Change ℕ)
edits = registers custom ∷ registers custom ∷ unregisters "net_version" ∷ defaults custom ∷ []

abbrev empty : Router ℕ
empty = record { handlers = []; default_handler = none; max_request_size = 1000 }

abbrev with_custom : Router ℕ
with_custom = record empty { handlers = ("net_version", custom) ∷ [] }

abbrev net_version : String
net_version = "net_version"
