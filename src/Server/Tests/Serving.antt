-- ===== src/Server/Tests/Serving.antt =====
-- Requests for signatures to a server that is built.
use web3signer_go.Base.{◌∷◌, refl, map, ok, [], bytes, eq_iff, some, ◌≡◌, inr, true, arith, false}
use web3signer_go.Jsonrpc.Interface.Laws.{IsHeld}
use web3signer_go.Jsonrpc.Types.{Request, marshal_request}
use web3signer_go.Jsonrpc.Parse.Laws.{IsValid, parse-marshal}
use web3signer_go.Router.Tests.{sign_call}
use web3signer_go.Config.Tests.{sample}
use web3signer_go.Server.Auth.{auth_middleware}
use web3signer_go.Server.Auth.Laws.{auth_middleware_iff}
use web3signer_go.Server.Engine.{WebRequest, auth_request}
use web3signer_go.Server.Engine.Laws.{Passes}
use web3signer_go.Base.Dict.{lookup, insert}
use web3signer_go.Utils.{is_valid_eth_address}
use web3signer_go.Signer.MultiKey.{add_client}
use web3signer_go.Config.Whole.{validate}
use web3signer_go.Config.{http_defaults}
use web3signer_go.Server.Builder.{max_request_size, assemble, build}
use web3signer_go.Server.Builder.Serving.{Carries, SignedOrRefused, build-eth_sign}
use web3signer_go.Server.Tests.Engines.{gin, documented, post, outside, checked_sample, built}

abbrev posting : Request → WebRequest
posting q = record post {
  body = record { size = 200; broken = false; document = some (marshal_request q) };
}

sign_call-IsValid : IsValid sign_call
sign_call-IsValid = record {
  version = refl;
  named = (λ e. ground (arith, eq_iff "eth_sign" ""));
  id = tt;
}

posting-Passes : (q : Request) → Passes "f" checked_sample (posting q)
unfolding auth_middleware bytes
posting-Passes q =
    (auth_middleware_iff true (bytes "k") (map bytes ("/health" ∷ [])) (auth_request (posting q))).0
      refl

posting-Carries :
    (q : Request)
    → IsValid q
    → IsHeld q.id
    → Carries outside gin documented "f" checked_sample (posting q) q
unfolding max_request_size http_defaults
posting-Carries q valid held = record {
  is_post = refl;
  is_root = refl;
  passes = posting-Passes q;
  secure = inr refl;
  fits = omega arith;
  whole = refl;
  parses = (parse-marshal q [] (valid, tt) (held, tt)).0;
}

sample-built : build outside "f" "now" sample ≡ ok built
unfolding build validate is_valid_eth_address assemble add_client lookup insert
sample-built = refl

build-eth_sign_example :
    SignedOrRefused outside gin documented "f" checked_sample
      (posting sign_call)
      sign_call
      0
      (gin.serve built (posting sign_call) 0)
unfolding IsHeld
build-eth_sign_example =
    build-eth_sign outside gin documented "f" "now" sample built (posting sign_call) sign_call 0
      sample-built (posting-Carries sign_call sign_call-IsValid (omega arith)) refl
