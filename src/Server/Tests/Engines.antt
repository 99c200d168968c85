-- ===== src/Server/Tests/Engines.antt =====
-- The server that is built from a configuration, on concrete requests.
use web3signer_go.Base.{
  ◌++◌, ap, ◌⊎◌, pos, ℕ, ◌≡◌, ◌↔◌, refl, true, false, Option, none, some, [], ◌∷◌, ok,
}
use web3signer_go.Errors.Types.{plain}
use web3signer_go.Router.Table.{Router, new_router}
use web3signer_go.Router.Tests.{libs, node, eth_node}
use web3signer_go.Signer.MultiKey.{mpc}
use web3signer_go.Signer.Tests.{sample_address}
use web3signer_go.Signer.Tests.Signing.{sample_hashing, sample_kms}
use web3signer_go.Config.Whole.{Config}
use web3signer_go.Config.Laws.{IsChecked, with_defaults}
use web3signer_go.Config.Tests.{sample, exists}
use web3signer_go.Server.Auth.{bearer, same_bytes}
use web3signer_go.Server.Engine.{
  WebRequest, WebReply, Engine, Gin, Documented, find_route, run_chain, redirects, Handling,
  handle_jsonrpc_request, create_gin_router,
}
use web3signer_go.Server.Engine.Laws.{
  Guarded, Passes, common, engine, root, serve-post, serve-options, serve-reaches,
}
use web3signer_go.Server.Builder.{Outside, build, mpc_signer, as_key}
use web3signer_go.Server.Builder.Laws.{Assembled, build_iff, engine_of}

abbrev not_found : WebReply
not_found = record { status = 404; headers = []; content = none }

abbrev answer : Option (Handling ℕ) → Engine ℕ → WebRequest → ℕ → WebReply × ℕ
answer none e req w = (not_found, w)
answer (some handling) e req w = run_chain e.layers handling req [] w

abbrev pub gin : Gin ℕ
gin = record { serve = λ e req w. answer (find_route e.routes req) e req w }

pub documented : Documented gin
documented = record { registered = λ e req w handling h. ap (λ o. answer o e req w) h }

abbrev pub post : WebRequest
post = record {
  method = "POST";
  path = root;
  request_id = "";
  origin = "";
  authorization = bearer ++ (b' ' ∷ b'k' ∷ []);
  api_key = [];
  tls = true;
  host = "localhost";
  uri = "/";
  body = record { size = 2; broken = false; document = none };
}

abbrev options : WebRequest
options = record post { method = "OPTIONS"; origin = "http://localhost:*" }

abbrev router : Router ℕ
router = new_router 1000

serve-post_example :
    Guarded "f" sample
      (handle_jsonrpc_request libs router)
      post
      0
      (gin.serve (engine libs gin documented "f" "now" sample router) post 0)
serve-post_example = serve-post libs gin documented "f" "now" sample router post 0 refl refl

serve-options_example :
    gin.serve (engine libs gin documented "f" "now" sample router) options 0
    ≡ (record { status = 204; headers = common "f" sample options; content = none }, 0)
serve-options_example =
    serve-options libs gin documented "f" "now" sample router options 0 refl refl

serve-reaches_example :
    ((gin.serve (engine libs gin documented "f" "now" sample router) post 0).1 ≡ 0)
    ⊎ ((post.method ≡ "POST")
        × (post.path ≡ root)
        × Passes "f" sample post
        × ((redirects sample ≡ false) ⊎ (post.tls ≡ true))
        × (gin.serve (engine libs gin documented "f" "now" sample router) post 0
            ≡ handle_jsonrpc_request libs router post (common "f" sample post) 0))
unfolding create_gin_router same_bytes
serve-reaches_example =
    serve-reaches libs gin documented "f" "now" sample router post 0
      (handle_jsonrpc_request libs router) refl

abbrev pub outside : Outside ℕ
outside = record {
  exists = exists;
  libs = libs;
  hashing = sample_hashing;
  hex_failure = (λ bs. plain "");
  hex_to_address = (λ s. sample_address);
  kms_client = (λ c. sample_kms);
  downstream_client = (λ c. node);
  rpc_client = (λ c. ok eth_node);
  chain_id = (λ c. ok (some (pos 1)));
}

abbrev pub checked_sample : Config
checked_sample = with_defaults sample

abbrev pub built : Engine ℕ
built = engine_of outside "f" "now" checked_sample eth_node (
    as_key outside (record {
      clients = ("key", mpc (mpc_signer outside checked_sample (some (pos 1)))) ∷ [];
      default_key_id = "key";
      chain_id = some (pos 1);
    }))

build_iff_example :
    (build outside "f" "now" sample ≡ ok built)
    ↔ (IsChecked exists sample × Assembled outside "f" "now" checked_sample built)
build_iff_example = build_iff outside "f" "now" sample built
