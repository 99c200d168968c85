-- ===== src/Server/Builder/Serving.antt =====
-- From a POST to a server that is built down to the call of the MPC-KMS.
use web3signer_go.Base.{
  equal_fold, ℤ, err, List, Option, Result, inr, true, inl, ◌⊎◌, ◌∙◌, ap, false, ◌≤◌, ok, none, [],
  ◌≡◌, ◌∷◌, ℕ, String, some, subst, sym, refl,
}
use web3signer_go.Base.Dict.{insert}
use web3signer_go.Errors.Types.{GoError, error_text}
use web3signer_go.Jsonrpc.Value.{str}
use web3signer_go.Jsonrpc.Codes.{code_internal_error}
use web3signer_go.Config.Laws.{with_defaults}
use web3signer_go.Utils.{is_valid_eth_address, hex_encode}
use web3signer_go.Jsonrpc.Parse.{parse_request}
use web3signer_go.Jsonrpc.Types.{Request, Response, marshal_responses}
use web3signer_go.Signer.Params.{parse_sign_params}
use web3signer_go.Signer.Mpc.{sign}
use web3signer_go.Signer.MultiKey.{Key}
use web3signer_go.Router.Responses.{
  create_invalid_params_response, create_success_response, create_error_response,
}
use web3signer_go.Router.Node.{EthNode}
use web3signer_go.Router.SignHandler.{
  SignHandler, is_sign_method, handle_sign, handle_eth_sign, sign_answer,
}
use web3signer_go.Router.SignHandler.Guards.{handle_eth_sign-guarded}
use web3signer_go.Router.Table.{Router, finish_response}
use web3signer_go.Router.Http.{as_forward_handler}
use web3signer_go.Router.Factory.{create_router}
use web3signer_go.Router.Factory.One.{
  replied, read_one, signing, route-handle_sign, handle_sign-eth_sign,
}
use web3signer_go.Router.Factory.Laws.{create_router-default, create_router-limit}
use web3signer_go.Config.Whole.{Config}
use web3signer_go.Server.Engine.{
  Engine, WebRequest, WebReply, Gin, Documented, redirects, handle_jsonrpc_request,
  create_gin_router,
}
use web3signer_go.Server.Engine.Laws.{root, Passes, common, serve-post}
use web3signer_go.Server.Builder.{Outside, max_request_size, build}
use web3signer_go.Server.Builder.Laws.{engine_of, configured, IsOwnKey, build_iff}

module _ {W : Type 0} (o : Outside W) (g : Gin W) (doc : Documented g) where
  -- How the server of a checked configuration answers a signing method.
  abbrev pub answered : String → Config → WebRequest → Request → Response × W → WebReply × W
  answered fresh c req q out = (
    record {
      status = 200;
      headers = insert "Content-Type" "application/json" (common fresh c req);
      content = some (marshal_responses (some (finish_response o.libs q (ok (some out.0))) ∷ []));
    },
    out.1,
  )

  -- A POST that gets through to the router, with one request in its body.
  pub record Carries (fresh : String) (c : Config) (req : WebRequest) (q : Request) : Type 0 where
    pub is_post : req.method ≡ "POST"
    pub is_root : req.path ≡ root
    pub passes : Passes fresh c req
    pub secure : (redirects c ≡ false) ⊎ (req.tls ≡ true)
    pub fits : req.body.size ≤ max_request_size c.http.max_request_size_mb
    pub whole : req.body.broken ≡ false
    pub parses : parse_request req.body.document ≡ ok (q ∷ [])

  serve-open :
      (fresh now : String) (c : Config) (router : Router W) (req : WebRequest) (q : Request) (w : W)
      → Carries fresh c req q
      → g.serve (create_gin_router o.libs fresh now c router) req w
        ≡ handle_jsonrpc_request o.libs router req (common fresh c req) w
  serve-open fresh now c router req q w k =
      elim (serve-post o.libs g doc fresh now c router req w k.is_post k.is_root) [
        | inl (out, same) ↦ absurd (out k.passes)
        | inr (inl (pass, to_tls, open_text, same)) ↦
            absurd (elim k.secure [ inl off ↦ cc | inr on ↦ cc ])
        | inr (inr (pass, secure, same)) ↦ same
      ]

  module _ (fresh now : String) (c : Config) (rpc : EthNode W) (key : Key W) (req : WebRequest)
      (q : Request) (w : W) where
    abbrev pub signing_of : SignHandler W
    signing_of =
        signing o.libs (max_request_size c.http.max_request_size_mb) key (o.downstream_client c) rpc

    pub served :
        Carries fresh c req q
        → is_sign_method q.method ≡ true
        → g.serve (engine_of o fresh now c rpc key) req w
          ≡ answered fresh c req q (handle_sign o.libs signing_of q w)
    unfolding handle_jsonrpc_request
    served k is_sign =
        serve-open fresh now c router req q w k
        ∙ ap
            (λ out. (
              record {
                status = out.0.status;
                headers = insert "Content-Type" "application/json" (common fresh c req);
                content = some out.0.content;
              },
              out.1,
            ))
            (read_one o.libs router req.method req.body w q plain fits k.whole k.parses
              ∙ ap (replied o.libs) (
                  route-handle_sign o.libs (max_request_size c.http.max_request_size_mb) key
                    (o.downstream_client c) rpc q w is_sign))
      where
        router : Router W
        router =
            create_router (max_request_size c.http.max_request_size_mb) key (o.downstream_client c)
              rpc

        plain : as_forward_handler router.default_handler ≡ none
        plain =
            create_router-default (max_request_size c.http.max_request_size_mb) key
              (o.downstream_client c) rpc

        fits : req.body.size ≤ router.max_request_size
        fits =
            subst (λ limit. req.body.size ≤ limit)
              (sym (
                create_router-limit (max_request_size c.http.max_request_size_mb) key
                  (o.downstream_client c) rpc))
              k.fits

  -- The response to eth_sign for what came of the signing.
  abbrev pub signature_response : Request → Result GoError (List ℕ) → Response
  signature_response q (ok signature) = create_success_response q.id (str (hex_encode signature))
  signature_response q (err e) =
      create_error_response q.id code_internal_error "Failed to sign data"
        (str (error_text o.libs.fmt_v e))

  sign_answer-response :
      (h : SignHandler W) (q : Request) (got : Result GoError (List ℕ))
      → sign_answer o.libs h q got ≡ signature_response q got
  sign_answer-response h q (ok signature) = refl
  sign_answer-response h q (err e) = refl

  abbrev pub mpc_sign : Config → Option ℤ → List ℕ → W → Result GoError (List ℕ) × W
  mpc_sign c chain_id = sign o.hashing o.libs.fmt_v o.hex_failure (configured o c chain_id)

  -- What a request for eth_sign comes to.
  abbrev pub SignedOrRefused : String → Config → WebRequest → Request → W → WebReply × W → Type 0
  SignedOrRefused fresh c req q w reply =
      ((message : String) × (reply
          ≡ answered fresh c req q (create_invalid_params_response q.id message, w)))
      ⊎ ((address : String) × (content : List ℕ) × (chain_id : Option ℤ) × (parse_sign_params
              o.libs.fastjson o.libs.ethgo o.libs.messages q.params
            ≡ ok (address, content))
          × (is_valid_eth_address address ≡ true)
          × (equal_fold address (o.libs.ethgo.address_text (o.hex_to_address c.kms.address)) ≡ true)
          × (o.chain_id c ≡ ok chain_id)
          × (reply
              ≡ answered fresh c req q (
                signature_response q (mpc_sign c chain_id content w).0,
                (mpc_sign c chain_id content w).1,
              )))

  -- The engine of a configuration with its own key.
  serve-eth_sign :
      (fresh now : String) (c : Config) (rpc : EthNode W) (chain_id : Option ℤ) (key : Key W)
      (req : WebRequest) (q : Request) (w : W)
      → o.chain_id c ≡ ok chain_id
      → IsOwnKey o c chain_id key
      → Carries fresh c req q
      → q.method ≡ "eth_sign"
      → SignedOrRefused fresh c req q w (g.serve (engine_of o fresh now c rpc key) req w)
  serve-eth_sign fresh now c rpc chain_id key req q w chain_is own k is_sign =
      elim (handle_eth_sign-guarded o.libs h q w) [
        | inl (message, refused) ↦ inl (message, reply ∙ ap (answered fresh c req q) refused)
        | inr (address, content, is_parsed, valid, same, asked) ↦ inr (
          address,
          content,
          chain_id,
          is_parsed,
          valid,
          subst (λ a. equal_fold address (o.libs.ethgo.address_text a) ≡ true) own.own_address same,
          chain_is,
          reply
              ∙ ap (answered fresh c req q) (
                  asked
                  ∙ ap (λ f. (sign_answer o.libs h q (f content w).0, (f content w).1)) own.own_sign
                  ∙ ap (λ r. (r, (mpc_sign c chain_id content w).1))
                      (sign_answer-response h q (mpc_sign c chain_id content w).0)),
        )
      ]
    where
      h : SignHandler W
      h = signing_of fresh now c rpc key req q w

      reply :
          g.serve (engine_of o fresh now c rpc key) req w
          ≡ answered fresh c req q (handle_eth_sign o.libs h q w)
      reply =
          let (signs_it, same) =
            handle_sign-eth_sign o.libs (max_request_size c.http.max_request_size_mb) key
              (o.downstream_client c) rpc q w is_sign in
          served fresh now c rpc key req q w k signs_it ∙ ap (answered fresh c req q) same

  -- Where gin runs the middleware in order and then the handler of a registered route: a
  -- server built from a configuration, on POST / with one eth_sign request within the limit
  -- that passes the authentication, with TLS where a redirect is due, answers with status 200
  -- and either an error of the parameters, leaving the world unchanged, or the outcome of one
  -- signing call with the configured key id and the node's chain id, for the bytes of the
  -- parameters and a valid address equal to the configured one up to case.
  pub build-eth_sign :
      (fresh now : String) (given : Config) (engine : Engine W) (req : WebRequest) (q : Request)
      (w : W)
      → build o fresh now given ≡ ok engine
      → Carries fresh (with_defaults given) req q
      → q.method ≡ "eth_sign"
      → SignedOrRefused fresh (with_defaults given) req q w (g.serve engine req w)
  build-eth_sign fresh now given engine req q w built k is_sign =
      let c = with_defaults given in
      let (rpc, chain_id, key, rpc_is, chain_is, own, engine_is) =
        ((build_iff o fresh now given engine).0 built).1 in
      subst (λ e. SignedOrRefused fresh c req q w (g.serve e req w)) (sym engine_is)
        (serve-eth_sign fresh now c rpc chain_id key req q w chain_is own k is_sign)
