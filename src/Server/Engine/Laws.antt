-- ===== src/Server/Engine/Laws.antt =====
-- Which requests reach the router.
use web3signer_go.Base.{
  ◌&&◌, refl, sym, str_eq, ap, ◌∙◌, subst, some, if◌then◌else◌, bytes, ℕ, String, ◌≡◌, ◌⊎◌, ◌≢◌,
  ◌↔◌, inl, inr, Bool, true, false, none, List, [], ◌∷◌, map, arith, eq_iff, Bool-cases,
}
use web3signer_go.Base.Dict.{insert}
use web3signer_go.Config.Whole.{Config, or_else}
use web3signer_go.Server.Auth.{same_bytes, auth_middleware}
use web3signer_go.Server.Auth.Laws.{same_bytes_iff, Admitted, auth_middleware_iff}
use web3signer_go.Server.Cors.{cors_middleware}
use web3signer_go.Server.Engine.{
  status_handler, handle_jsonrpc_request, find_route, create_gin_router, Engine, Router, Documented,
  Gin, Libraries, Headers, WebRequest, WebReply, set_all, request_id_middleware, cors_layer,
  auth_request, auth_layer, unauthorized, tls_redirect_middleware, redirect_headers, redirects,
  middlewares, Handling, run_chain,
}

abbrev pub root : List ℕ
root = b'/' ∷ []

module _ (fresh : String) (c : Config) where
  abbrev pub Passes : WebRequest → Type 0
  Passes req =
      Admitted c.auth.enabled (bytes c.auth.secret) (map bytes c.auth.whitelist) (auth_request req)

  -- The headers that every reply carries.
  abbrev pub common : WebRequest → Headers
  common req =
      set_all (cors_middleware c.http.allowed_origins req.method req.origin).headers
        (insert "X-Request-ID" (or_else fresh req.request_id) [])

  abbrev pub redirect_reply : WebRequest → WebReply
  redirect_reply req = record {
    status = 301;
    headers = redirect_headers req (common req);
    content = none;
  }

  module _ {W : Type 0} (handling : Handling W) (req : WebRequest) (w : W) where
    abbrev chain : WebReply × W
    chain = run_chain (middlewares fresh c) handling req [] w

    chain-options :
        req.method ≡ "OPTIONS"
        → chain ≡ (record { status = 204; headers = common req; content = none }, w)
    unfolding middlewares request_id_middleware cors_layer cors_middleware
    chain-options h = ground (arith, eq_iff req.method "OPTIONS")

    -- The layers after the CORS headers.
    abbrev guarded : WebReply × W
    guarded =
        run_chain
          (auth_layer c.auth.enabled c.auth.secret c.auth.whitelist
            ∷ (if redirects c then tls_redirect_middleware ∷ [] else []))
          handling req (common req) w

    chain-guarded : req.method ≢ "OPTIONS" → chain ≡ guarded
    unfolding middlewares request_id_middleware cors_layer cors_middleware
    chain-guarded h = ground (arith, eq_iff req.method "OPTIONS")

    -- What comes of a request that is no preflight.
    abbrev pub Guarded : WebReply × W → Type 0
    Guarded reply =
        ((Passes req → ⊥) × (reply ≡ (unauthorized (common req), w)))
        ⊎ (Passes req
            × (redirects c ≡ true)
            × (req.tls ≡ false)
            × (reply ≡ (redirect_reply req, w)))
        ⊎ (Passes req
            × ((redirects c ≡ false) ⊎ (req.tls ≡ true))
            × (reply ≡ handling req (common req) w))

    guarded_lem : Guarded guarded
    unfolding auth_layer tls_redirect_middleware
    guarded_lem = elim (Bool-cases admitted) [
      | inr out ↦ inl ((λ pass. absurd (ground (arith, admitted_iff.1 pass))), ground arith)
      | inl let_in ↦ elim (Bool-cases (redirects c)) [
        | inr plain ↦ inr (inr (admitted_iff.0 let_in, inl plain, ground arith))
        | inl to_tls ↦ elim (Bool-cases req.tls) [
          | inl secure ↦ inr (inr (admitted_iff.0 let_in, inr secure, ground arith))
          | inr open_text ↦ inr (inl (admitted_iff.0 let_in, to_tls, open_text, ground arith))
        ]
      ]
    ]
      where
        admitted : Bool
        admitted =
            auth_middleware c.auth.enabled (bytes c.auth.secret) (map bytes c.auth.whitelist)
              (auth_request req)

        admitted_iff : (admitted ≡ true) ↔ Passes req
        admitted_iff =
            auth_middleware_iff c.auth.enabled (bytes c.auth.secret) (map bytes c.auth.whitelist)
              (auth_request req)

-- A handler that leaves the world alone does so behind the layers.
guarded_keeps :
    (fresh : String) (c : Config) {W : Type 0} (handling : Handling W) (req : WebRequest) (w : W)
    → ((hs : Headers) → (handling req hs w).1 ≡ w)
    → (guarded fresh c handling req w).1 ≡ w
guarded_keeps fresh c handling req w keeps = elim (guarded_lem fresh c handling req w) [
  | inl (out, same) ↦ ap (λ x. x.1) same
  | inr (inl (pass, to_tls, open_text, same)) ↦ ap (λ x. x.1) same
  | inr (inr (pass, secure, same)) ↦ ap (λ x. x.1) same ∙ keeps (common fresh c req)
]

module _ (libs : Libraries) {W : Type 0} (g : Gin W) (doc : Documented g) where
  module _ (fresh now : String) (c : Config) (router : Router W) where
    abbrev pub engine : Engine W
    engine = create_gin_router libs fresh now c router

    found :
        (req : WebRequest) (w : W) (handling : Handling W)
        → find_route engine.routes req ≡ some handling
        → g.serve engine req w ≡ run_chain (middlewares fresh c) handling req [] w
    unfolding create_gin_router
    found req w handling h = doc.registered engine req w handling h

    -- The routes by their methods and paths.
    found_route :
        (req : WebRequest) (handling : Handling W)
        → find_route engine.routes req ≡ some handling
        → ((req.method ≡ "POST")
            × (req.path ≡ root)
            × (handling ≡ handle_jsonrpc_request libs router))
          ⊎ (req.method ≡ "OPTIONS")
          ⊎ ((req.method ≡ "GET") × ((status : String) × (handling ≡ status_handler status now)))
    unfolding create_gin_router
    found_route req handling h =
        elim (Bool-cases (str_eq "POST" req.method && same_bytes root req.path)) [
          | inl post ↦ inl (ground (arith, eq_iff "POST" req.method, same_bytes_iff root req.path))
          | inr other ↦ elim (Bool-cases (str_eq "OPTIONS" req.method)) [
            | inl options ↦ inr (inl (ground (arith, eq_iff "OPTIONS" req.method)))
            | inr get ↦
                elim (Bool-cases
                  (str_eq "GET" req.method && same_bytes (bytes "/health") req.path)) [
                    | inl health ↦
                        inr
                          (inr (ground (arith, eq_iff "GET" req.method), ("healthy", ground arith)))
                    | inr ready ↦
                        inr (inr (ground (arith, eq_iff "GET" req.method), ("ready", ground arith)))
                  ]
          ]
        ]

    -- Where gin runs the middleware in order and then the handler of a registered route, POST
    -- / is answered with status 401 and the router is not reached unless the request passes
    -- the authentication; one that passes is redirected to https with status 301, and the
    -- router is not reached, where the redirect is on, a certificate is set and the connection
    -- has no TLS; any other is answered by the router. Every reply has the headers of the
    -- request id and of CORS.
    pub serve-post :
        (req : WebRequest) (w : W)
        → req.method ≡ "POST"
        → req.path ≡ root
        → Guarded fresh c (handle_jsonrpc_request libs router) req w (g.serve engine req w)
    unfolding create_gin_router same_bytes
    serve-post req w is_post is_root =
        subst (Guarded fresh c (handle_jsonrpc_request libs router) req w)
          (sym (
            found req w (handle_jsonrpc_request libs router) (rw (is_post, is_root) refl)
            ∙ chain-guarded fresh c (handle_jsonrpc_request libs router) req w (λ e. cc)))
          (guarded_lem fresh c (handle_jsonrpc_request libs router) req w)

    -- Under the same assumption on gin, OPTIONS / is answered with status 204, no body and the
    -- headers of the request id and of CORS, before the authentication, and never reaches the
    -- router.
    pub serve-options :
        (req : WebRequest) (w : W)
        → req.method ≡ "OPTIONS"
        → req.path ≡ root
        → g.serve engine req w
          ≡ (record { status = 204; headers = common fresh c req; content = none }, w)
    unfolding create_gin_router same_bytes
    serve-options req w is_options is_root =
        found req w (handle_jsonrpc_request libs router) (rw (is_options, is_root) refl)
        ∙ chain-options fresh c (handle_jsonrpc_request libs router) req w is_options

    -- Under the same assumption on gin, a request to a registered route leaves the world
    -- unchanged, or it is POST / and passes the authentication, with TLS where a redirect is
    -- due, and the reply is the router's.
    pub serve-reaches :
        (req : WebRequest) (w : W) (handling : Handling W)
        → find_route engine.routes req ≡ some handling
        → ((g.serve engine req w).1 ≡ w)
          ⊎ ((req.method ≡ "POST")
              × (req.path ≡ root)
              × Passes fresh c req
              × ((redirects c ≡ false) ⊎ (req.tls ≡ true))
              × (g.serve engine req w
                  ≡ handle_jsonrpc_request libs router req (common fresh c req) w))
    unfolding status_handler
    serve-reaches req w handling h = elim (found_route req handling h) [
      | inl (is_post, is_root, e) ↦ elim (serve-post req w is_post is_root) [
        | inl (out, same) ↦ inl (ap (λ x. x.1) same)
        | inr (inl (pass, to_tls, open_text, same)) ↦ inl (ap (λ x. x.1) same)
        | inr (inr (pass, secure, same)) ↦ inr (is_post, is_root, pass, secure, same)
      ]
      | inr (inl is_options) ↦
          inl (
            ap (λ x. x.1)
              (found req w handling h ∙ chain-options fresh c handling req w is_options))
      | inr (inr (is_get, (status, e))) ↦ inl (
          ap (λ x. x.1) (found req w handling h ∙ chain-guarded fresh c handling req w (λ e. cc))
          ∙ guarded_keeps fresh c handling req w (λ hs. ap (λ f. (f req hs w).1) e))
    ]
