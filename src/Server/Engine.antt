-- ===== src/Server/Engine.antt =====
-- internal/server/builder.go: the order of the middleware, the redirect to TLS and the routes.
-- `Gin` stands for github.com/gin-gonic/gin; the middleware of third parties between these, which
-- logs and recovers, passes every request on.
pub mod Laws
use web3signer_go.Base.{
  ltb, ◌==◌, if◌then◌else◌, ℤ, pos, str_eq, ◌+++◌, bytes, ℕ, ◌+◌, String, ◌≡◌, Bool, true, false,
  not, ◌&&◌, ◌||◌, Option, none, some, List, [], ◌∷◌, map,
}
use web3signer_go.Base.Dict.{insert}
use web3signer_go.Jsonrpc.Value.{Value, int, str, obj, end, field}
use web3signer_go.Router.Node.{Libraries}
use web3signer_go.Router.Table.{Router}
use web3signer_go.Router.Http.{HttpBody, HttpReply, handle_http_request_with_context}
use web3signer_go.Config.Whole.{Config, or_else}
use web3signer_go.Server.Auth.{AuthRequest, auth_middleware, same_bytes}
use web3signer_go.Server.Cors.{CorsOutcome, cors_middleware}

abbrev pub Headers : Type 0
Headers = List (String × String)

-- A header that is missing is empty; `tls` says that Request.TLS is not nil, and `uri` is
-- URL.RequestURI.
pub record WebRequest : Type 0 where
  pub method : String
  pub path : List ℕ
  pub request_id : String
  pub origin : String
  pub authorization : List ℕ
  pub api_key : List ℕ
  pub tls : Bool
  pub host : String
  pub uri : String
  pub body : HttpBody

-- The body is `none` where there is none, or where net/http writes it.
pub record WebReply : Type 0 where
  pub status : ℕ
  pub headers : Headers
  pub content : Option Value

-- What a middleware does with a request and the headers set so far: c.Next or c.Abort.
pub data Verdict : Type 0 where
  continues : Headers → Verdict
  aborts : WebReply → Verdict

abbrev pub Middleware : Type 0
Middleware = WebRequest → Headers → Verdict

-- `fresh` is the identifier that generateRequestID draws.
unfoldable pub request_id_middleware : String → Middleware
request_id_middleware fresh req hs =
    continues (insert "X-Request-ID" (or_else fresh req.request_id) hs)

abbrev set_all : Headers → Headers → Headers
set_all [] hs = hs
set_all ((name, value) ∷ more) hs = set_all more (insert name value hs)

abbrev cors_verdict : CorsOutcome → Headers → Verdict
cors_verdict outcome hs =
    let set = set_all outcome.headers hs in
    elim outcome.status [
      | none ↦ continues set
      | some status ↦ aborts (record { status = status; headers = set; content = none })
    ]

unfoldable pub cors_layer : List String → Middleware
unfolding cors_middleware
cors_layer origins req hs = cors_verdict (cors_middleware origins req.method req.origin) hs

abbrev pub auth_request : WebRequest → AuthRequest
auth_request req = record {
  path = req.path;
  authorization = req.authorization;
  api_key = req.api_key;
}

abbrev pub unauthorized : Headers → WebReply
unauthorized hs = record {
  status = 401;
  headers = insert "Content-Type" "application/json; charset=utf-8" hs;
  content =
      some (obj (field "code" (int (pos 401)) (field "error" (str "authentication failed") end)));
}

unfoldable pub auth_layer : Bool → String → List String → Middleware
auth_layer enabled secret whitelist req hs =
    if auth_middleware enabled (bytes secret) (map bytes whitelist) (auth_request req)
    then continues hs
    else aborts (unauthorized hs)

-- http.Redirect gives a page to GET and HEAD alone.
abbrev pub redirect_headers : WebRequest → Headers → Headers
redirect_headers req hs = insert "Location" ("https://" +++ (req.host +++ req.uri)) (
    if str_eq req.method "GET" || str_eq req.method "HEAD"
    then insert "Content-Type" "text/html; charset=utf-8" hs
    else hs)

unfoldable pub tls_redirect_middleware : Middleware
tls_redirect_middleware req hs =
    if req.tls
    then continues hs
    else aborts (record { status = 301; headers = redirect_headers req hs; content = none })

unfoldable pub redirects : Config → Bool
redirects c = c.http.tls_auto_redirect && not (str_eq c.http.tls_cert_file "")

unfoldable pub middlewares : String → Config → List Middleware
unfolding redirects
middlewares fresh c =
    request_id_middleware fresh
    ∷ cors_layer c.http.allowed_origins
    ∷ auth_layer c.auth.enabled c.auth.secret c.auth.whitelist
    ∷ (if redirects c then tls_redirect_middleware ∷ [] else [])

module _ (W : Type 0) where
  abbrev pub Handling : Type 0
  Handling = WebRequest → Headers → W → WebReply × W

  pub record Route : Type 0 where
    pub method : String
    pub path : List ℕ
    pub handling : Handling

  pub record Engine : Type 0 where
    pub layers : List Middleware
    pub routes : List Route

  pub record Gin : Type 0 where
    pub serve : Engine → WebRequest → W → WebReply × W

module _ {W : Type 0} where
  abbrev pub find_route : List (Route W) → WebRequest → Option (Handling W)
  find_route [] req = none
  find_route (route ∷ more) req =
      if str_eq route.method req.method && same_bytes route.path req.path
      then some route.handling
      else find_route more req

  abbrev pub run_chain : List Middleware → Handling W → WebRequest → Headers → W → WebReply × W
  run_chain [] handling req hs w = handling req hs w
  run_chain (layer ∷ layers) handling req hs w = elim (layer req hs) [
    | continues set ↦ run_chain layers handling req set w
    | aborts reply ↦ (reply, w)
  ]

  -- What the documentation of gin says of a request with a registered route: the middleware runs in
  -- the order of its registration, and then the handler, unless one of them aborts.
  pub record Documented (g : Gin W) : Type 0 where
    pub registered :
        (e : Engine W) (req : WebRequest) (w : W) (handling : Handling W)
        → find_route e.routes req ≡ some handling
        → g.serve e req w ≡ run_chain e.layers handling req [] w

  unfoldable pub handle_jsonrpc_request : Libraries → Router W → Handling W
  handle_jsonrpc_request libs router req hs w =
      let (reply, w') = handle_http_request_with_context libs router req.method req.body w in
      (
        record {
          status = reply.status;
          headers = insert "Content-Type" "application/json" hs;
          content = some reply.content;
        },
        w',
      )

  -- `now` is the time as it is written.
  unfoldable pub status_handler : String → String → Handling W
  status_handler status now req hs w = (
    record {
      status = 200;
      headers = insert "Content-Type" "application/json; charset=utf-8" hs;
      content = some (obj (field "status" (str status) (field "time" (str now) end)));
    },
    w,
  )

  unfoldable pub create_gin_router : Libraries → String → String → Config → Router W → Engine W
  unfolding middlewares
  create_gin_router libs fresh now c router = record {
    layers = middlewares fresh c;
    routes =
        record { method = "POST"; path = b'/' ∷ []; handling = handle_jsonrpc_request libs router }
        ∷ record {
          method = "OPTIONS";
          path = b'/' ∷ [];
          handling = handle_jsonrpc_request libs router;
        }
        ∷ record { method = "GET"; path = bytes "/health"; handling = status_handler "healthy" now }
        ∷ record { method = "GET"; path = bytes "/ready"; handling = status_handler "ready" now }
        ∷ [];
  }
