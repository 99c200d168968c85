-- ===== src/Server/Cors/Laws.antt =====
-- The origins that the default configuration allows.
use web3signer_go.Base.{
  ok, String, ◌≡◌, sym, ap, subst, ◌∙◌, ◌↔◌, ◌⊎◌, Bool, true, [], arith, eq_iff,
}
use web3signer_go.Config.{
  HttpConfig, validate_http, http_defaults, default_origins, or_default_origins,
}
use web3signer_go.Server.Cors.{is_origin_allowed}

validate_http-ok :
    (exists : String → Bool) (c c' : HttpConfig)
    → validate_http exists c ≡ ok c'
    → c' ≡ http_defaults c
unfolding validate_http
validate_http-ok exists c c' h = ground arith

default_origins_lem :
    (origin : String)
    → (is_origin_allowed origin default_origins ≡ true)
      ↔ ((origin ≡ "http://localhost:*") ⊎ (origin ≡ "http://127.0.0.1:*"))
unfolding is_origin_allowed
default_origins_lem origin =
    ground (arith, eq_iff "http://localhost:*" origin, eq_iff "http://127.0.0.1:*" origin)

-- Where no origins are configured, a checked configuration allows exactly the two origins that
-- are, literally, http://localhost:* and http://127.0.0.1:*.
pub is_origin_allowed-defaults :
    (exists : String → Bool) (c c' : HttpConfig) (origin : String)
    → validate_http exists c ≡ ok c'
    → c.allowed_origins ≡ []
    → (is_origin_allowed origin c'.allowed_origins ≡ true)
      ↔ ((origin ≡ "http://localhost:*") ⊎ (origin ≡ "http://127.0.0.1:*"))
unfolding http_defaults
is_origin_allowed-defaults exists c c' origin h empty =
    let same = validate_http-ok exists c c' h in
    let origins = ap (λ x. x.allowed_origins) same in
    subst
      (λ os.
        (is_origin_allowed origin os ≡ true)
        ↔ ((origin ≡ "http://localhost:*") ⊎ (origin ≡ "http://127.0.0.1:*")))
      (sym (origins ∙ ap or_default_origins empty)) (default_origins_lem origin)
