-- ===== src/Server/Cors.antt =====
-- internal/server/builder.go: the CORS headers.
pub mod Laws
use web3signer_go.Base.{
  if◌then◌else◌, str_eq, ok, ℕ, String, ◌≡◌, sym, ap, subst, ◌∙◌, ◌↔◌, ◌⊎◌, Bool, true, false, not,
  ◌&&◌, ◌||◌, Option, none, some, List, [], ◌∷◌, arith, eq_iff,
}
use web3signer_go.Config.{
  HttpConfig, validate_http, http_defaults, default_origins, or_default_origins,
}

unfoldable pub is_origin_allowed : String → List String → Bool
is_origin_allowed origin [] = false
is_origin_allowed origin (allowed ∷ more) =
    if str_eq allowed "*" || str_eq allowed origin then true else is_origin_allowed origin more

-- The headers that are set, and the status where the request ends there.
pub record CorsOutcome : Type 0 where
  pub headers : List (String × String)
  pub status : Option ℕ

unfoldable pub cors_middleware : List String → String → String → CorsOutcome
unfolding is_origin_allowed
cors_middleware allowed_origins method origin = record {
  headers =
      ("Access-Control-Allow-Methods", "POST, GET, OPTIONS")
      ∷ ("Access-Control-Allow-Headers", "Content-Type, Authorization")
      ∷ (if not (str_eq origin "") && is_origin_allowed origin allowed_origins
          then ("Access-Control-Allow-Origin", origin)
            ∷ ("Access-Control-Allow-Credentials", "true")
            ∷ []
          else []);
  status = if str_eq method "OPTIONS" then some 204 else none;
}
