-- ===== src/Server/Tests.antt =====
-- Authentication and CORS at concrete requests.
pub mod Engines
mod Serving
use web3signer_go.Base.{ℕ, ◌≡◌, ◌↔◌, true, List, [], ◌∷◌, ◌++◌}
use web3signer_go.Server.Auth.{AuthRequest, bearer, auth_middleware}
use web3signer_go.Server.Auth.Laws.{Admitted, auth_middleware_iff}

abbrev health_only : List (List ℕ)
health_only = (b'/' ∷ b'h' ∷ []) ∷ []

abbrev with_token : AuthRequest
with_token = record { path = b'/' ∷ []; authorization = bearer ++ (b' ' ∷ b'k' ∷ []); api_key = [] }

auth_middleware_iff_example :
    (auth_middleware true (b'k' ∷ []) health_only with_token ≡ true)
    ↔ Admitted true (b'k' ∷ []) health_only with_token
auth_middleware_iff_example = auth_middleware_iff true (b'k' ∷ []) health_only with_token
