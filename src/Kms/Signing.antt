-- ===== src/Kms/Signing.antt =====
-- internal/kms/signing.go and http_client.go: the HMAC authentication of a request. SHA-256, HMAC
-- and Base64 are parameters, and so is the date.
pub mod Laws
pub mod Injective
use web3signer_go.Base.{if◌then◌else◌, str_eq, ◌+++◌, String, Option, none, some, List}
use web3signer_go.Base.Dict.{lookup, insert}

-- crypto/sha256 and crypto/hmac, each followed by base64.
pub record Digests : Type 0 where
  pub content_sha256 : String → String
  pub hmac_sha256 : String → String → String

pub record HttpRequest : Type 0 where
  pub method : String
  pub url : String
  pub headers : List (String × String)
  pub body : Option String

unfoldable pub build_signing_string : String → String → String → String → String
build_signing_string verb content_sha256 content_type date =
    verb +++ ("\n" +++ (content_sha256 +++ ("\n" +++ (content_type +++ ("\n" +++ date)))))

unfoldable pub build_authorization_header : String → String → String
build_authorization_header access_key_id signature =
    "MPC-KMS " +++ (access_key_id +++ (":" +++ signature))

abbrev pub header : String → HttpRequest → String
header name req = elim (lookup name req.headers) [ none ↦ "" | some s ↦ s ]

abbrev pub set_header : String → String → HttpRequest → HttpRequest
set_header name value req = record req { headers = insert name value req.headers }

abbrev pub or_json : String → String
or_json s = if str_eq s "" then "application/json" else s

abbrev pub body_text : Option String → String
body_text none = ""
body_text (some s) = s

-- The content type that is signed: the one that is set, or application/json.
abbrev pub content_type : HttpRequest → String
content_type req = or_json (header "Content-Type" req)

abbrev pub signing_string : Digests → String → HttpRequest → String
signing_string ds date req =
    build_signing_string req.method (ds.content_sha256 (body_text req.body)) (content_type req) date

unfoldable pub sign_request : Digests → String → String → String → HttpRequest → HttpRequest
unfolding build_signing_string build_authorization_header
sign_request ds access_key_id secret_key date req = set_header "Content-Type" (content_type req) (
    set_header "Date" date (
      set_header "Authorization"
        (build_authorization_header access_key_id
          (ds.hmac_sha256 (signing_string ds date req) secret_key))
        req))

-- HTTPClient.Do: the request goes out signed.
unfoldable pub do_request {ℓ κ} :
    {W : Type ℓ} {R : Type κ}
    → Digests
    → String
    → String
    → (W → String)
    → (HttpRequest → W → R × W)
    → HttpRequest
    → W
    → R × W
unfolding sign_request
do_request ds access_key_id secret_key now send req w =
    send (sign_request ds access_key_id secret_key (now w) req) w
