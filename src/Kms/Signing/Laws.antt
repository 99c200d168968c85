-- ===== src/Kms/Signing/Laws.antt =====
-- The authentication of a request holds on the side that receives it.
use web3signer_go.Base.{if◌then◌else◌, str_eq, String, ◌≡◌, ◌∙◌, refl, arith}
use web3signer_go.Base.Dict.{lookup-insert}
use web3signer_go.Kms.Signing.{
  Digests, HttpRequest, build_signing_string, build_authorization_header, header, set_header,
  body_text, or_json, content_type, signing_string, sign_request,
}

-- What a recipient finds that knows the secret: the header of the request that it has received, and
-- the one that it computes from the method, the body and the other two headers.
abbrev pub Verifies : Digests → String → String → HttpRequest → Type 0
Verifies ds access_key_id secret_key got =
    header "Authorization" got
    ≡ build_authorization_header access_key_id (
        ds.hmac_sha256
          (build_signing_string got.method (ds.content_sha256 (body_text got.body))
            (header "Content-Type" got) (header "Date" got))
          secret_key)

header-set_header :
    (name asked value : String) (req : HttpRequest)
    → header asked (set_header name value req)
      ≡ (if str_eq name asked then value else header asked req)
header-set_header name asked value req = ground (arith, lookup-insert name asked value req.headers)

-- Whatever headers a request to the MPC-KMS had, it goes out with its method, URL and body
-- unchanged, with the date given and its content type or application/json, and with the
-- Authorization header that a recipient with the secret computes from the method, the body,
-- the content type and the date that it receives.
pub sign_request-Verifies :
    (ds : Digests) (access_key_id secret_key date : String) (req : HttpRequest)
    → let sent = sign_request ds access_key_id secret_key date req in
      Verifies ds access_key_id secret_key sent
      × (header "Date" sent ≡ date)
      × (header "Content-Type" sent ≡ or_json (header "Content-Type" req))
      × (sent.method ≡ req.method)
      × (sent.url ≡ req.url)
      × (sent.body ≡ req.body)
unfolding sign_request
sign_request-Verifies ds access_key_id secret_key date req =
    (rw (date_is, type_is) auth_is, date_is, type_is, refl, refl, refl)
  where
    auth : String
    auth =
        build_authorization_header access_key_id
          (ds.hmac_sha256 (signing_string ds date req) secret_key)

    one : HttpRequest
    one = set_header "Authorization" auth req

    two : HttpRequest
    two = set_header "Date" date one

    sent : HttpRequest
    sent = set_header "Content-Type" (content_type req) two

    auth_is : header "Authorization" sent ≡ auth
    auth_is =
        header-set_header "Content-Type" "Authorization" (content_type req) two
        ∙ header-set_header "Date" "Authorization" date one
        ∙ header-set_header "Authorization" "Authorization" auth req

    date_is : header "Date" sent ≡ date
    date_is =
        header-set_header "Content-Type" "Date" (content_type req) two
        ∙ header-set_header "Date" "Date" date one

    type_is : header "Content-Type" sent ≡ content_type req
    type_is = header-set_header "Content-Type" "Content-Type" (content_type req) two
