-- ===== src/Kms/Tests/Requests.antt =====
-- Signed requests to the MPC-KMS. The digests are stand-ins that keep their text.
use web3signer_go.Base.{◌+++◌, ◌≡◌, refl, runes, some, [], ◌∷◌, arith}
use web3signer_go.Base.Dict.{lookup}
use web3signer_go.Kms.Signing.{Digests, HttpRequest, header, sign_request}
use web3signer_go.Kms.Signing.Laws.{Verifies, sign_request-Verifies}
use web3signer_go.Kms.Signing.Injective.{IsLine, build_signing_string_injective}

abbrev digests : Digests
digests = record {
  content_sha256 = (λ content. "h" +++ content);
  hmac_sha256 = (λ message secret. secret +++ message);
}

abbrev unsigned : HttpRequest
unsigned = record {
  method = "POST";
  url = "http://kms/api/v1/keys/k/sign";
  headers = ("Date", "never") ∷ [];
  body = some "{}";
}

abbrev sent : HttpRequest
sent = sign_request digests "id" "secret" "Thu, 01 Jan 1970 00:00:00 GMT" unsigned

sign_request-Verifies_example :
    Verifies digests "id" "secret" sent
    × (header "Date" sent ≡ "Thu, 01 Jan 1970 00:00:00 GMT")
    × (header "Content-Type" sent ≡ "application/json")
    × (sent.method ≡ "POST")
    × (sent.url ≡ "http://kms/api/v1/keys/k/sign")
    × (sent.body ≡ some "{}")
unfolding lookup
sign_request-Verifies_example =
    sign_request-Verifies digests "id" "secret" "Thu, 01 Jan 1970 00:00:00 GMT" unsigned

post-IsLine : IsLine "POST"
post-IsLine = unfold runes in omega arith

hash-IsLine : IsLine "aGFzaA=="
hash-IsLine = unfold runes in omega arith

type-IsLine : IsLine "application/json"
type-IsLine = unfold runes in omega arith

build_signing_string_injective_example :
    (runes "POST" ≡ runes "POST")
    × (runes "aGFzaA==" ≡ runes "aGFzaA==")
    × (runes "application/json" ≡ runes "application/json")
    × (runes "now" ≡ runes "now")
build_signing_string_injective_example =
    build_signing_string_injective "POST" "aGFzaA==" "application/json" "now" "POST" "aGFzaA=="
      "application/json" "now" post-IsLine hash-IsLine type-IsLine post-IsLine hash-IsLine
      type-IsLine refl
