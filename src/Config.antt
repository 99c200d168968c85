-- ===== src/Config.antt =====
-- internal/config/config.go: the parts of the configuration that are checked on their own, with
-- the defaults that checking fills in. `exists` says whether os.Stat finds a file.
pub mod Whole
pub mod Sections
pub mod Laws
pub mod Tests
use web3signer_go.Base.{
  if◌then◌else◌, ℤ, pos, ltb_ℤ, leb_ℤ, str_eq, ◌+++◌, has_prefix, show_ℕ, Result, ok, ◌>>◌, fail_if,
  ℕ, String, Bool, not, ◌&&◌, ◌||◌, List, [], ◌∷◌,
}
use web3signer_go.Utils.{is_valid_eth_address}

abbrev pub max_port : ℕ
max_port = 65535

pub record HttpConfig : Type 0 where
  pub host : String
  pub port : ℤ
  pub tls_cert_file : String
  pub tls_key_file : String
  pub tls_auto_redirect : Bool
  pub max_request_size_mb : ℤ
  pub allowed_origins : List String

abbrev given : String → Bool
given s = not (str_eq s "")

abbrev pub default_origins : List String
default_origins = "http://localhost:*" ∷ "http://127.0.0.1:*" ∷ []

abbrev pub or_default_origins : List String → List String
or_default_origins [] = default_origins
or_default_origins origins = origins

unfoldable pub http_defaults : HttpConfig → HttpConfig
http_defaults c = record c {
  max_request_size_mb =
      if leb_ℤ c.max_request_size_mb (pos 0) then pos 10 else c.max_request_size_mb;
  allowed_origins = or_default_origins c.allowed_origins;
}

unfoldable pub validate_http : (String → Bool) → HttpConfig → Result String HttpConfig
unfolding http_defaults
validate_http exists c = do
  fail_if (str_eq c.host "") "http-host is required"
  fail_if (leb_ℤ c.port (pos 0) || ltb_ℤ (pos max_port) c.port)
      ("http-port must be between 1 and " +++ show_ℕ max_port)
  fail_if (given c.tls_cert_file && not (given c.tls_key_file))
      "tls-key-file is required when tls-cert-file is set"
  fail_if (given c.tls_key_file && not (given c.tls_cert_file))
      "tls-cert-file is required when tls-key-file is set"
  fail_if (given c.tls_cert_file && not (exists c.tls_cert_file))
      ("tls-cert-file does not exist: " +++ c.tls_cert_file)
  fail_if (given c.tls_key_file && not (exists c.tls_key_file))
      ("tls-key-file does not exist: " +++ c.tls_key_file)
  ok (http_defaults c)

pub record KmsConfig : Type 0 where
  pub endpoint : String
  pub access_key_id : String
  pub secret_key : String
  pub key_id : String
  pub address : String

unfoldable pub validate_kms : KmsConfig → Result String KmsConfig
validate_kms c = do
  fail_if (str_eq c.endpoint "") "kms-endpoint is required"
  fail_if (str_eq c.access_key_id "") "kms-access-key-id is required"
  fail_if (str_eq c.secret_key "") "kms-secret-key is required"
  fail_if (str_eq c.key_id "") "kms-key-id is required"
  fail_if (str_eq c.address "") "kms-address is required"
  fail_if (not (is_valid_eth_address c.address))
      ("kms-address has invalid Ethereum address format: '" +++ (c.address +++ "'"))
  ok c

pub record DownstreamConfig : Type 0 where
  pub http_host : String
  pub http_port : ℤ
  pub http_path : String

unfoldable pub validate_downstream : DownstreamConfig → Result String DownstreamConfig
validate_downstream c = do
  fail_if (str_eq c.http_host "") "downstream-http-host is required"
  fail_if (not (has_prefix c.http_host "http://") && not (has_prefix c.http_host "https://"))
      "downstream-http-host must start with http:// or https://"
  fail_if (ltb_ℤ c.http_port (pos 0) || ltb_ℤ (pos max_port) c.http_port)
      ("downstream-http-port must be between 0 and " +++ show_ℕ max_port)
  fail_if (str_eq c.http_path "") "downstream-http-path is required"
  ok (record c {
    http_path = if has_prefix c.http_path "/" then c.http_path else "/" +++ c.http_path;
  })
