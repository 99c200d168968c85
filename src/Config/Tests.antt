-- ===== src/Config/Tests.antt =====
-- A configuration as the command line gives it.
use web3signer_go.Base.{pos, String, ◌≡◌, ◌↔◌, Bool, true, ok, [], ◌∷◌}
use web3signer_go.Config.Whole.{Config, validate}
use web3signer_go.Config.Laws.{IsChecked, with_defaults, validate_iff}

abbrev pub sample : Config
sample = record {
  http = record {
    host = "localhost";
    port = pos 9000;
    tls_cert_file = "cert.pem";
    tls_key_file = "key.pem";
    tls_auto_redirect = true;
    max_request_size_mb = pos 0;
    allowed_origins = [];
  };
  kms = record {
    endpoint = "http://kms";
    access_key_id = "id";
    secret_key = "secret";
    key_id = "key";
    address = "0x0000000000000000000000000000000000000001";
  };
  downstream = record { http_host = "http://localhost"; http_port = pos 8545; http_path = "rpc" };
  log = record { level = ""; format = "JSON" };
  auth = record { enabled = true; secret = "k"; whitelist = "/health" ∷ [] };
}

abbrev pub exists : String → Bool
exists file = true

validate_iff_example :
    (validate exists sample ≡ ok (with_defaults sample))
    ↔ (IsChecked exists sample × (with_defaults sample ≡ with_defaults sample))
validate_iff_example = validate_iff exists sample (with_defaults sample)
