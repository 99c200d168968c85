-- ===== src/Config/Sections.antt =====
-- The sections of a configuration: what their checks accept, and what they fill in.
use web3signer_go.Base.{
  inr, inl, is_prefix, subst, bytes, if◌then◌else◌, ℤ, pos, ltb_ℤ, ◌+++◌, has_prefix, ok, ℕ, ◌≤◌,
  String, ◌≡◌, refl, ◌≢◌, ◌↔◌, ◌⊎◌, Bool, true, false, ◌||◌, arith, eq_iff,
}
use web3signer_go.Utils.{is_valid_eth_address}
use web3signer_go.Config.{
  max_port, HttpConfig, http_defaults, validate_http, KmsConfig, validate_kms, DownstreamConfig,
  validate_downstream,
}
use web3signer_go.Config.Whole.{
  validate_log, LogConfig, is_one_of, valid_log_levels, valid_log_formats, default_log_level,
  default_log_format, or_else,
}

abbrev pub Within : ℕ → ℕ → ℤ → Type 0
Within low high n = (port : ℕ) × (n ≡ pos port) × (low ≤ port) × (port ≤ high)

-- Both files of a TLS setup are named and exist, or neither is named.
abbrev pub TlsFiles : (String → Bool) → HttpConfig → Type 0
TlsFiles exists c =
    ((c.tls_cert_file ≡ "") × (c.tls_key_file ≡ ""))
    ⊎ ((c.tls_cert_file ≢ "")
        × (c.tls_key_file ≢ "")
        × (exists c.tls_cert_file ≡ true)
        × (exists c.tls_key_file ≡ true))

pub record HttpChecked (exists : String → Bool) (c : HttpConfig) : Type 0 where
  pub host : c.host ≢ ""
  pub port : Within 1 max_port c.port
  pub tls : TlsFiles exists c

pub record KmsChecked (c : KmsConfig) : Type 0 where
  pub endpoint : c.endpoint ≢ ""
  pub access_key_id : c.access_key_id ≢ ""
  pub secret_key : c.secret_key ≢ ""
  pub key_id : c.key_id ≢ ""
  pub address : is_valid_eth_address c.address ≡ true

pub record DownstreamChecked (c : DownstreamConfig) : Type 0 where
  pub scheme :
      (has_prefix c.http_host "http://" ≡ true) ⊎ (has_prefix c.http_host "https://" ≡ true)
  pub port : Within 0 max_port c.http_port
  pub path : c.http_path ≢ ""

pub record LogChecked (c : LogConfig) : Type 0 where
  pub level : is_one_of c.level valid_log_levels ≡ true
  pub format : is_one_of c.format valid_log_formats ≡ true

abbrev pub log_defaults : LogConfig → LogConfig
log_defaults c = record {
  level = or_else default_log_level c.level;
  format = or_else default_log_format c.format;
}

abbrev pub downstream_defaults : DownstreamConfig → DownstreamConfig
downstream_defaults c = record c {
  http_path = if has_prefix c.http_path "/" then c.http_path else "/" +++ c.http_path;
}

within :
    (low high : ℕ) (n : ℤ) → (ltb_ℤ n (pos low) || ltb_ℤ (pos high) n) ≡ false ↔ Within low high n
within low high (pos n) =
    ((λ h. (n, refl, ground arith, ground arith)), (λ (m, e, l, u). ground arith))
within low high (ℤ.negsuc n) =
    ((λ h. absurd (ground arith)), (λ (m, e, l, u). absurd (ground arith)))

pub http_to :
    (exists : String → Bool) (c c' : HttpConfig)
    → validate_http exists c ≡ ok c'
    → HttpChecked exists c × (c' ≡ http_defaults c)
unfolding validate_http
http_to exists c c' h = (
  record {
    host = λ e. ground (arith, eq_iff c.host "");
    port = (within 1 max_port c.port).0 (ground arith);
    tls = ground (arith, eq_iff c.tls_cert_file "", eq_iff c.tls_key_file "");
  },
  ground arith,
)

pub http_from :
    (exists : String → Bool) (c : HttpConfig)
    → HttpChecked exists c
    → validate_http exists c ≡ ok (http_defaults c)
unfolding validate_http
http_from exists c v = ground (
  arith,
  eq_iff c.host "",
  v.host,
  (within 1 max_port c.port).1 v.port,
  eq_iff c.tls_cert_file "",
  eq_iff c.tls_key_file "",
)

pub kms_to : (c c' : KmsConfig) → validate_kms c ≡ ok c' → KmsChecked c × (c' ≡ c)
unfolding validate_kms
kms_to c c' h = (
  record {
    endpoint = λ e. ground (arith, eq_iff c.endpoint "");
    access_key_id = λ e. ground (arith, eq_iff c.access_key_id "");
    secret_key = λ e. ground (arith, eq_iff c.secret_key "");
    key_id = λ e. ground (arith, eq_iff c.key_id "");
    address = ground arith;
  },
  ground arith,
)

-- No text is both empty and an address.
pub kms_from : (c : KmsConfig) → KmsChecked c → (c.address ≢ "") → validate_kms c ≡ ok c
unfolding validate_kms
kms_from c v given = ground (
  arith,
  eq_iff c.endpoint "",
  eq_iff c.access_key_id "",
  eq_iff c.secret_key "",
  eq_iff c.key_id "",
  eq_iff c.address "",
)

pub downstream_to :
    (c c' : DownstreamConfig)
    → validate_downstream c ≡ ok c'
    → DownstreamChecked c × (c' ≡ downstream_defaults c)
unfolding validate_downstream
downstream_to c c' h = (
  record {
    scheme = ground arith;
    port = (within 0 max_port c.http_port).0 (ground arith);
    path = λ e. ground (arith, eq_iff c.http_path "");
  },
  ground arith,
)

pub downstream_from :
    (c : DownstreamConfig)
    → DownstreamChecked c
    → c.http_host ≢ ""
    → validate_downstream c ≡ ok (downstream_defaults c)
unfolding validate_downstream
downstream_from c v given =
    ground (
      arith,
      eq_iff c.http_host "",
      (within 0 max_port c.http_port).1 v.port,
      eq_iff c.http_path "",
    )

pub log_to :
    (c c' : LogConfig)
    → validate_log (record c { level = or_else default_log_level c.level }) ≡ ok c'
    → LogChecked (log_defaults c) × (c' ≡ log_defaults c)
unfolding validate_log
log_to c c' h = (record { level = ground arith; format = ground arith }, ground arith)

pub log_from :
    (c : LogConfig)
    → LogChecked (log_defaults c)
    → validate_log (record c { level = or_else default_log_level c.level }) ≡ ok (log_defaults c)
unfolding validate_log
log_from c v = ground (arith, v.level, v.format)

pub address_given : (s : String) → is_valid_eth_address s ≡ true → s ≢ ""
unfolding is_valid_eth_address bytes
address_given s h e = cc (subst (λ x. is_valid_eth_address x ≡ true) e h)

prefix_given : (s p : String) → has_prefix "" p ≡ false → has_prefix s p ≡ true → s ≢ ""
prefix_given s p none_of h e = cc (subst (λ x. has_prefix x p ≡ true) e h)

pub host_given : (c : DownstreamConfig) → DownstreamChecked c → c.http_host ≢ ""
unfolding has_prefix is_prefix bytes
host_given c v = elim v.scheme [
  | inl h ↦ prefix_given c.http_host "http://" refl h
  | inr h ↦ prefix_given c.http_host "https://" refl h
]
