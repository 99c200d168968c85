-- ===== src/Config/Laws.antt =====
-- What a checked configuration is, and that checking it twice changes nothing.
use web3signer_go.Base.{
  [], ◌∷◌, List, ap, sym, ◌∙◌, >>=-eq-ok, is_prefix, subst, bytes, if◌then◌else◌, ◌+++◌, has_prefix,
  ok, String, ◌≡◌, refl, ◌≢◌, ◌↔◌, Bool, true, arith, eq_iff,
}
use text.Mathlib.TextLemmas.{cons-ne-nil, cons-append, nil-append}
use web3signer_go.Config.{
  or_default_origins, HttpConfig, http_defaults, validate_http, validate_kms, validate_downstream,
}
use web3signer_go.Config.Whole.{
  validate, Config, validate_log, LogConfig, default_log_level, or_else,
}
use web3signer_go.Config.Sections.{
  HttpChecked, KmsChecked, DownstreamChecked, LogChecked, log_defaults, downstream_defaults,
  http_to, http_from, kms_to, kms_from, downstream_to, downstream_from, log_to, log_from,
  address_given, host_given,
}

-- Every section passes its own check; the log section with its defaults filled in.
pub record IsChecked (exists : String → Bool) (c : Config) : Type 0 where
  pub http : HttpChecked exists c.http
  pub kms : KmsChecked c.kms
  pub downstream : DownstreamChecked c.downstream
  pub log : LogChecked (log_defaults c.log)

abbrev pub with_defaults : Config → Config
with_defaults c = record {
  http = http_defaults c.http;
  kms = c.kms;
  downstream = downstream_defaults c.downstream;
  log = log_defaults c.log;
  auth = c.auth;
}

-- A configuration passes with result c exactly when its host and keys are given, its ports are
-- in range, its TLS files are both missing or both there, its address is an Ethereum address,
-- the node's host has an HTTP scheme and a path, and level and format of the log are known; c
-- is then the configuration with the defaults filled in.
pub validate_iff :
    (exists : String → Bool) (c c' : Config)
    → (validate exists c ≡ ok c') ↔ (IsChecked exists c × (c' ≡ with_defaults c))
unfolding validate
validate_iff exists c c' = (to, from)
  where
    to : validate exists c ≡ ok c' → IsChecked exists c × (c' ≡ with_defaults c)
    to h =
        let (http, http_is, h₁) = >>=-eq-ok (validate_http exists c.http) _ h in
        let (kms, kms_is, h₂) = >>=-eq-ok (validate_kms c.kms) _ h₁ in
        let (downstream, downstream_is, h₃) = >>=-eq-ok (validate_downstream c.downstream) _ h₂ in
        let (log, log_is, h₄) =
          >>=-eq-ok (validate_log (record c.log { level = or_else default_log_level c.log.level }))
            _ h₃ in
        (
          record {
            http = (http_to exists c.http http http_is).0;
            kms = (kms_to c.kms kms kms_is).0;
            downstream = (downstream_to c.downstream downstream downstream_is).0;
            log = (log_to c.log log log_is).0;
          },
          cc (
            h₄,
            (http_to exists c.http http http_is).1,
            (kms_to c.kms kms kms_is).1,
            (downstream_to c.downstream downstream downstream_is).1,
            (log_to c.log log log_is).1,
          ),
        )

    from : IsChecked exists c × (c' ≡ with_defaults c) → validate exists c ≡ ok c'
    from (v, e) = rw (
      e,
      http_from exists c.http v.http,
      kms_from c.kms v.kms (address_given c.kms.address v.kms.address),
      downstream_from c.downstream v.downstream (host_given c.downstream v.downstream),
      log_from c.log v.log,
    )

origins_twice :
    (os : List String) → or_default_origins (or_default_origins os) ≡ or_default_origins os
origins_twice [] = refl
origins_twice (o ∷ os) = refl

http_twice : (c : HttpConfig) → http_defaults (http_defaults c) ≡ http_defaults c
unfolding http_defaults
http_twice c = ground (arith, origins_twice c.allowed_origins)

slashed : String → String
slashed path = if has_prefix path "/" then path else "/" +++ path

slash_append : (path : String) → "/" +++ path ≡ String.◌∷◌ "/" path
slash_append path = cons-append "/" "" path ∙ ap (String.◌∷◌ "/") (nil-append path)

slashed_prefix : (path : String) → has_prefix ("/" +++ path) "/" ≡ true
unfolding has_prefix is_prefix bytes
slashed_prefix path = rw (slash_append path) refl

slashed_twice : (path : String) → slashed (slashed path) ≡ slashed path
unfolding slashed
slashed_twice path = ground (arith, slashed_prefix path)

slashed-given : (path : String) → path ≢ "" → slashed path ≢ ""
unfolding slashed
slashed-given path given e =
    ground (arith, λ (f : "/" +++ path ≡ ""). cons-ne-nil "/" path (sym (slash_append path) ∙ f))

log_again :
    (c : LogConfig) → LogChecked (log_defaults c) → log_defaults (log_defaults c) ≡ log_defaults c
log_again c v = ground (arith, eq_iff c.level "", eq_iff c.format "")

pub IsChecked-with_defaults :
    (exists : String → Bool) (c : Config) → IsChecked exists c → IsChecked exists (with_defaults c)
unfolding http_defaults slashed
IsChecked-with_defaults exists c v = record {
  http = record { host = v.http.host; port = v.http.port; tls = v.http.tls };
  kms = v.kms;
  downstream = record {
    scheme = v.downstream.scheme;
    port = v.downstream.port;
    path = slashed-given c.downstream.http_path v.downstream.path;
  };
  log = subst LogChecked (sym (log_again c.log v.log)) v.log;
}

pub with_defaults_twice :
    (exists : String → Bool) (c : Config)
    → IsChecked exists c
    → with_defaults (with_defaults c) ≡ with_defaults c
unfolding slashed
with_defaults_twice exists c v =
    cc (http_twice c.http, slashed_twice c.downstream.http_path, log_again c.log v.log)
