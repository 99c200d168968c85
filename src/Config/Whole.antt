-- ===== src/Config/Whole.antt =====
-- internal/config/config.go and constants.go: the log and authentication sections, Config.Validate
-- and the URL of the node; internal/server/server.go: getLogLevel.
use web3signer_go.Base.{
  ◌++◌, leb, ◌==◌, if◌then◌else◌, pos, ltb_ℤ, str_eq, ◌+++◌, runes, show_ℤ, Result, ok, ◌>>=◌, ◌>>◌,
  fail_if, ℕ, ◌+◌, String, Bool, false, not, ◌&&◌, ◌||◌, Option, none, some, List, [], ◌∷◌, map,
  show_ℤ,
}
use web3signer_go.Config.{
  HttpConfig, validate_http, KmsConfig, validate_kms, DownstreamConfig, validate_downstream,
}
use web3signer_go.Server.Auth.{same_bytes}

pub record LogConfig : Type 0 where
  pub level : String
  pub format : String

pub record AuthConfig : Type 0 where
  pub enabled : Bool
  pub secret : String
  pub whitelist : List String

pub record Config : Type 0 where
  pub http : HttpConfig
  pub kms : KmsConfig
  pub downstream : DownstreamConfig
  pub log : LogConfig
  pub auth : AuthConfig

-- unicode.ToLower, as far as the result is an ASCII letter: upper case letters, and the two others
-- whose lower case is one, U+0130 with i and U+212A with k.
unfoldable pub lower_rune : ℕ → ℕ
lower_rune c =
    if leb b'A' c && leb c b'Z'
    then c + 32
    else if c == 0x130
    then b'i'
    else if c == 0x212a
    then b'k'
    else c

-- `strings.ToLower(s) == t`, for a text t in ASCII.
unfoldable pub lower_is : String → String → Bool
unfolding same_bytes runes lower_rune
lower_is s t = same_bytes (map lower_rune (runes s)) (runes t)

unfoldable pub is_one_of : String → List String → Bool
unfolding lower_is
is_one_of s [] = false
is_one_of s (t ∷ ts) = lower_is s t || is_one_of s ts

abbrev pub valid_log_levels : List String
valid_log_levels = "debug" ∷ "info" ∷ "warn" ∷ "error" ∷ "fatal" ∷ []

abbrev pub valid_log_formats : List String
valid_log_formats = "json" ∷ "text" ∷ []

abbrev pub default_log_level : String
default_log_level = "info"

abbrev pub default_log_format : String
default_log_format = "text"

abbrev pub or_else : String → String → String
or_else default s = if str_eq s "" then default else s

unfoldable pub validate_log : LogConfig → Result String LogConfig
unfolding is_one_of
validate_log c = do
  fail_if (not (is_one_of c.level valid_log_levels))
      ("log-level must be one of: debug, info, warn, error, fatal, got: " +++ c.level)
  let format = or_else default_log_format c.format
  fail_if (not (is_one_of format valid_log_formats))
      ("log-format must be one of: json, text, got: " +++ format)
  ok (record c { format = format })

unfoldable pub validate_auth : AuthConfig → Result String AuthConfig
validate_auth c = do
  fail_if (c.enabled && str_eq c.secret "") "auth-secret is required when auth is enabled"
  ok c

-- Config.Validate, which changes the sections in place: where a check fails the process ends, so
-- that only the configuration of a success is kept.
unfoldable pub validate : (String → Bool) → Config → Result String Config
unfolding validate_http validate_kms validate_downstream validate_log
validate exists c = do
  http ← validate_http exists c.http
  kms ← validate_kms c.kms
  downstream ← validate_downstream c.downstream
  log ← validate_log (record c.log { level = or_else default_log_level c.log.level })
  ok (record { http = http; kms = kms; downstream = downstream; log = log; auth = c.auth })

-- strings.TrimSuffix(s, "/"), on the code points.
unfoldable pub trim_slash : List ℕ → List ℕ
trim_slash [] = []
trim_slash (c ∷ []) = if c == b'/' then [] else c ∷ []
trim_slash (c ∷ d ∷ s) = c ∷ trim_slash (d ∷ s)

abbrev has_no_port : Option String → Bool
has_no_port none = false
has_no_port (some port) = str_eq port ""

-- BuildURL on the code points. `port_of` is url.Parse with Port: `none` where the text is no URL,
-- and the empty text where the URL has no port.
unfoldable pub build_url : (String → Option String) → DownstreamConfig → List ℕ
unfolding trim_slash runes
build_url port_of c =
    (if ltb_ℤ (pos 0) c.http_port && has_no_port (port_of c.http_host)
      then trim_slash (runes c.http_host) ++ (b':' ∷ runes (show_ℤ c.http_port))
      else runes c.http_host)
    ++ runes c.http_path

pub data LogLevel : Type 0 where
  debug info warn error fatal : LogLevel

unfoldable pub get_log_level : String → LogLevel
get_log_level level =
    if str_eq level "debug"
    then debug
    else if str_eq level "info"
    then info
    else if str_eq level "warn"
    then warn
    else if str_eq level "error"
    then error
    else if str_eq level "fatal"
    then fatal
    else info
