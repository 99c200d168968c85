-- ===== src/Server/Lifecycle.antt =====
-- internal/server/server.go: the server around the engine, its start and its stop; and from
-- internal/server/builder.go the setters of the builder and the setup of the log.
pub mod Laws
use web3signer_go.Base.{
  ok, false, not, ◌&&◌, show_ℤ, Result, none, ℕ, str_eq, if◌then◌else◌, ◌>>=◌, some, ◌+++◌, Option,
  Bool, String,
}
use web3signer_go.Errors.Types.{GoError}
use web3signer_go.Config.Whole.{Config, validate, LogLevel, get_log_level, lower_is}
use web3signer_go.Server.Engine.{Engine}
use web3signer_go.Server.Builder.{Outside, build}

-- WithTLS and WithTLSAutoRedirect.
unfoldable pub with_tls : String → String → Config → Config
with_tls cert_file key_file c = record c {
  http = record c.http { tls_cert_file = cert_file; tls_key_file = key_file };
}

unfoldable pub with_tls_auto_redirect : Bool → Config → Config
with_tls_auto_redirect enable c = record c { http = record c.http { tls_auto_redirect = enable } }

pub data GinMode : Type 0 where
  debug_mode release_mode : GinMode

unfoldable pub gin_mode : Config → GinMode
gin_mode c = if str_eq c.log.level "debug" then debug_mode else release_mode

pub data Formatter : Type 0 where
  json_formatter : String → Formatter
  text_formatter : String → Bool → Formatter

unfoldable pub is_terminal : Config → Bool
is_terminal c = str_eq c.log.format "text" && str_eq c.log.level "debug"

-- A text formatter has its time format and ForceColors.
unfoldable pub create_log_formatter : Config → Formatter
unfolding is_terminal
create_log_formatter c =
    if lower_is c.log.format "json"
    then json_formatter "2006-01-02T15:04:05Z07:00"
    else if lower_is c.log.format "text"
    then text_formatter "2006-01-02 15:04:05" (is_terminal c)
    else text_formatter "2006-01-02 15:04:05" false

pub record ServerLog : Type 0 where
  pub level : LogLevel
  pub formatter : Formatter

unfoldable pub create_logger : Config → ServerLog
unfolding create_log_formatter
create_logger c = record { level = get_log_level c.log.level; formatter = create_log_formatter c }

-- http.Server, with its time-out in seconds.
pub record HttpServer (W : Type 0) : Type 0 where
  pub addr : String
  pub handler : Engine W
  pub read_header_timeout : ℕ

-- `server` is nil until the start.
pub record Server (W : Type 0) : Type 0 where
  pub config : Config
  pub router : Engine W
  pub logger : ServerLog
  pub kms_address : String
  pub server : Option (HttpServer W)

-- What the goroutine of a started server calls: ListenAndServeTLS with two files, or
-- ListenAndServe.
pub data Listening (W : Type 0) : Type 0 where
  listens_tls : String → String → HttpServer W → Listening W
  listens_plain : HttpServer W → Listening W

-- How that call ends: http.ErrServerClosed, any other error, or nil.
pub data ListenEnd : Type 0 where
  server_closed no_error : ListenEnd
  listen_error : GoError → ListenEnd

-- The error that is fatal to the process.
unfoldable pub fatal_end : ListenEnd → Option GoError
fatal_end (listen_error e) = some e
fatal_end server_closed = none
fatal_end no_error = none

module _ {W : Type 0} where
  -- New: Build leaves its defaults in the configuration that the server keeps.
  unfoldable pub new_server : Outside W → String → String → Config → Result String (Server W)
  unfolding create_logger
  new_server o fresh now given = do
    c ← validate o.exists given
    engine ← build o fresh now given
    ok (record {
      config = c;
      router = engine;
      logger = create_logger c;
      kms_address = c.kms.address;
      server = none;
    })

  abbrev http_server : Server W → HttpServer W
  http_server s = record {
    addr = s.config.http.host +++ (":" +++ show_ℤ s.config.http.port);
    handler = s.router;
    read_header_timeout = 5;
  }

  -- The server after Start, and what its goroutine does. The error is always nil.
  unfoldable pub start : Server W → Server W × Listening W
  start s = (
    record s { server = some (http_server s) },
    if not (str_eq s.config.http.tls_cert_file "")
        then listens_tls s.config.http.tls_cert_file s.config.http.tls_key_file (http_server s)
        else listens_plain (http_server s),
  )

  -- `shutdown` is http.Server.Shutdown under a context.
  unfoldable pub stop : (HttpServer W → W → Option GoError × W) → Server W → W → Option GoError × W
  stop shutdown s w = elim s.server [ none ↦ (none, w) | some http ↦ shutdown http w ]
