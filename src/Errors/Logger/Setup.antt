-- ===== src/Errors/Logger/Setup.antt =====
-- internal/errors/logger.go: the setup of the logrus logger that the loggers of a process share,
-- and the methods that pass their arguments on to it.
pub mod Laws
use web3signer_go.Base.{
  ◌∷◌, [], ◌++◌, if◌then◌else◌, none, ◌>>=◌, arith, ok, ◌+++◌, err, some, ◌>>=◌, map_err, false,
  ◌≡◌, Result, Option, ℕ, Bool, true, String,
}
use web3signer_go.Config.Whole.{lower_is}
use web3signer_go.Errors.Logger.{Store, StructuredLogger, LogLevel}

pub record LoggerConfig : Type 0 where
  pub level : String
  pub format : String
  pub output : String
  pub enable_caller : Bool
  pub enable_trace : Bool

abbrev pub default_logger_config : LoggerConfig
default_logger_config = record {
  level = "info";
  format = "json";
  output = "stdout";
  enable_caller = true;
  enable_trace = false;
}

-- Both write times in RFC 3339 with nanoseconds; the JSON one may name the caller.
pub data Formatter : Type 0 where
  json_formatter : Bool → Formatter
  text_formatter : Formatter

unfoldable pub create_formatter : String → Bool → Bool → Result String Formatter
create_formatter format enable_caller enable_trace =
    if lower_is format "json"
    then ok (json_formatter enable_caller)
    else if lower_is format "text"
    then ok text_formatter
    else err ("unsupported log format: " +++ format)

-- The calls of the setup: logrus.ParseLevel, and os.OpenFile for appending, which gives the number
-- of a file. What opening a file changes is the state `W`.
pub record Setup (W : Type 0) : Type 0 where
  pub parse_level : String → Result String LogLevel
  pub open_file : String → W → Result String ℕ × W

pub data Output : Type 0 where
  stdout stderr : Output
  file : ℕ → Output

pub record Logrus : Type 0 where
  pub level : LogLevel
  pub formatter : Formatter
  pub output : Output

abbrev config_or_default : Option LoggerConfig → LoggerConfig
config_or_default none = default_logger_config
config_or_default (some c) = c

module _ {W : Type 0} (setup : Setup W) where
  abbrev opened : String → Result String ℕ → Result String Output
  opened output got =
      map_err (λ e. "failed to open log file " +++ (output +++ (": " +++ e))) got >>= λ n.
      ok (file n)

  unfoldable pub create_output : String → W → Result String Output × W
  create_output output w =
      if lower_is output "stdout"
      then (ok stdout, w)
      else if lower_is output "stderr"
      then (ok stderr, w)
      else (let (got, w') = setup.open_file output w in (opened output got, w'))

  abbrev level_of : String → Result String LogLevel
  level_of level =
      map_err (λ e. "invalid log level " +++ (level +++ (": " +++ e))) (setup.parse_level level)

  abbrev formatter_of : String → Bool → Bool → Result String Formatter
  formatter_of format enable_caller enable_trace =
      map_err (λ e. "failed to create formatter: " +++ e)
        (create_formatter format enable_caller enable_trace)

  abbrev output_of : String → W → Result String Output × W
  output_of output w =
      let (got, w') = create_output output w in
      (map_err (λ e. "failed to create output: " +++ e) got, w')

  -- Each method changes the logger, or gives an error and leaves it.
  unfoldable pub set_level : String → Logrus → Result String Logrus
  set_level level l = level_of level >>= λ x. ok (record l { level = x })

  unfoldable pub set_formatter : String → Logrus → Result String Logrus
  unfolding create_formatter
  set_formatter format l = formatter_of format true false >>= λ x. ok (record l { formatter = x })

  unfoldable pub set_output : String → Logrus → W → Result String Logrus × W
  unfolding create_output
  set_output output l w =
      let (got, w') = output_of output w in (got >>= λ x. ok (record l { output = x }), w')

  -- The logrus logger of NewLogger: `fresh` is what logrus.New gives.
  unfoldable pub setup_logger : Logrus → Option LoggerConfig → W → Result String Logrus × W
  unfolding create_formatter create_output
  setup_logger fresh given w =
      let c = config_or_default given in
      elim (level_of c.level) [
        | err e ↦ (err e, w)
        | ok level ↦ elim (formatter_of c.format c.enable_caller c.enable_trace) [
          | err e ↦ (err e, w)
          | ok formatter ↦
              let (got, w') = output_of c.output w in
              (
                got >>= λ out. ok (record { level = level; formatter = formatter; output = out }),
                w',
              )
        ]
      ]

-- Debug to Panic and Debugf to Panicf: the text alone, without the fields of the logger.
unfoldable pub log_text : LogLevel → String → StructuredLogger → Store → Store
log_text level text l st = record st {
  calls = st.calls ++ record { level = level; message = text; fields = [] } ∷ [];
}
