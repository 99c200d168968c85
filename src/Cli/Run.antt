-- ===== src/Cli/Run.antt =====
-- cmd/web3signer/root.go: the configuration, the start of the server, and its stop on a signal.
pub mod Laws
use web3signer_go.Base.{
  str_eq, some, ◌+++◌, ok, not, Option, err, if◌then◌else◌, ◌>>=◌, none, [], List, Result, ◌∷◌,
  String,
}
use web3signer_go.Errors.Types.{GoError}
use web3signer_go.Config.Whole.{Config, validate}
use web3signer_go.Server.Builder.{Outside}
use web3signer_go.Server.Lifecycle.{HttpServer, Server, Listening, new_server, start, stop}

-- Where viper looks for the configuration: a file, or a name and a type in directories.
pub data Search : Type 0 where
  config_file : String → Search
  config_in : List String → String → String → Search

-- What viper is told: the prefix of the environment variables, and the pairs of the replacer.
pub record Settings : Type 0 where
  pub search : Search
  pub env_prefix : String
  pub env_key_replacer : List (String × String)

abbrev settings : Search → Settings
settings search = record {
  search = search;
  env_prefix = "WEB3SIGNER";
  env_key_replacer = (".", "_") ∷ ("-", "_") ∷ [];
}

-- `home` is os.UserHomeDir. A configuration file that cannot be read is passed over.
unfoldable pub init_config : String → Result String String → Result String Settings
init_config cfg_file home =
    if not (str_eq cfg_file "")
    then ok (settings (config_file cfg_file))
    else (home >>= λ dir. ok (settings (config_in (dir ∷ "." ∷ []) ".web3signer" "yaml")))

-- A process ends with status 1 and a text, or waits for a signal while its server listens.
pub data Outcome (W : Type 0) : Type 0 where
  exits : String → Outcome W
  waits : Server W → Listening W → Outcome W

module _ {W : Type 0} (o : Outside W) where
  abbrev launch : Server W → Outcome W
  launch s = let (started, listening) = start s in waits started listening

  abbrev serve : Result String (Server W) → Outcome W
  serve (err e) = exits e
  serve (ok s) = launch s

  -- `loaded` is what viper.Unmarshal gives; the configuration is checked here and in Build.
  unfoldable pub run : String → String → Result String Config → Outcome W
  unfolding start
  run fresh now loaded = elim loaded [
    | err e ↦ exits ("Failed to load configuration: " +++ e)
    | ok given ↦ elim (validate o.exists given) [
      | err e ↦ exits ("Configuration error: " +++ e)
      | ok c ↦ serve (new_server o fresh now c)
    ]
  ]

-- What is printed after the signal, on standard output and on standard error.
pub data Printed : Type 0 where
  output complaint : String → Printed

abbrev farewell : (GoError → String) → Option GoError → List Printed
farewell text (some e) = complaint ("Error during shutdown: " +++ text e) ∷ []
farewell text none = output "Server shutdown complete" ∷ []

module _ {W : Type 0} where
  -- `shutdown` runs under a context that ends after 30 seconds.
  unfoldable pub wait_for_interrupt :
      (GoError → String)
      → (HttpServer W → W → Option GoError × W)
      → String
      → Server W
      → W
      → List Printed × W
  unfolding stop
  wait_for_interrupt text shutdown signal s w =
      let (failed, w') = stop shutdown s w in
      (
        output ("Received signal: " +++ (signal +++ ". Shutting down...")) ∷ farewell text failed,
        w',
      )
