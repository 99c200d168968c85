-- ===== src/Cli/Flags.antt =====
-- cmd/web3signer/flags.go: the table of the flags and their registration.
pub mod Laws
use web3signer_go.Base.{
  if◌then◌else◌, ℤ, pos, ◌+++◌, Result, ok, err, String, Bool, true, false, Option, none, some,
  List, [], ◌∷◌, ◌++◌, ◌>>=◌, ◌>>◌,
}

-- The dynamic types of a default value; `unsupported` names any other.
pub data Default : Type 0 where
  text : String → Default
  int int64 : ℤ → Default
  switch : Bool → Default
  texts : List String → Default
  unsupported : String → Default

pub record Flag : Type 0 where
  pub name : String
  pub default_value : Default
  pub description : String
  pub bind_to : String
  pub required : Bool

abbrev pub flags : List Flag
flags =
    record {
      name = "http-host";
      default_value = text "localhost";
      description = "HTTP server host";
      bind_to = "http.host";
      required = false;
    }
    ∷ record {
      name = "http-port";
      default_value = int (pos 9000);
      description = "HTTP server port";
      bind_to = "http.port";
      required = false;
    }
    ∷ record {
      name = "tls-cert-file";
      default_value = text "";
      description = "Path to TLS certificate file";
      bind_to = "http.tls-cert-file";
      required = false;
    }
    ∷ record {
      name = "tls-key-file";
      default_value = text "";
      description = "Path to TLS private key file";
      bind_to = "http.tls-key-file";
      required = false;
    }
    ∷ record {
      name = "tls-auto-redirect";
      default_value = switch false;
      description = "Auto redirect HTTP to HTTPS";
      bind_to = "http.tls-auto-redirect";
      required = false;
    }
    ∷ record {
      name = "http-max-request-size";
      default_value = int64 (pos 10);
      description = "Maximum request body size in MB (prevents DoS)";
      bind_to = "http.max-request-size-mb";
      required = false;
    }
    ∷ record {
      name = "cors-allowed-origins";
      default_value = texts [];
      description =
          "CORS allowed origins (comma-separated), use '*' to allow all origins, empty means localhost only";
      bind_to = "http.allowed-origins";
      required = false;
    }
    ∷ record {
      name = "kms-endpoint";
      default_value = text "";
      description = "MPC-KMS endpoint URL (required)";
      bind_to = "kms.endpoint";
      required = true;
    }
    ∷ record {
      name = "kms-access-key-id";
      default_value = text "";
      description = "MPC-KMS access key ID (required)";
      bind_to = "kms.access-key-id";
      required = true;
    }
    ∷ record {
      name = "kms-secret-key";
      default_value = text "";
      description = "MPC-KMS secret key (required)";
      bind_to = "kms.secret-key";
      required = true;
    }
    ∷ record {
      name = "kms-key-id";
      default_value = text "";
      description = "MPC-KMS key ID (required)";
      bind_to = "kms.key-id";
      required = true;
    }
    ∷ record {
      name = "kms-address";
      default_value = text "";
      description = "Ethereum address managed by MPC-KMS (required)";
      bind_to = "kms.address";
      required = true;
    }
    ∷ record {
      name = "downstream-http-host";
      default_value = text "http://localhost";
      description = "Downstream HTTP service host";
      bind_to = "downstream.http-host";
      required = false;
    }
    ∷ record {
      name = "downstream-http-port";
      default_value = int (pos 8545);
      description = "Downstream HTTP service port";
      bind_to = "downstream.http-port";
      required = false;
    }
    ∷ record {
      name = "downstream-http-path";
      default_value = text "/";
      description = "Downstream HTTP service path";
      bind_to = "downstream.http-path";
      required = false;
    }
    ∷ record {
      name = "log-level";
      default_value = text "info";
      description = "Log level (debug, info, warn, error, fatal)";
      bind_to = "log.level";
      required = false;
    }
    ∷ record {
      name = "log-format";
      default_value = text "text";
      description = "Log format (json or text)";
      bind_to = "log.format";
      required = false;
    }
    ∷ []

-- What the command has been told: its flags, the flag behind each key of viper, and the flags that
-- cobra wants on the command line.
pub record Command : Type 0 where
  pub flags : List (String × Default)
  pub bound : List (String × String)
  pub required : List String

-- viper.BindPFlag and cobra's MarkFlagRequired, as far as they fail.
pub record Binding : Type 0 where
  pub bind_failure : String → String → Option String
  pub mark_failure : String → Option String

module _ (b : Binding) where
  abbrev failed : Option String → String → Result String (Unit {0})
  failed none what = ok tt
  failed (some e) what = err (what +++ (": " +++ e))

  -- `cmd.Flags().String(…)` and its kin.
  abbrev pub declare : Default → String → Command → Result String Command
  declare (unsupported t) name c =
      err ("unsupported flag type: " +++ (t +++ (" for flag " +++ name)))
  declare d name c = ok (record c { flags = c.flags ++ (name, d) ∷ [] })

  abbrev pub bind : Flag → Command → Result String Command
  bind f c =
      failed (b.bind_failure f.bind_to f.name) ("failed to bind flag " +++ f.name)
      >> ok (record c { bound = c.bound ++ (f.bind_to, f.name) ∷ [] })

  abbrev pub mark : Flag → Command → Result String Command
  mark f c =
      if f.required
      then (failed (b.mark_failure f.name) ("failed to mark flag " +++ (f.name +++ " as required"))
          >> ok (record c { required = c.required ++ f.name ∷ [] }))
      else ok c

  unfoldable pub register_flag : Flag → Command → Result String Command
  register_flag f c = do c₁ ← declare f.default_value f.name c; c₂ ← bind f c₁; mark f c₂

  unfoldable pub register_flags : List Flag → Command → Result String Command
  unfolding register_flag
  register_flags [] c = ok c
  register_flags (f ∷ fs) c = register_flag f c >>= register_flags fs
