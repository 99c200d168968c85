-- ===== src/Cli/Tests.antt =====
-- The command line of the program, where viper and cobra take every flag, and its run.
use web3signer_go.Base.{String, Result, ◌↔◌, ℕ, arith, ◌≡◌, refl, ok, none, [], ◌∷◌, some}
use web3signer_go.Config.Laws.{IsChecked, with_defaults}
use web3signer_go.Config.Tests.{sample, exists}
use web3signer_go.Server.Lifecycle.{Server, Listening, listens_tls}
use web3signer_go.Server.Lifecycle.Laws.{server_of}
use web3signer_go.Server.Tests.Engines.{outside, checked_sample, built}
use web3signer_go.Cli.Run.{waits, run}
use web3signer_go.Cli.Run.Laws.{listener, Running, run_iff}
use web3signer_go.Config.Whole.{Config}
use web3signer_go.Cli.Flags.{flags, Binding, Command, register_flags}
use web3signer_go.Cli.Flags.Laws.{registered, register_flags_lem}

abbrev takes_all : Binding
takes_all = record { bind_failure = (λ key name. none); mark_failure = (λ name. none) }

abbrev empty : Command
empty = record { flags = []; bound = []; required = [] }

registers_all : register_flags takes_all flags empty ≡ ok (registered flags empty)
registers_all =
    register_flags_lem takes_all flags empty (omega arith) (λ key name. refl) (λ name. refl)

wants_kms :
    (registered flags empty).required
    ≡ "kms-endpoint" ∷ "kms-access-key-id" ∷ "kms-secret-key" ∷ "kms-key-id" ∷ "kms-address" ∷ []
wants_kms = refl

abbrev running : Server ℕ
running = record (server_of outside "f" "now" checked_sample built) {
  server = some (listener checked_sample built);
}

abbrev secure : Listening ℕ
secure = listens_tls "cert.pem" "key.pem" (listener checked_sample built)

abbrev loaded : Result String Config
loaded = ok sample

run_iff_example : (run outside "f" "now" (ok sample) ≡ waits running secure) ↔ (
    (given : Config) × (loaded ≡ ok given)
    × IsChecked exists given
    × Running outside "f" "now" (with_defaults given) running secure)
run_iff_example = run_iff outside "f" "now" loaded running secure
