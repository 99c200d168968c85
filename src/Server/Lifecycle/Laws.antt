-- ===== src/Server/Lifecycle/Laws.antt =====
-- The server that is made from a configuration, and what it listens on.
use web3signer_go.Base.{subst, ap, >>=-eq-ok, ◌↔◌, sym, ok, ◌≡◌, none, Bool, String, refl}
use web3signer_go.Config.Whole.{Config, validate}
use web3signer_go.Config.Laws.{IsChecked, with_defaults, validate_iff}
use web3signer_go.Server.Engine.{Engine}
use web3signer_go.Server.Builder.{Outside, build}
use web3signer_go.Server.Builder.Laws.{Assembled, build_iff}
use web3signer_go.Server.Lifecycle.{create_logger, Server, new_server}

pub checked :
    (exists : String → Bool) (c : Config)
    → IsChecked exists c
    → validate exists c ≡ ok (with_defaults c)
checked exists c v = (validate_iff exists c (with_defaults c)).1 (v, refl)

module _ {W : Type 0} (o : Outside W) (fresh now : String) where
  -- A server that is not started.
  abbrev pub server_of : Config → Engine W → Server W
  server_of c engine = record {
    config = c;
    router = engine;
    logger = create_logger c;
    kms_address = c.kms.address;
    server = none;
  }

  pub new_server_iff :
      (given : Config) (s : Server W)
      → (new_server o fresh now given ≡ ok s) ↔ (
          IsChecked o.exists given
          × ((engine : Engine W) × Assembled o fresh now (with_defaults given) engine
              × (s ≡ server_of (with_defaults given) engine)))
  unfolding new_server
  new_server_iff given s = (to, from)
    where
      to :
          new_server o fresh now given ≡ ok s
          → IsChecked o.exists given
            × ((engine : Engine W) × Assembled o fresh now (with_defaults given) engine
                × (s ≡ server_of (with_defaults given) engine))
      to h =
          let (c, c_is, h₁) = >>=-eq-ok (validate o.exists given) _ h in
          let (v, same) = (validate_iff o.exists given c).0 c_is in
          let (engine, engine_is, h₂) = >>=-eq-ok (build o fresh now given) _ h₁ in
          (
            v,
            (
              engine,
              ((build_iff o fresh now given engine).0 engine_is).1,
              subst (λ x. s ≡ server_of x engine) same (cc h₂),
            ),
          )

      from :
          IsChecked o.exists given
            × ((engine : Engine W) × Assembled o fresh now (with_defaults given) engine
                × (s ≡ server_of (with_defaults given) engine))
          → new_server o fresh now given ≡ ok s
      from (v, (engine, a, same)) =
          rw (checked o.exists given v, (build_iff o fresh now given engine).1 (v, a))
            (ap ok (sym same))
