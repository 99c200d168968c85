-- ===== src/Cli/Run/Laws.antt =====
-- When the process listens, and on what.
use web3signer_go.Base.{
  ◌↔◌, ap₂, Result-cases, sym, err, inr, eq_iff, arith, ap, inl, ◌∙◌, str_eq, subst, Bool-cases,
  ◌≢◌, Result, ok, some, ◌⊎◌, show_ℤ, String, ◌≡◌, ◌+++◌, refl,
}
use web3signer_go.Config.Whole.{Config, validate}
use web3signer_go.Config.Laws.{
  IsChecked, with_defaults, validate_iff, IsChecked-with_defaults, with_defaults_twice,
}
use web3signer_go.Server.Engine.{Engine}
use web3signer_go.Server.Builder.{Outside}
use web3signer_go.Server.Builder.Laws.{Assembled}
use web3signer_go.Server.Lifecycle.{
  HttpServer, Server, Listening, listens_tls, listens_plain, new_server, start,
}
use web3signer_go.Server.Lifecycle.Laws.{server_of, checked, new_server_iff}
use web3signer_go.Cli.Run.{waits, run}

module _ {W : Type 0} where
  -- What the server of a configuration listens on.
  abbrev pub listener : Config → Engine W → HttpServer W
  listener c engine = record {
    addr = c.http.host +++ (":" +++ show_ℤ c.http.port);
    handler = engine;
    read_header_timeout = 5;
  }

  -- With TLS where the configuration has a certificate.
  abbrev pub ListensFor : Config → Engine W → Listening W → Type 0
  ListensFor c engine listening =
      ((c.http.tls_cert_file ≡ "") × (listening ≡ listens_plain (listener c engine)))
      ⊎ ((c.http.tls_cert_file ≢ "")
          × (listening ≡ listens_tls c.http.tls_cert_file c.http.tls_key_file (listener c engine)))

  ListensFor-unique :
      (c : Config) (engine : Engine W) (x y : Listening W)
      → ListensFor c engine x
      → ListensFor c engine y
      → x ≡ y
  ListensFor-unique c engine x y (inl (bare, e)) (inl (bare', e')) = e ∙ sym e'
  ListensFor-unique c engine x y (inl (bare, e)) (inr (given, e')) = absurd (given bare)
  ListensFor-unique c engine x y (inr (given, e)) (inl (bare, e')) = absurd (given bare)
  ListensFor-unique c engine x y (inr (given, e)) (inr (given', e')) = e ∙ sym e'

  module _ (o : Outside W) (fresh now : String) where
    start-server_of :
        (c : Config) (engine : Engine W)
        → ((start (server_of o fresh now c engine)).0
            ≡ record (server_of o fresh now c engine) { server = some (listener c engine) })
          × ListensFor c engine (start (server_of o fresh now c engine)).1
    unfolding start
    start-server_of c engine = elim (Bool-cases (str_eq c.http.tls_cert_file "")) [
      | inl bare ↦ (refl, inl (ground (arith, eq_iff c.http.tls_cert_file ""), ground arith))
      | inr given ↦
          (refl, inr ((λ e. ground (arith, eq_iff c.http.tls_cert_file "")), ground arith))
    ]

    abbrev pub Running : Config → Server W → Listening W → Type 0
    Running c s listening =
        (engine : Engine W) × Assembled o fresh now c engine
        × (s ≡ record (server_of o fresh now c engine) { server = some (listener c engine) })
        × ListensFor c engine listening

    -- A configuration that is checked once more is the same.
    again :
        (given : Config)
        → IsChecked o.exists given
        → (s : Server W) → new_server o fresh now (with_defaults given) ≡ ok s
        → (engine : Engine W) × Assembled o fresh now (with_defaults given) engine
          × (s ≡ server_of o fresh now (with_defaults given) engine)
    again given v s h =
        let (engine, a, same) = ((new_server_iff o fresh now (with_defaults given) s).0 h).1 in
        let twice = with_defaults_twice o.exists given v in
        (
          engine,
          subst (λ c. Assembled o fresh now c engine) twice a,
          same ∙ ap (λ c. server_of o fresh now c engine) twice,
        )

    Running-start :
        (c : Config) (engine : Engine W)
        → Assembled o fresh now c engine
        → Running c
            (start (server_of o fresh now c engine)).0
            (start (server_of o fresh now c engine)).1
    Running-start c engine a =
        let (started, listens) = start-server_of c engine in (engine, a, started, listens)

    run-launch :
        (given c : Config) (s : Server W)
        → validate o.exists given ≡ ok c
        → new_server o fresh now c ≡ ok s
        → run o fresh now (ok given) ≡ waits (start s).0 (start s).1
    unfolding run
    run-launch given c s v n = rw (v, n, run) refl

    run-split :
        (loaded : Result String Config) (s : Server W) (listening : Listening W)
        → run o fresh now loaded ≡ waits s listening
        → (given : Config) × (c : Config) × (built : Server W) × (loaded ≡ ok given)
          × (validate o.exists given ≡ ok c)
          × (new_server o fresh now c ≡ ok built)
          × ((start built).0 ≡ s)
          × ((start built).1 ≡ listening)
    unfolding run
    run-split (err e) s listening h = absurd (ground arith)
    run-split (ok given) s listening h = elim (Result-cases (validate o.exists given)) [
      | inr (e, bad) ↦ absurd (ground arith)
      | inl (c, v) ↦ elim (Result-cases (new_server o fresh now c)) [
        | inr (e, bad) ↦ absurd (ground arith)
        | inl (built, n) ↦
            let launched = sym (run-launch given c built v n) ∙ h in
            (given, c, built, refl, v, n, ground arith, ground arith)
      ]
    ]

    run-Running :
        (loaded : Result String Config) (s : Server W) (listening : Listening W)
        → run o fresh now loaded ≡ waits s listening
        → (given : Config) × (loaded ≡ ok given)
          × IsChecked o.exists given
          × Running (with_defaults given) s listening
    run-Running loaded s listening h =
        let (given, c, built, loaded_is, c_is, built_is, s_is, listening_is) =
          run-split loaded s listening h in
        let (v, same) = (validate_iff o.exists given c).0 c_is in
        let (engine, a, whole) =
          again given v built (subst (λ x. new_server o fresh now x ≡ ok built) same built_is) in
        (
          given,
          loaded_is,
          v,
          subst (λ x. Running (with_defaults given) x listening) s_is
              (subst (λ x. Running (with_defaults given) (start built).0 x) listening_is
                (subst (λ x. Running (with_defaults given) (start x).0 (start x).1) (sym whole)
                  (Running-start (with_defaults given) engine a))),
        )

    -- The check in Build passes on what has passed before.
    new_server-again :
        (given : Config) (engine : Engine W)
        → IsChecked o.exists given
        → Assembled o fresh now (with_defaults given) engine
        → new_server o fresh now (with_defaults given)
          ≡ ok (server_of o fresh now (with_defaults given) engine)
    new_server-again given engine v a =
        let twice = with_defaults_twice o.exists given v in
        (new_server_iff o fresh now (with_defaults given)
            (server_of o fresh now (with_defaults given) engine)).1
          (
            IsChecked-with_defaults o.exists given v,
            (
              engine,
              subst (λ c. Assembled o fresh now c engine) (sym twice) a,
              ap (λ c. server_of o fresh now c engine) (sym twice),
            ),
          )

    Running-run :
        (given : Config) (s : Server W) (listening : Listening W)
        → IsChecked o.exists given
        → Running (with_defaults given) s listening
        → run o fresh now (ok given) ≡ waits s listening
    Running-run given s listening v (engine, a, s_is, listens) =
        let c = with_defaults given in
        let (started, same) = start-server_of c engine in
        run-launch given c (server_of o fresh now c engine) (checked o.exists given v)
          (new_server-again given engine v a)
        ∙ ap₂ waits (started ∙ sym s_is) (ListensFor-unique c engine _ listening same listens)

    -- The process comes to listen exactly when viper gives a configuration that passes its
    -- checks and the node answers; the server is that of the configuration with its defaults,
    -- which the second check in Build leaves as it is, and listens on the configured host and
    -- port, with TLS and the two files of the configuration exactly where a certificate is
    -- given.
    pub run_iff :
        (loaded : Result String Config) (s : Server W) (listening : Listening W)
        → (run o fresh now loaded ≡ waits s listening) ↔ (
            (given : Config) × (loaded ≡ ok given)
            × IsChecked o.exists given
            × Running (with_defaults given) s listening)
    run_iff loaded s listening = (
      run-Running loaded s listening,
      (λ (given, loaded_is, v, running).
          ap (run o fresh now) loaded_is ∙ Running-run given s listening v running),
    )
