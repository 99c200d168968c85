-- ===== src/Errors/Logger/Setup/Laws.antt =====
-- The setup of a logger, at once and step by step.
use web3signer_go.Base.{arith, ◌>>=◌, some, ok, false, err, true, String, ◌≡◌, Result}
use web3signer_go.Errors.Logger.Setup.{
  LoggerConfig, Setup, Logrus, set_level, set_formatter, set_output, setup_logger,
}

module _ {W : Type 0} (setup : Setup W) where
  abbrev and_then :
      Result String Logrus → (Logrus → Result String Logrus × W) → W → Result String Logrus × W
  and_then (err e) next w = (err e, w)
  and_then (ok l) next w = next l

  -- NewLogger is the three methods one after the other, on a configuration that names the caller.
  pub setup_logger_lem :
      (fresh : Logrus) (c : LoggerConfig) (w : W)
      → c.enable_caller ≡ true
      → c.enable_trace ≡ false
      → setup_logger setup fresh (some c) w
        ≡ and_then
            (set_level setup c.level fresh >>= set_formatter setup c.format)
            (λ l. set_output setup c.output l w)
            w
  unfolding setup_logger set_level set_formatter set_output
  setup_logger_lem fresh c w caller trace = ground arith
