-- ===== src/Kms/Client/Polling.antt =====
-- The polling of a task, as rounds.
use web3signer_go.Base.{
  ◌+++◌, Result, ok, err, Result-cases, ℕ, zero, suc, ◌+◌, ◌-◌, ◌<◌, String, ◌≡◌, ap, subst, ◌∙◌,
  ◌↔◌, inl, inr, none, some, arith, pos, negsuc, neg, ℤ, ◌≢◌, show_ℤ, refl, ◌*◌, ◌/◌, ◌≤◌,
}
use web3signer_go.Errors.Types.{GoError, plain}
use web3signer_go.Kms.Types.{TaskResult}
use web3signer_go.Kms.Requests.{UrlCache}
use web3signer_go.Kms.Client.Rounds.{Round, Round-poll, poll-Round}
use web3signer_go.Kms.Client.{
  rounds, Network, max_attempts, poll, wait_loop, wait_for_task_completion,
}

-- In nanoseconds.
abbrev pub five_minutes : ℕ
five_minutes = 5 * 60 * 1000000000

-- n is how many whole intervals fit.
abbrev pub Fit : ℕ → ℕ → Type 0
Fit d n = (n * d ≤ five_minutes) × (five_minutes < suc n * d)

-- How many rounds an interval allows, and the number that the timeout error names.
abbrev pub Allows : ℤ → ℕ → ℤ → Type 0
Allows (pos d) n limit = Fit d n × (limit ≡ pos n)
Allows (negsuc d) n limit = (n ≡ 0) × ((m : ℕ) × Fit (suc d) m × (limit ≡ neg m))

Fit-quotient : (d : ℕ) → 0 < d → Fit d (300000000000 / d)
Fit-quotient d h = (grind arith, grind arith)

Allows-max_attempts : (i : ℤ) → i ≢ pos 0 → Allows i (rounds (max_attempts i)) (max_attempts i)
unfolding max_attempts
Allows-max_attempts (pos zero) h = absurd (h refl)
Allows-max_attempts (pos (suc d)) h = (Fit-quotient (suc d) (omega arith), refl)
Allows-max_attempts (negsuc d) h =
    (ground arith, (300000000000 / suc d, Fit-quotient (suc d) (omega arith), refl))

module _ {W : Type 0} (net : Network W) (endpoint task_id : String) (interval : ℤ) where
  -- `Waits n st st'`: n rounds from `st`, in each of which the task still waits, lead to `st'`.
  pub data Waits : ℕ → UrlCache × W → UrlCache × W → Type 0 where
    start : {st : UrlCache × W} → Waits 0 st st
    round :
        {n : ℕ} {st st₁ st₂ : UrlCache × W}
        → Round net endpoint task_id interval st (ok none) st₁
        → Waits n st₁ st₂
        → Waits (suc n) st st₂

  -- How `n` rounds from `st` can end: one of them with a finished task, or with an error (a task
  -- that failed or was rejected, a request that failed, a cancelled context), or none of them.
  pub data Ends (limit : ℤ)
      : ℕ → UrlCache × W → Result GoError TaskResult → UrlCache × W → Type 0 where
    finished :
        {n k : ℕ} {st mid st' : UrlCache × W} {r : TaskResult}
        → k < n
        → Waits k st mid
        → Round net endpoint task_id interval mid (ok (some r)) st'
        → Ends limit n st (ok r) st'
    broken :
        {n k : ℕ} {st mid st' : UrlCache × W} {e : GoError}
        → k < n
        → Waits k st mid
        → Round net endpoint task_id interval mid (err e) st'
        → Ends limit n st (err e) st'
    expired :
        {n : ℕ} {st st' : UrlCache × W}
        → Waits n st st'
        → Ends limit n st
            (err (plain ("task polling timeout after " +++ (show_ℤ limit +++ " attempts"))))
            st'

  Ends-Round :
      {limit : ℤ} {n : ℕ} {st st₁ st' : UrlCache × W} {got : Result GoError TaskResult}
      → Round net endpoint task_id interval st (ok none) st₁
      → Ends limit n st₁ got st'
      → Ends limit (suc n) st got st'
  Ends-Round e (finished lt ws h) = finished (omega arith) (round e ws) h
  Ends-Round e (broken lt ws h) = broken (omega arith) (round e ws) h
  Ends-Round e (expired ws) = expired (round e ws)

  wait_loop-Ends :
      (limit : ℤ) (n : ℕ) (st : UrlCache × W)
      → Ends limit n st
          (wait_loop net endpoint limit n task_id interval st).0
          (wait_loop net endpoint limit n task_id interval st).1
  unfolding wait_loop
  wait_loop-Ends limit zero st = expired start
  wait_loop-Ends limit (suc n) st =
      let p = poll net endpoint task_id interval st in
      elim (Result-cases p.0) [
        | inr (e, h) ↦
            rw (h, wait_loop)
              (broken (omega arith) start (poll-Round net endpoint task_id interval (ground arith)))
        | inl (some r, h) ↦
            rw (h, wait_loop)
              (finished (omega arith) start
                (poll-Round net endpoint task_id interval (ground arith)))
        | inl (none, h) ↦
            rw (h, wait_loop)
              (Ends-Round (poll-Round net endpoint task_id interval (ground arith))
                (wait_loop-Ends limit n p.1))
      ]

  wait_loop-Waits :
      (limit : ℤ) (m : ℕ) {n k : ℕ} {st mid : UrlCache × W}
      → Waits k st mid
      → k + m ≡ n
      → wait_loop net endpoint limit n task_id interval st
        ≡ wait_loop net endpoint limit m task_id interval mid
  unfolding wait_loop
  wait_loop-Waits limit m {st = st} start e =
      ap (λ n. wait_loop net endpoint limit n task_id interval st) (omega arith)
  wait_loop-Waits limit m {n = zero} (round e ws) h = absurd (omega arith)
  wait_loop-Waits limit m {n = suc n} (round e ws) h =
      let polled = Round-poll net endpoint task_id interval e in
      ground (arith, wait_loop-Waits limit m {n = n} ws (omega arith))

  wait_loop-last :
      (limit : ℤ) (n k : ℕ) {st mid : UrlCache × W}
      → Waits k st mid
      → k < n
      → (m : ℕ) × (wait_loop net endpoint limit n task_id interval st
          ≡ wait_loop net endpoint limit (suc m) task_id interval mid)
  wait_loop-last limit n k ws lt =
      (n - suc k, wait_loop-Waits limit (suc (n - suc k)) ws (omega arith))

  Ends-wait_loop :
      (limit : ℤ) (n : ℕ) {st st' : UrlCache × W} {got : Result GoError TaskResult}
      → Ends limit n st got st'
      → wait_loop net endpoint limit n task_id interval st ≡ (got, st')
  unfolding wait_loop
  Ends-wait_loop limit n (finished lt ws h) =
      let (m, e) = wait_loop-last limit n _ ws lt in
      let polled = Round-poll net endpoint task_id interval h in e ∙ ground arith
  Ends-wait_loop limit n (broken lt ws h) =
      let (m, e) = wait_loop-last limit n _ ws lt in
      let polled = Round-poll net endpoint task_id interval h in e ∙ ground arith
  Ends-wait_loop limit n (expired ws) = wait_loop-Waits limit 0 ws (omega arith)

  pub wait_for_task_completion-Ends :
      (nonzero : interval ≢ pos 0) (st st' : UrlCache × W) (got : Result GoError TaskResult)
      → (wait_for_task_completion net endpoint task_id interval nonzero st ≡ (got, st'))
        ↔ Ends (max_attempts interval) (rounds (max_attempts interval)) st got st'
  unfolding wait_for_task_completion
  wait_for_task_completion-Ends nonzero st st' got = (
    (λ h.
        subst (λ p. Ends (max_attempts interval) (rounds (max_attempts interval)) st p.0 p.1) h
          (wait_loop-Ends _ _ st)),
    (λ h. Ends-wait_loop _ _ h),
  )

  -- At an interval other than 0 the polling of a task gives an outcome exactly when the rounds
  -- that the interval allows end in it: as many as whole intervals fit into five minutes, and
  -- none for a negative interval. A round lets the interval pass and fails where the context
  -- ends or the task cannot be read; otherwise a task that is pending or approved goes on, one
  -- that is done finishes, with an error where it has a response that holds no signature, and
  -- a failed, rejected or unknown one is an error. After the last round the outcome is the
  -- timeout error.
  pub wait_for_task_completion_iff :
      (nonzero : interval ≢ pos 0) (st st' : UrlCache × W) (got : Result GoError TaskResult)
      → (n : ℕ) × (limit : ℤ) × Allows interval n limit
        × ((wait_for_task_completion net endpoint task_id interval nonzero st ≡ (got, st'))
            ↔ Ends limit n st got st')
  wait_for_task_completion_iff nonzero st st' got = (
    rounds (max_attempts interval),
    max_attempts interval,
    Allows-max_attempts interval nonzero,
    wait_for_task_completion-Ends nonzero st st' got,
  )
