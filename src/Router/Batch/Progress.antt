-- ===== src/Router/Batch/Progress.antt =====
-- RouteBatch comes to its end: every run is bounded, and no state before the end is stuck.
use web3signer_go.Base.{
  ◌∙◌, List-cases, if◌then◌else◌, length, get_elem?, set, replicate, All, ℕ, zero, suc, ◌+◌, ◌*◌,
  ◌-◌, ◌≤◌, ◌<◌, ◌≡◌, refl, ◌⊎◌, inl, inr, Bool, true, some, List, [], ◌∷◌, arith, get_elem?_of_lt,
  Bool-cases, length-append, ◌≢◌,
}
use native.Mathlib.Decide.{dec_lt}
use web3signer_go.Jsonrpc.Types.{Request}
use web3signer_go.Router.Node.{Libraries}
use web3signer_go.Router.Table.{Router}
use web3signer_go.Router.Batch.{
  Pool, Worker, waiting, received, routing, stopped, worker_count, start_pool, feed, become,
  receive, respond, Step, feeds, closes, receives, ends, breaks, begins, routes, panics, cancels,
  Run, here, next, IsFinal,
}
use web3signer_go.Router.Batch.Places.{holds-le-held}
use web3signer_go.Router.Batch.Invariant.{Inv, start-Inv, Run-Inv}

-- The steps that are left for an index or a worker.
abbrev load : Worker → ℕ
load waiting = 1
load (received i) = 3
load (routing i) = 2
load stopped = 0

loads : List Worker → ℕ
loads [] = 0
loads (worker ∷ rest) = load worker + loads rest

loads-set :
    (workers : List Worker) (k : ℕ) (worker : Worker) {old : Worker}
    → get_elem? workers k ≡ some old
    → loads (set workers k worker) + load old ≡ loads workers + load worker
unfolding loads
loads-set [] k worker e = absurd (ground arith)
loads-set (x ∷ xs) zero worker e = ground arith
loads-set (x ∷ xs) (suc k) worker e = omega (arith, loads-set xs k worker e)

loads-replicate : (n : ℕ) → loads (replicate n waiting) ≡ n
unfolding loads
loads-replicate zero = refl
loads-replicate (suc n) = omega (arith, loads-replicate n)

abbrev one_unless : Bool → ℕ
one_unless done = if done then 0 else 1

-- Some worker still runs, or all have left.
running_worker :
    (workers : List Worker)
    → All (λ worker. worker ≡ stopped) workers
      ⊎ ((k : ℕ) × (worker : Worker) × (get_elem? workers k ≡ some worker) × (worker ≢ stopped))
running_worker [] = inl tt
running_worker (stopped ∷ xs) = elim (running_worker xs) [
  | inl all ↦ inl (refl, all)
  | inr (k, worker, e, ne) ↦ inr (suc k, worker, e, ne)
]
running_worker (waiting ∷ xs) = inr (0, waiting, refl, λ e. cc)
running_worker (received i ∷ xs) = inr (0, received i, refl, λ e. cc)
running_worker (routing i ∷ xs) = inr (0, routing i, refl, λ e. cc)

module _ (libs : Libraries) {W : Type 0} (r : Router W) (reqs : List Request) where
  pub measure : Pool W → ℕ
  measure s =
      4 * (length reqs - s.fed)
      + 3 * length s.channel
      + loads s.workers
      + one_unless s.closed
      + one_unless s.cancelled

  Step-measure : {s t : Pool W} → Step libs r reqs s t → measure t < measure s
  unfolding measure feed become receive respond
  Step-measure {s} (feeds lt e) = rw e (omega (arith, length-append s.channel (s.fed ∷ [])))
  Step-measure (closes all c e) = rw e (ground arith)
  Step-measure {s} (receives k i rest p q e) =
      rw e (ground (arith, loads-set s.workers k (received i) p))
  Step-measure {s} (ends k p q c e) = rw e (omega (arith, loads-set s.workers k stopped p))
  Step-measure {s} (breaks k i p c e) = rw e (omega (arith, loads-set s.workers k stopped p))
  Step-measure {s} (begins k i p c e) = rw e (omega (arith, loads-set s.workers k (routing i) p))
  Step-measure {s} (routes k i req p q e) = rw e (omega (arith, loads-set s.workers k waiting p))
  Step-measure {s} (panics k i req w p q e) = rw e (omega (arith, loads-set s.workers k waiting p))
  Step-measure (cancels c e) = rw e (ground arith)

  abbrev pub steps : {s t : Pool W} → Run libs r reqs s t → ℕ
  steps here = 0
  steps (next run step) = suc (steps run)

  steps-measure : {s t : Pool W} (run : Run libs r reqs s t) → steps run + measure t ≤ measure s
  steps-measure here = omega arith
  steps-measure (next run step) = omega (arith, steps-measure run, Step-measure step)

  -- A run of the goroutines of RouteBatch has at most four steps for each request, one for
  -- each worker, and two more.
  pub route_batch_bounded :
      (cancelled : Bool) (w : W) {t : Pool W}
      (run : Run libs r reqs (start_pool cancelled reqs w) t)
      → steps run ≤ 4 * length reqs + worker_count reqs + 2
  unfolding start_pool measure
  route_batch_bounded cancelled w run =
      ground (arith, steps-measure run, loads-replicate (worker_count reqs))

  -- A step of the feeder or of a worker.
  abbrev Goes : Pool W → Type 0
  Goes s = (t : Pool W) × Step libs r reqs s t × (t.cancelled ≡ s.cancelled)

  worker-Goes :
      (s : Pool W) (k : ℕ) (worker : Worker)
      → get_elem? s.workers k ≡ some worker
      → worker ≢ stopped
      → s.closed ≡ true
      → Inv libs r reqs s
      → Goes s
  unfolding become receive respond
  worker-Goes s k stopped p ne c v = absurd (ne refl)
  worker-Goes s k waiting p ne c v = elim (List-cases s.channel) [
    | inl q ↦ (become k stopped s, ends k p q c refl, refl)
    | inr (i, rest, q) ↦ (receive k i rest s, receives k i rest p q refl, refl)
  ]
  worker-Goes s k (received i) p ne c v = elim (Bool-cases s.cancelled) [
    | inl q ↦ (become k stopped s, breaks k i p q refl, refl)
    | inr q ↦ (become k (routing i) s, begins k i p q refl, refl)
  ]
  worker-Goes s k (routing i) p ne c v =
      let (req, q) =
        get_elem?_of_lt reqs i
          (ground (arith, v.once i, v.fed_le, holds-le-held i s.workers k p)) in
      (_, routes k i req p q refl, refl)

  goes : (s : Pool W) → Inv libs r reqs s → IsFinal libs r reqs s ⊎ Goes s
  unfolding feed
  goes s v = elim (Bool-cases s.closed) [
    | inl c ↦ elim (running_worker s.workers) [
      | inl all ↦ inl (c, all)
      | inr (k, worker, p, ne) ↦ inr (worker-Goes s k worker p ne c v)
    ]
    | inr c ↦ elim (dec_lt s.fed (length reqs)) [
      | yes lt ↦ inr (feed s, feeds lt refl, refl)
      | no ge ↦ inr (record s { closed = true }, closes (omega (arith, v.fed_le)) c refl, refl)
    ]
  ]

  pub append_runs :
      {s t u : Pool W} → Run libs r reqs s t → Run libs r reqs t u → Run libs r reqs s u
  append_runs run here = run
  append_runs run (next more step) = next (append_runs run more) step

  -- From a state of a run the call can end, its context left as it is.
  abbrev pub Ends : Pool W → Type 0
  Ends s = (t : Pool W) × Run libs r reqs s t × IsFinal libs r reqs t × (t.cancelled ≡ s.cancelled)

  Ends-within : (fuel : ℕ) (s : Pool W) → measure s < fuel → Inv libs r reqs s → Ends s
  Ends-within zero s h v = elim h [ ]
  Ends-within (suc fuel) s h v = elim (goes s v) [
    | inl done ↦ (s, here, done, refl)
    | inr (t, step, same) ↦
        let (u, run, done, still) =
          Ends-within fuel t (omega (arith, Step-measure step))
            (Run-Inv libs r reqs (next here step) v) in
        (u, append_runs (next here step) run, done, still ∙ same)
  ]

  -- No state that the goroutines of RouteBatch reach is stuck: from each there is a run to the
  -- end of all of them that leaves the context as it is.
  pub route_batch-Ends :
      (cancelled : Bool) (w : W) (s : Pool W)
      → Run libs r reqs (start_pool cancelled reqs w) s
      → Ends s
  route_batch-Ends cancelled w s run =
      Ends-within (suc (measure s)) s (omega arith)
        (Run-Inv libs r reqs run (start-Inv libs r reqs cancelled w))
