-- ===== src/Router/Batch/Places.antt =====
-- Where an index of the batch is: not yet fed, in the channel, with a worker, or answered.
use web3signer_go.Base.{
  leb, ◌==◌, if◌then◌else◌, length, get_elem?, set, replicate, All, ℕ, zero, suc, ◌+◌, ◌≤◌, ◌<◌,
  ◌≡◌, refl, Option, none, some, List, [], ◌∷◌, ◌++◌, arith, ◌≢◌,
}
use web3signer_go.Jsonrpc.Types.{Response}
use web3signer_go.Router.Batch.{Worker, waiting, received, routing, stopped, Pool}

abbrev pub one_if : ℕ → ℕ → ℕ
one_if i j = if i == j then 1 else 0

abbrev pub holds : ℕ → Worker → ℕ
holds i waiting = 0
holds i (received j) = one_if i j
holds i (routing j) = one_if i j
holds i stopped = 0

unfoldable pub held : ℕ → List Worker → ℕ
held i [] = 0
held i (worker ∷ rest) = holds i worker + held i rest

unfoldable pub queued : ℕ → List ℕ → ℕ
queued i [] = 0
queued i (j ∷ rest) = one_if i j + queued i rest

abbrev pub is_filled : Option (Option Response) → ℕ
is_filled none = 0
is_filled (some none) = 0
is_filled (some (some resp)) = 1

abbrev pub filled : ℕ → List (Option Response) → ℕ
filled i responses = is_filled (get_elem? responses i)

abbrev pub unfed : ℕ → ℕ → ℕ
unfed i fed = if leb fed i then 1 else 0

abbrev pub places : {W : Type 0} → ℕ → Pool W → ℕ
places i s = unfed i s.fed + queued i s.channel + held i s.workers + filled i s.responses

pub held-set :
    (i : ℕ) (workers : List Worker) (k : ℕ) (worker : Worker) {old : Worker}
    → get_elem? workers k ≡ some old
    → held i (set workers k worker) + holds i old ≡ held i workers + holds i worker
unfolding held
held-set i [] k worker e = absurd (ground arith)
held-set i (x ∷ xs) zero worker e = ground arith
held-set i (x ∷ xs) (suc k) worker e = omega (arith, held-set i xs k worker e)

pub holds-le-held :
    (i : ℕ) (workers : List Worker) (k : ℕ) {worker : Worker}
    → get_elem? workers k ≡ some worker
    → holds i worker ≤ held i workers
unfolding held
holds-le-held i [] k e = absurd (ground arith)
holds-le-held i (x ∷ xs) zero e = ground arith
holds-le-held i (x ∷ xs) (suc k) e = omega (arith, holds-le-held i xs k e)

-- Two workers that hold an index count twice.
pub held_twice :
    (i : ℕ) (workers : List Worker) (j k : ℕ) {a b : Worker}
    → get_elem? workers j ≡ some a
    → get_elem? workers k ≡ some b
    → j ≢ k
    → holds i a + holds i b ≤ held i workers
unfolding held
held_twice i [] j k p q ne = absurd (ground arith)
held_twice i (x ∷ xs) zero zero p q ne = absurd (ne refl)
held_twice i (x ∷ xs) zero (suc k) p q ne = ground (arith, holds-le-held i xs k q)
held_twice i (x ∷ xs) (suc j) zero p q ne = ground (arith, holds-le-held i xs j p)
held_twice i (x ∷ xs) (suc j) (suc k) p q ne =
    omega (arith, held_twice i xs j k p q (λ e. ne (omega arith)))

pub held-waiting : (i n : ℕ) → held i (replicate n waiting) ≡ 0
unfolding held
held-waiting i zero = refl
held-waiting i (suc n) = omega (arith, held-waiting i n)

pub held-stopped :
    (i : ℕ) (workers : List Worker) → All (λ worker. worker ≡ stopped) workers → held i workers ≡ 0
unfolding held
held-stopped i [] h = refl
held-stopped i (x ∷ xs) h = ground (arith, held-stopped i xs h.1)

pub queued-append : (i j : ℕ) (xs : List ℕ) → queued i (xs ++ j ∷ []) ≡ queued i xs + one_if i j
unfolding queued
queued-append i j [] = omega arith
queued-append i j (x ∷ xs) = omega (arith, queued-append i j xs)

pub queued-cons : (i j : ℕ) (xs : List ℕ) → queued i (j ∷ xs) ≡ one_if i j + queued i xs
unfolding queued
queued-cons i j xs = refl

pub filled-none : (i n : ℕ) → filled i (replicate n none) ≡ 0
filled-none i zero = refl
filled-none zero (suc n) = refl
filled-none (suc i) (suc n) = filled-none i n

pub filled-set :
    (i j : ℕ) (responses : List (Option Response)) (resp : Response)
    → j < length responses
    → filled i (set responses j (some resp)) ≡ (if i == j then 1 else filled i responses)
filled-set i j [] resp h = elim h [ ]
filled-set zero zero (x ∷ xs) resp h = refl
filled-set (suc i) zero (x ∷ xs) resp h = ground arith
filled-set zero (suc j) (x ∷ xs) resp h = ground arith
filled-set (suc i) (suc j) (x ∷ xs) resp h = ground (arith, filled-set i j xs resp (omega arith))

pub is_filled_iff :
    (o : Option (Option Response)) → is_filled o ≡ 1 → (resp : Response) × (o ≡ some (some resp))
is_filled_iff none h = absurd (omega arith)
is_filled_iff (some none) h = absurd (omega arith)
is_filled_iff (some (some resp)) h = (resp, refl)

pub is_filled-zero :
    (i : ℕ) (responses : List (Option Response))
    → i < length responses
    → filled i responses ≡ 0
    → get_elem? responses i ≡ some none
is_filled-zero i [] h e = elim h [ ]
is_filled-zero zero (none ∷ xs) h e = refl
is_filled-zero zero (some resp ∷ xs) h e = absurd (omega arith)
is_filled-zero (suc i) (x ∷ xs) h e = is_filled-zero i xs (omega arith) e
