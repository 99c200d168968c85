-- ===== src/Router/Batch/Invariant.antt =====
-- What every state of RouteBatch keeps, whatever the interleaving: an index is in one place, and a
-- response answers the request at its index.
use web3signer_go.Base.{
  ◌∙◌, get_elem?-replicate, none, length-replicate, subst, inr, inl, refl, Bool, get_elem?-set,
  lt_of_get_elem?, length-set, length, get_elem?, ℕ, ◌+◌, ◌≤◌, ◌<◌, ◌≡◌, ◌⊎◌, true, false, some,
  List, [], ◌∷◌, arith,
}
use web3signer_go.Jsonrpc.Types.{Request, Response}
use web3signer_go.Router.Node.{Libraries}
use web3signer_go.Router.Table.{Router, route}
use web3signer_go.Router.Batch.{
  cancels, here, panics, routes, begins, breaks, ends, receives, closes, next, feeds, Run, Step,
  start_pool, Worker, waiting, received, routing, stopped, Pool, worker_count, feed, become,
  receive, respond, processing_failed,
}
use web3signer_go.Router.Batch.Places.{
  filled-none, held-waiting, queued, holds, places, held-set, holds-le-held, queued-append,
  queued-cons, filled-set,
}

module _ (libs : Libraries) {W : Type 0} (r : Router W) (reqs : List Request) where
  -- The request is routed in some world, or its routing panics.
  abbrev pub Responds : Request → Response → Type 0
  Responds req resp =
      ((w : W) × (resp ≡ (route libs r (some req) w).0)) ⊎ (resp ≡ processing_failed req.id)

  abbrev pub Answered : ℕ → Response → Type 0
  Answered i resp = (req : Request) × (get_elem? reqs i ≡ some req) × Responds req resp

  pub record Inv (s : Pool W) : Type 0 where
    pub shape : length s.responses ≡ length reqs
    pub crew : length s.workers ≡ worker_count reqs
    pub fed_le : s.fed ≤ length reqs
    pub fed_all : s.closed ≡ true → s.fed ≡ length reqs
    pub once : (i : ℕ) → places i s ≤ 1
    pub kept : s.cancelled ≡ false → (i : ℕ) → places i s ≡ 1
    pub sound :
        (i : ℕ) (resp : Response) → get_elem? s.responses i ≡ some (some resp) → Answered i resp
    pub drained :
        s.cancelled ≡ false
        → (k : ℕ) → get_elem? s.workers k ≡ some stopped
        → (s.closed ≡ true) × (s.channel ≡ [])

  -- A step that moves no index and no response keeps the places.
  places-feed : (s : Pool W) (i : ℕ) → places i (feed s) ≡ places i s
  unfolding feed
  places-feed s i = ground (arith, queued-append i s.fed s.channel)

  places-become :
      (s : Pool W) (k : ℕ) (worker old : Worker) (i : ℕ)
      → get_elem? s.workers k ≡ some old
      → places i (become k worker s) + holds i old ≡ places i s + holds i worker
  unfolding become
  places-become s k worker old i e = omega (arith, held-set i s.workers k worker e)

  places-receive :
      (s : Pool W) (k j : ℕ) (rest : List ℕ) (i : ℕ)
      → get_elem? s.workers k ≡ some waiting
      → s.channel ≡ j ∷ rest
      → places i (receive k j rest s) ≡ places i s
  unfolding receive
  places-receive s k j rest i e q =
      rw q (omega (arith, held-set i s.workers k (received j) e, queued-cons i j rest))

  -- Where the index had no response before.
  places-respond :
      (s : Pool W) (k j : ℕ) (resp : Response) (w : W) (i : ℕ)
      → get_elem? s.workers k ≡ some (routing j)
      → j < length s.responses
      → places j s ≤ 1
      → places i (respond k j resp w s) ≡ places i s
  unfolding respond
  places-respond s k j resp w i e lt le = ground (
    arith,
    held-set i s.workers k waiting e,
    holds-le-held j s.workers k e,
    filled-set i j s.responses resp lt,
  )

  pub start-Inv : (cancelled : Bool) (w : W) → Inv (start_pool cancelled reqs w)
  unfolding start_pool queued
  start-Inv cancelled w = record {
    shape = length-replicate (length reqs) none;
    crew = length-replicate (worker_count reqs) waiting;
    fed_le = omega arith;
    fed_all = λ e. cc;
    once = λ i. omega (arith, all_unfed i);
    kept = λ e i. all_unfed i;
    sound = λ i resp e. absurd (ground (arith, get_elem?-replicate (length reqs) i none e));
    drained = λ c k e. absurd (ground (arith, get_elem?-replicate (worker_count reqs) k waiting e));
  }
    where
      all_unfed : (i : ℕ) → places i (start_pool cancelled reqs w) ≡ 1
      all_unfed i = ground (arith, held-waiting i (worker_count reqs), filled-none i (length reqs))

  feed-Inv : (s : Pool W) → s.fed < length reqs → Inv s → Inv (feed s)
  unfolding feed
  feed-Inv s lt v = record {
    shape = v.shape;
    crew = v.crew;
    fed_le = omega arith;
    fed_all = λ e. absurd (omega (arith, v.fed_all e));
    once = λ i. omega (arith, places-feed s i, v.once i);
    kept = λ c i. omega (arith, places-feed s i, v.kept c i);
    sound = v.sound;
    drained = λ c k e. absurd (omega (arith, v.fed_all (v.drained c k e).0));
  }

  close-Inv : (s : Pool W) → s.fed ≡ length reqs → Inv s → Inv (record s { closed = true })
  close-Inv s all v = record {
    shape = v.shape;
    crew = v.crew;
    fed_le = v.fed_le;
    fed_all = λ e. all;
    once = v.once;
    kept = v.kept;
    sound = v.sound;
    drained = λ c k e. (refl, (v.drained c k e).1);
  }

  receive-Inv :
      (s : Pool W) (k j : ℕ) (rest : List ℕ)
      → get_elem? s.workers k ≡ some waiting
      → s.channel ≡ j ∷ rest
      → Inv s
      → Inv (receive k j rest s)
  unfolding receive
  receive-Inv s k j rest e q v = record {
    shape = v.shape;
    crew = length-set s.workers k (received j) ∙ v.crew;
    fed_le = v.fed_le;
    fed_all = v.fed_all;
    once = λ i. omega (arith, places-receive s k j rest i e q, v.once i);
    kept = λ c i. omega (arith, places-receive s k j rest i e q, v.kept c i);
    sound = v.sound;
    drained = λ c m f. elim (get_elem?-set s.workers k m (received j) f) [
      | inl same_place ↦ absurd (ground arith)
      | inr there ↦ absurd (ground (arith, v.drained c m there))
    ];
  }

  -- Worker `k` changes with the indices that it holds: it may drop one only after a cancellation.
  become-Inv :
      (s : Pool W) (k : ℕ) (worker old : Worker)
      → get_elem? s.workers k ≡ some old
      → ((i : ℕ) → holds i worker ≤ holds i old)
      → (s.cancelled ≡ false → (i : ℕ) → holds i worker ≡ holds i old)
      → (s.cancelled ≡ false → worker ≡ stopped → (s.closed ≡ true) × (s.channel ≡ []))
      → Inv s
      → Inv (become k worker s)
  unfolding become
  become-Inv s k worker old e less same last v = record {
    shape = v.shape;
    crew = length-set s.workers k worker ∙ v.crew;
    fed_le = v.fed_le;
    fed_all = v.fed_all;
    once = λ i. omega (arith, places-become s k worker old i e, less i, v.once i);
    kept = λ c i. omega (arith, places-become s k worker old i e, same c i, v.kept c i);
    sound = v.sound;
    drained = λ c m f. elim (get_elem?-set s.workers k m worker f) [
      | inl same_place ↦ last c same_place.1
      | inr there ↦ v.drained c m there
    ];
  }

  respond-Inv :
      (s : Pool W) (k j : ℕ) (req : Request) (resp : Response) (w : W)
      → get_elem? s.workers k ≡ some (routing j)
      → get_elem? reqs j ≡ some req
      → Responds req resp
      → Inv s
      → Inv (respond k j resp w s)
  unfolding respond
  respond-Inv s k j req resp w e q good v = record {
    shape = length-set s.responses j (some resp) ∙ v.shape;
    crew = length-set s.workers k waiting ∙ v.crew;
    fed_le = v.fed_le;
    fed_all = v.fed_all;
    once = λ i. omega (arith, places-respond s k j resp w i e within (v.once j), v.once i);
    kept = λ c i. omega (arith, places-respond s k j resp w i e within (v.once j), v.kept c i);
    sound = λ i other f. elim (get_elem?-set s.responses j i (some resp) f) [
      | inl same_place ↦ (req, rw (same_place.0) q, subst (Responds req) (cc (same_place.1)) good)
      | inr there ↦ v.sound i other there
    ];
    drained = λ c m f. elim (get_elem?-set s.workers k m waiting f) [
      | inl same_place ↦ absurd (ground arith)
      | inr there ↦ v.drained c m there
    ];
  }
    where
      within : j < length s.responses
      within = omega (arith, v.shape, lt_of_get_elem? reqs j q)

  Step-Inv : {s t : Pool W} → Step libs r reqs s t → Inv s → Inv t
  Step-Inv {s} (feeds lt e) v = rw e (feed-Inv s lt v)
  Step-Inv {s} (closes all c e) v = rw e (close-Inv s all v)
  Step-Inv {s} (receives k i rest p q e) v = rw e (receive-Inv s k i rest p q v)
  Step-Inv {s} (ends k p q c e) v =
      rw e (become-Inv s k stopped waiting p (λ i. omega arith) (λ x i. refl) (λ x y. (c, q)) v)
  Step-Inv {s} (breaks k i p c e) v = rw e (
      become-Inv s k stopped (received i) p (λ j. omega arith) (λ x j. absurd (ground arith))
        (λ x y. absurd (ground arith)) v)
  Step-Inv {s} (begins k i p c e) v = rw e (
      become-Inv s k (routing i) (received i) p (λ j. omega arith) (λ x j. refl)
        (λ x y. absurd (ground arith)) v)
  Step-Inv {s} (routes k i req p q e) v =
      rw e (respond-Inv s k i req _ _ p q (inl (s.world, refl)) v)
  Step-Inv {s} (panics k i req w p q e) v = rw e (respond-Inv s k i req _ w p q (inr refl) v)
  Step-Inv {s} (cancels c e) v = rw e record {
    shape = v.shape;
    crew = v.crew;
    fed_le = v.fed_le;
    fed_all = v.fed_all;
    once = v.once;
    kept = λ d. absurd (ground arith);
    sound = v.sound;
    drained = λ d. absurd (ground arith);
  }

  pub Run-Inv : {s t : Pool W} → Run libs r reqs s t → Inv s → Inv t
  Run-Inv here v = v
  Run-Inv (next run step) v = Step-Inv step (Run-Inv run v)
