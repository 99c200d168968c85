-- ===== src/Kms/Client/Rounds.antt =====
-- One round of the polling of a task.
use web3signer_go.Base.{
  ◌+++◌, Result, ok, err, Result-cases, String, ◌≡◌, subst, inl, inr, none, some, arith, ℤ, ◌≢◌,
  Option, Option-cases, Bool-cases, str_eq, eq_iff, refl,
}
use web3signer_go.Errors.Types.{GoError, plain, error_text}
use web3signer_go.Jsonrpc.Value.{Value}
use web3signer_go.Kms.Types.{
  TaskResult, TaskStatus, pending_approval, approved, rejected, done, failed, unknown,
}
use web3signer_go.Kms.Wire.{unmarshal_sign_response}
use web3signer_go.Kms.Requests.{UrlCache}
use web3signer_go.Kms.Client.{get_task_result, judge, judge_status, signature_of, Network, poll}

module _ {W : Type 0} (net : Network W) (endpoint task_id : String) (interval : ℤ) where
  abbrev pub unreadable : Option Value → GoError
  unreadable v = plain (
      "failed to parse signature from task result"
      +++ (": " +++ error_text net.fmt_v (net.decode_failure v)))

  -- What the result of a task says, by its status.
  pub data Judged (r : TaskResult) : Result GoError (Option TaskResult) → Type 0 where
    still_pending : r.status ≡ pending_approval → Judged r (ok none)
    still_approved : r.status ≡ approved → Judged r (ok none)
    done_bare : r.status ≡ done → r.response ≡ "" → Judged r (ok (some r))
    done_signed :
        {v : Value} {s : String}
        → r.status ≡ done
        → r.response ≢ ""
        → net.parse_json r.response ≡ some v
        → unmarshal_sign_response v ≡ some s
        → Judged r (ok (some r))
    done_no_json :
        r.status ≡ done
        → r.response ≢ ""
        → net.parse_json r.response ≡ none
        → Judged r (err (unreadable none))
    done_unreadable :
        {v : Value}
        → r.status ≡ done
        → r.response ≢ ""
        → net.parse_json r.response ≡ some v
        → unmarshal_sign_response v ≡ none
        → Judged r (err (unreadable (some v)))
    is_failed : r.status ≡ failed → Judged r (err (plain ("task failed: " +++ r.message)))
    is_rejected : r.status ≡ rejected → Judged r (err (plain ("task rejected: " +++ r.message)))
    is_unknown :
        {s : String} → r.status ≡ unknown s → Judged r (err (plain ("unknown task status: " +++ s)))

  -- One round: the context ends while the interval passes, the task cannot be read, or it is judged.
  pub data Round (st : UrlCache × W)
      : Result GoError (Option TaskResult) → UrlCache × W → Type 0 where
    cancelled :
        {w₁ : W} {e : GoError} {st' : UrlCache × W}
        → net.tick interval st.1 ≡ (some e, w₁)
        → st' ≡ (st.0, w₁)
        → Round st (err e) st'
    unread :
        {w₁ : W} {e : GoError} {st' : UrlCache × W}
        → net.tick interval st.1 ≡ (none, w₁)
        → get_task_result net endpoint task_id (st.0, w₁) ≡ (err e, st')
        → Round st (err e) st'
    judged :
        {w₁ : W} {r : TaskResult} {got : Result GoError (Option TaskResult)} {st' : UrlCache × W}
        → net.tick interval st.1 ≡ (none, w₁)
        → get_task_result net endpoint task_id (st.0, w₁) ≡ (ok r, st')
        → Judged r got
        → Round st got st'

  judge-done_Judged :
      (r : TaskResult)
      → r.status ≡ done
      → r.response ≢ ""
      → (v : Option Value) → net.parse_json r.response ≡ v
      → Judged r (judge net endpoint r)
  unfolding judge judge_status signature_of
  judge-done_Judged r is_done full none e =
      subst (Judged r) (ground (arith, eq_iff r.response "")) (done_no_json is_done full e)
  judge-done_Judged r is_done full (some v) e = elim (Option-cases (unmarshal_sign_response v)) [
    | inl bad ↦
        subst (Judged r) (ground (arith, eq_iff r.response "")) (done_unreadable is_done full e bad)
    | inr (s, good) ↦
        subst (Judged r) (ground (arith, eq_iff r.response "")) (done_signed is_done full e good)
  ]

  judge-Judged : (r : TaskResult) (s : TaskStatus) → r.status ≡ s → Judged r (judge net endpoint r)
  unfolding judge judge_status
  judge-Judged r pending_approval e = subst (Judged r) (ground arith) (still_pending e)
  judge-Judged r approved e = subst (Judged r) (ground arith) (still_approved e)
  judge-Judged r rejected e = subst (Judged r) (ground arith) (is_rejected e)
  judge-Judged r failed e = subst (Judged r) (ground arith) (is_failed e)
  judge-Judged r (unknown s) e = subst (Judged r) (ground arith) (is_unknown e)
  judge-Judged r done e = elim (Bool-cases (str_eq r.response "")) [
    | inl bare ↦
        subst (Judged r) (ground arith) (done_bare e (ground (arith, eq_iff r.response "")))
    | inr full ↦ judge-done_Judged r e (λ x. ground (arith, eq_iff r.response "")) _ refl
  ]

  Judged-judge :
      {r : TaskResult} {got : Result GoError (Option TaskResult)}
      → Judged r got
      → judge net endpoint r ≡ got
  unfolding judge judge_status signature_of
  Judged-judge (still_pending e) = ground arith
  Judged-judge (still_approved e) = ground arith
  Judged-judge {r = r} (done_bare e bare) = ground (arith, eq_iff r.response "")
  Judged-judge {r = r} (done_signed e full parsed read) = ground (arith, eq_iff r.response "")
  Judged-judge {r = r} (done_no_json e full parsed) = ground (arith, eq_iff r.response "")
  Judged-judge {r = r} (done_unreadable e full parsed read) = ground (arith, eq_iff r.response "")
  Judged-judge (is_failed e) = ground arith
  Judged-judge (is_rejected e) = ground arith
  Judged-judge (is_unknown e) = ground arith

  pub Round-poll :
      {st st' : UrlCache × W} {got : Result GoError (Option TaskResult)}
      → Round st got st'
      → poll net endpoint task_id interval st ≡ (got, st')
  unfolding poll
  Round-poll (cancelled stop same) = ground arith
  Round-poll (unread on e) = ground arith
  Round-poll (judged on e j) = let v = Judged-judge j in ground arith

  poll-Round_both :
      (st : UrlCache × W)
      → Round st (poll net endpoint task_id interval st).0 (poll net endpoint task_id interval st).1
  unfolding poll
  poll-Round_both st =
      let (stop, w₁) = net.tick interval st.1 in
      let got = get_task_result net endpoint task_id (st.0, w₁) in
      elim (Option-cases stop) [
        | inr (e, ended) ↦
            subst {A = Result GoError (Option TaskResult) × (UrlCache × W)} (λ p. Round st p.0 p.1)
              (ground arith) (cancelled {w₁ = w₁} {e = e} {st' = (st.0, w₁)} (ground arith) refl)
        | inl on ↦ elim (Result-cases got.0) [
          | inr (e, bad) ↦
              subst {A = Result GoError (Option TaskResult) × (UrlCache × W)}
                (λ p. Round st p.0 p.1) (ground arith)
                (unread {w₁ = w₁} {e = e} {st' = got.1} (ground arith) (ground arith))
          | inl (r, good) ↦
              subst {A = Result GoError (Option TaskResult) × (UrlCache × W)}
                (λ p. Round st p.0 p.1) (ground arith)
                (judged {w₁ = w₁} {r = r} {got = judge net endpoint r} {st' = got.1} (ground arith)
                  (ground arith) (judge-Judged r r.status refl))
        ]
      ]

  pub poll-Round :
      {st st' : UrlCache × W} {got : Result GoError (Option TaskResult)}
      → poll net endpoint task_id interval st ≡ (got, st')
      → Round st got st'
  poll-Round {st = st} h =
      subst {A = Result GoError (Option TaskResult) × (UrlCache × W)} (λ p. Round st p.0 p.1) h
        (poll-Round_both st)
