-- ===== src/Kms/Client/Granted.antt =====
-- What a signature of the MPC-KMS rests on.
use web3signer_go.Base.{
  ◌==◌, Bool-cases, Option-cases, bytes, Result, ok, err, ◌>>=◌, Result-cases, >>=-eq-ok, ℕ, ◌<◌,
  String, ◌≡◌, refl, ap, ◌∙◌, inl, inr, Option, none, some, List, arith, ℤ,
}
use web3signer_go.Jsonrpc.Value.{Value}
use web3signer_go.Kms.Signing.{HttpRequest}
use web3signer_go.Errors.Types.{GoError}
use web3signer_go.Kms.Types.{DataEncoding, SignSummary, done, TaskResult}
use web3signer_go.Downstream.Client.{Reply, Body, replied, unreachable}
use web3signer_go.Kms.Wire.{unmarshal_sign_response, unmarshal_task_response}
use web3signer_go.Kms.Requests.{UrlCache, get_sign_url}
use web3signer_go.Kms.Client.{
  Network, max_attempts, poll, wait_for_task_completion, five_seconds, five_seconds-NonZero,
  sign_with_options, sign_request_of, sign_post, read_signature, finish_task, signature_of, judge,
  judge_status, get_task_result, decoded, answer, exchange, content,
}
use web3signer_go.Kms.Client.Polling.{Waits, Ends, finished, wait_for_task_completion-Ends}
use web3signer_go.Kms.Client.Rounds.{Round-poll}

module _ {W : Type 0} (net : Network W) (endpoint : String) where
  decoded-ok :
      {A : Type 0} (prefix : String) (decode : Value → Option A) (v : Option Value) (a : A)
      → decoded net endpoint prefix decode v ≡ ok a
      → (x : Value) × (v ≡ some x) × (decode x ≡ some a)
  decoded-ok prefix decode none a h = absurd (ground arith)
  decoded-ok prefix decode (some v) a h = (v, refl, ground arith)

  judge-done :
      (r r' : TaskResult) → judge net endpoint r ≡ ok (some r') → (r' ≡ r) × (r.status ≡ done)
  unfolding judge judge_status
  judge-done r r' h = ground arith

  poll-done :
      (task_id : String) (interval : ℤ) (st st' : UrlCache × W) (r : TaskResult)
      → poll net endpoint task_id interval st ≡ (ok (some r), st')
      → r.status ≡ done
  unfolding poll
  poll-done task_id interval st st' r h = elim (Option-cases (net.tick interval st.1).0) [
    | inr (e, stop) ↦ absurd (ground arith)
    | inl stop ↦
        let got = get_task_result net endpoint task_id (st.0, (net.tick interval st.1).1) in
        let (r', e, judged) = >>=-eq-ok got.0 (judge net endpoint) (ground arith) in
        let (same, is_done) = judge-done r' r judged in ap (λ x. x.status) same ∙ is_done
  ]

  signature-ok :
      (prefix : String) (v : Option Value) (signature : List ℕ)
      → (decoded net endpoint prefix unmarshal_sign_response v >>= λ s. ok (bytes s)) ≡ ok signature
      → (s : String) × (x : Value) × (v ≡ some x)
        × (unmarshal_sign_response x ≡ some s)
        × (signature ≡ bytes s)
  signature-ok prefix none signature h = absurd (ground arith)
  signature-ok prefix (some x) signature h = elim (Option-cases (unmarshal_sign_response x)) [
    | inl e ↦ absurd (ground arith)
    | inr (s, e) ↦ (s, x, refl, e, ground arith)
  ]

  finish_task-ok :
      (task_id : String) (got : Result GoError TaskResult) (signature : List ℕ)
      → finish_task net endpoint task_id got ≡ ok signature
      → (r : TaskResult) × (s : String) × (v : Value) × (got ≡ ok r)
        × (net.parse_json r.response ≡ some v)
        × (unmarshal_sign_response v ≡ some s)
        × (signature ≡ bytes s)
  unfolding finish_task signature_of
  finish_task-ok task_id (err e) signature h = absurd (ground arith)
  finish_task-ok task_id (ok r) signature h =
      let (s, v, parsed, read, same) =
        signature-ok "failed to parse signature from task" (net.parse_json r.response) signature
          h in
      (r, s, v, refl, parsed, read, same)

  -- What a signature rests on: the MPC-KMS answered the request for it with status 200 and the
  -- signature, or with status 201 and a task that was polled until it was done.
  pub data Granted (req : HttpRequest) (c : UrlCache) (w : W) (signature : List ℕ) : Type 0 where
    at_once :
        {body : Body} {w' : W} {v : Value} {s : String}
        → net.send req w ≡ (replied 200 body, w')
        → body.whole ≡ some v
        → unmarshal_sign_response v ≡ some s
        → signature ≡ bytes s
        → Granted req c w signature
    after_approval :
        {body : Body} {w' : W} {mid st' : UrlCache × W} {task v : Value} {task_id s : String}
        {r : TaskResult} {k : ℕ}
        → net.send req w ≡ (replied 201 body, w')
        → body.whole ≡ some task
        → unmarshal_task_response task ≡ some task_id
        → k < 60
        → Waits net endpoint task_id five_seconds k (c, w') mid
        → poll net endpoint task_id five_seconds mid ≡ (ok (some r), st')
        → r.status ≡ done
        → net.parse_json r.response ≡ some v
        → unmarshal_sign_response v ≡ some s
        → signature ≡ bytes s
        → Granted req c w signature

  Ends-ok :
      {task_id : String} {limit : ℤ} {n : ℕ} {st st' : UrlCache × W} {r : TaskResult}
      → Ends net endpoint task_id five_seconds limit n st (ok r) st'
      → (k : ℕ) × (mid : UrlCache × W) × (k < n)
        × Waits net endpoint task_id five_seconds k st mid
        × (poll net endpoint task_id five_seconds mid ≡ (ok (some r), st'))
  Ends-ok {task_id = task_id} (finished lt ws h) =
      (_, _, lt, ws, Round-poll net endpoint task_id five_seconds h)

  wait-ok :
      (task_id : String) (st : UrlCache × W) (r : TaskResult)
      → (wait_for_task_completion net endpoint task_id five_seconds five_seconds-NonZero st).0
        ≡ ok r
      → (k : ℕ) × (mid : UrlCache × W) × (k < 60)
        × Waits net endpoint task_id five_seconds k st mid
        × (poll net endpoint task_id five_seconds mid ≡ (
          ok (some r),
          (wait_for_task_completion net endpoint task_id five_seconds five_seconds-NonZero st).1,
        ))
  unfolding max_attempts
  wait-ok task_id st r h = Ends-ok (
      (wait_for_task_completion-Ends net endpoint task_id five_seconds five_seconds-NonZero st
          (wait_for_task_completion net endpoint task_id five_seconds five_seconds-NonZero st).1
          (ok r)).0
        (ground arith))

  task-ok :
      (v : Option Value) (task_id : String)
      → decoded net endpoint "failed to unmarshal task response" unmarshal_task_response v
        ≡ ok task_id
      → (x : Value) × (v ≡ some x) × (unmarshal_task_response x ≡ some task_id)
  task-ok v task_id h =
      decoded-ok "failed to unmarshal task response" unmarshal_task_response v task_id h

  answer-ok :
      (in_send : String) (reply : Reply) (status : ℕ) (body : Body)
      → answer net endpoint in_send reply ≡ ok (status, body)
      → reply ≡ replied status body
  answer-ok in_send (unreachable e) status body h = absurd (ground arith)
  answer-ok in_send (replied n b) status body h = ground arith

  exchange-ok :
      (in_request in_send : String) (req : HttpRequest) (w : W) (status : ℕ) (body : Body)
      → (exchange net endpoint in_request in_send req w).0 ≡ ok (status, body)
      → net.send req w ≡ (replied status body, (exchange net endpoint in_request in_send req w).1)
  exchange-ok in_request in_send req w status body h = elim (Option-cases (net.url_error req.url)) [
    | inr (e, bad) ↦ absurd (ground arith)
    | inl good ↦
        let e = answer-ok in_send (net.send req w).0 status body (ground arith) in ground arith
  ]

  content-ok :
      (in_read : String) (body : Body) (v : Option Value)
      → content net endpoint in_read body ≡ ok v
      → body.whole ≡ v
  content-ok in_read body v h = ground arith

  read_signature-ok :
      (status : ℕ) (req : HttpRequest) (body : Body) (c : UrlCache) (w w' : W) (st' : UrlCache × W)
      (signature : List ℕ)
      → net.send req w ≡ (replied status body, w')
      → read_signature net endpoint status body.whole (c, w') ≡ (ok signature, st')
      → Granted req c w signature
  unfolding read_signature
  read_signature-ok status req body c w w' st' signature sent h =
      elim (Bool-cases (status == 200)) [
        | inl is_200 ↦
            let (s, v, is_v, read, same) =
              signature-ok "failed to unmarshal sign response" body.whole signature
                (ground arith) in
            at_once {body = body} {w' = w'} (ground arith) is_v read same
        | inr not_200 ↦ elim (Bool-cases (status == 201)) [
          | inr other ↦ absurd (ground arith)
          | inl is_201 ↦
              elim (Result-cases (
                decoded net endpoint "failed to unmarshal task response" unmarshal_task_response
                  body.whole)) [
                    | inr (e, bad) ↦ absurd (ground arith)
                    | inl (task_id, good) ↦
                        let (r, s, v, is_r, parsed, read, same) =
                          finish_task-ok task_id
                            (wait_for_task_completion net endpoint task_id five_seconds
                              five_seconds-NonZero (c, w')).0
                            signature (ground arith) in
                        let (task, is_task, named) = task-ok body.whole task_id good in
                        let (k, mid, lt, ws, last) = wait-ok task_id (c, w') r is_r in
                        after_approval {body = body} {w' = w'} (ground arith) is_task named lt ws
                          last (poll-done task_id five_seconds mid _ r last) parsed read same
                  ]
        ]
      ]

  -- A signature is returned only where the MPC-KMS answered the signing request for the
  -- message and key with status 200 and that signature, or with status 201 and a task that was
  -- done within 60 polls and whose response holds that signature.
  pub sign_with_options_sound :
      (key_id : String) (message : List ℕ) (encoding : DataEncoding) (summary : Option SignSummary)
      (callback_url : String) (c : UrlCache) (w : W) (st' : UrlCache × W) (signature : List ℕ)
      → sign_with_options net endpoint key_id message encoding summary callback_url (c, w)
        ≡ (ok signature, st')
      → Granted
          (sign_post net endpoint
            (get_sign_url endpoint key_id c).0
            (sign_request_of net endpoint message encoding summary callback_url))
          (get_sign_url endpoint key_id c).1
          w
          signature
  unfolding sign_with_options
  sign_with_options_sound key_id message encoding summary callback_url c w st' signature h =
      let (url, c') = get_sign_url endpoint key_id c in
      let req =
        sign_post net endpoint url
          (sign_request_of net endpoint message encoding summary callback_url) in
      let (got, w') =
        exchange net endpoint "failed to create request" "failed to execute sign request" req w in
      elim (Result-cases got) [
        | inr (e, bad) ↦ absurd (ground arith)
        | inl ((status, body), good) ↦
            elim (Result-cases (content net endpoint "failed to read response body" body)) [
              | inr (e, bad) ↦ absurd (ground arith)
              | inl (v, is_v) ↦
                  let same = content-ok "failed to read response body" body v is_v in
                  read_signature-ok status req body c' w w' st' signature
                    (exchange-ok "failed to create request" "failed to execute sign request" req w
                      status body good)
                    (ground arith)
            ]
      ]
