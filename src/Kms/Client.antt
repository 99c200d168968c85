-- ===== src/Kms/Client.antt =====
-- internal/kms/client.go: a signature asked of the MPC-KMS, with the polling of a task that waits
-- for approval. `W` is the world: the network and the clock. A call in progress does not share the
-- client, so the two locked URL caches are state passed on. `ctx` is what `tick` reports.
pub mod Rounds
pub mod Polling
pub mod Granted
use web3signer_go.Base.{
  neg, arith, negsuc, pos, ◌≢◌, ℤ, ◌==◌, if◌then◌else◌, str_eq, ◌+++◌, bytes, show_ℕ, show_ℤ,
  Result, ok, err, ◌>>=◌, map_err, ℕ, zero, suc, ◌/◌, String, Bool, true, false, not, Option, none,
  some, List, [], ◌∷◌,
}
use web3signer_go.Jsonrpc.Value.{Value}
use web3signer_go.Errors.Types.{GoError, plain, error_text}
use web3signer_go.Downstream.Client.{Body, Reply, unreachable, replied}
use web3signer_go.Kms.Types.{
  DataEncoding, hex, SignSummary, SignRequest, Encodings, new_sign_request, pending_approval,
  approved, rejected, done, failed, unknown, TaskResult, KmsClient,
}
use web3signer_go.Kms.Wire.{
  unmarshal_sign_response, unmarshal_task_response, unmarshal_task_result, ErrorResponse,
  unmarshal_error_response,
}
use web3signer_go.Kms.Signing.{HttpRequest}
use web3signer_go.Kms.Requests.{UrlCache, get_sign_url, get_task_url, marshal_sign_request}

-- net/http with the signing of every request (HTTPClient.Do), encoding/json and time.
pub record Network (W : Type 0) : Type 0 where
  pub url_error : String → Option GoError
  pub send : HttpRequest → W → Reply × W
  pub tick : ℤ → W → Option GoError × W
  pub json_text : Value → String
  pub parse_json : String → Option Value
  pub decode_failure : Option Value → GoError
  pub encodings : Encodings
  pub fmt_v : Value → String

-- A time.Duration is a number of nanoseconds. Five minutes of attempts; Go's division goes towards 0,
-- and panics at 0.
unfoldable pub max_attempts : ℤ → ℤ
max_attempts (pos interval) = pos (300000000000 / interval)
max_attempts (negsuc n) = neg (300000000000 / suc n)

-- The rounds of `attempt < maxAttempts`.
abbrev pub rounds : ℤ → ℕ
rounds (pos n) = n
rounds (negsuc n) = 0

abbrev pub five_seconds : ℤ
five_seconds = pos 5000000000

pub five_seconds-NonZero : five_seconds ≢ pos 0
five_seconds-NonZero e = ground arith

-- What a round of the polling says: the task is done, or it still waits.
unfoldable pub judge_status : TaskResult → Result GoError Bool
judge_status r = elim r.status [
  | done ↦ ok true
  | failed ↦ err (plain ("task failed: " +++ r.message))
  | rejected ↦ err (plain ("task rejected: " +++ r.message))
  | pending_approval ↦ ok false
  | approved ↦ ok false
  | unknown s ↦ err (plain ("unknown task status: " +++ s))
]

module _ {W : Type 0} (net : Network W) (endpoint : String) where
  abbrev wrap : String → GoError → GoError
  wrap prefix e = plain (prefix +++ (": " +++ error_text net.fmt_v e))

  abbrev answer : String → Reply → Result GoError (ℕ × Body)
  answer in_send (unreachable e) = err (wrap in_send e)
  answer in_send (replied status body) = ok (status, body)

  abbrev exchange : String → String → HttpRequest → W → Result GoError (ℕ × Body) × W
  exchange in_request in_send req w = elim (net.url_error req.url) [
    | some e ↦ (err (wrap in_request e), w)
    | none ↦ let (reply, w') = net.send req w in (answer in_send reply, w')
  ]

  abbrev content : String → Body → Result GoError (Option Value)
  content in_read body = elim body.read_error [
    | some e ↦ err (wrap in_read e)
    | none ↦ ok body.whole
  ]

  abbrev decoded : {A : Type 0} → String → (Value → Option A) → Option Value → Result GoError A
  decoded prefix decode none = err (wrap prefix (net.decode_failure none))
  decoded prefix decode (some v) = elim (decode v) [
    | none ↦ err (wrap prefix (net.decode_failure (some v)))
    | some a ↦ ok a
  ]

  -- The error that a reply with an unexpected status becomes; `about` names the task.
  abbrev refusal : String → ℕ → Option ErrorResponse → GoError
  refusal about status none =
      plain ("MPC-KMS request failed" +++ (about +++ (" with status: " +++ show_ℕ status)))
  refusal about status (some e) =
      plain
        ("MPC-KMS error" +++ (about +++ (" (code: " +++ (show_ℤ e.code +++ ("): " +++ e.message)))))

  abbrev error_response : Option Value → Option ErrorResponse
  error_response none = none
  error_response (some v) = unmarshal_error_response v

  abbrev about_task : String → String
  about_task task_id = " for task " +++ task_id

  unfoldable pub read_task : String → ℕ × Body → Result GoError TaskResult
  read_task task_id (status, body) =
      content ("failed to read response body" +++ about_task task_id) body >>= λ v.
      if status == 200
      then decoded "failed to unmarshal task result" unmarshal_task_result v
      else err (refusal (about_task task_id) status (error_response v))

  unfoldable pub get_task_result :
      String → UrlCache × W → Result GoError TaskResult × (UrlCache × W)
  unfolding get_task_url read_task
  get_task_result task_id (c, w) =
      let (url, c') = get_task_url endpoint task_id c in
      let (got, w') =
        exchange ("failed to create request" +++ about_task task_id)
          ("failed to execute task request" +++ about_task task_id)
          (record { method = "GET"; url = url; headers = []; body = none }) w in
      (got >>= read_task task_id, (c', w'))

  -- The response of a task, read as a signature.
  unfoldable pub signature_of : String → TaskResult → Result GoError String
  signature_of prefix r = decoded prefix unmarshal_sign_response (net.parse_json r.response)

  unfoldable pub judge : TaskResult → Result GoError (Option TaskResult)
  unfolding judge_status signature_of
  judge r = judge_status r >>= λ finished.
      if not finished
      then ok none
      else if str_eq r.response ""
      then ok (some r)
      else (signature_of "failed to parse signature from task result" r >>= λ s. ok (some r))

  -- One turn of the loop: the interval passes, then the task is asked for.
  unfoldable pub poll :
      String → ℤ → UrlCache × W → Result GoError (Option TaskResult) × (UrlCache × W)
  unfolding get_task_result judge
  poll task_id interval (c, w) =
      let (stop, w₁) = net.tick interval w in
      elim stop [
        | some e ↦ (err e, (c, w₁))
        | none ↦ let (got, st) = get_task_result task_id (c, w₁) in (got >>= judge, st)
      ]

  unfoldable pub wait_loop :
      ℤ → ℕ → String → ℤ → UrlCache × W → Result GoError TaskResult × (UrlCache × W)
  wait_loop limit zero task_id interval st =
      (err (plain ("task polling timeout after " +++ (show_ℤ limit +++ " attempts"))), st)
  wait_loop limit (suc n) task_id interval st =
      let (got, st') = poll task_id interval st in
      elim got [
        | err e ↦ (err e, st')
        | ok (some r) ↦ (ok r, st')
        | ok none ↦ wait_loop limit n task_id interval st'
      ]

  -- For an interval other than 0, where the code does not panic.
  unfoldable pub wait_for_task_completion :
      String
      → (interval : ℤ) → interval ≢ pos 0
      → UrlCache × W
      → Result GoError TaskResult × (UrlCache × W)
  unfolding max_attempts
  wait_for_task_completion task_id interval nonzero st =
      let limit = max_attempts interval in wait_loop limit (rounds limit) task_id interval st

  unfoldable pub finish_task : String → Result GoError TaskResult → Result GoError (List ℕ)
  unfolding signature_of
  finish_task task_id got =
      map_err (wrap ("task polling failed for task " +++ task_id)) got >>= λ r.
      signature_of "failed to parse signature from task" r >>= λ s. ok (bytes s)

  -- The switch on the status.
  unfoldable pub read_signature :
      ℕ → Option Value → UrlCache × W → Result GoError (List ℕ) × (UrlCache × W)
  unfolding wait_for_task_completion finish_task
  read_signature status v st =
      let task = decoded "failed to unmarshal task response" unmarshal_task_response v in
      if status == 200
      then (
        decoded "failed to unmarshal sign response" unmarshal_sign_response v >>= λ s. ok (bytes s),
        st,
      )
      else if status == 201
      then elim task [
        | err e ↦ (err e, st)
        | ok task_id ↦
            let (got, st') =
              wait_for_task_completion task_id five_seconds five_seconds-NonZero st in
            (finish_task task_id got, st')
      ]
      else (err (refusal "" status (error_response v)), st)

  unfoldable pub sign_request_of : List ℕ → DataEncoding → Option SignSummary → String → SignRequest
  unfolding new_sign_request
  sign_request_of message encoding summary callback_url =
      record (new_sign_request net.encodings message encoding) {
        summary = summary;
        callback_url = callback_url;
      }

  abbrev pub sign_post : String → SignRequest → HttpRequest
  sign_post url r = record {
    method = "POST";
    url = url;
    headers = ("Content-Type", "application/json") ∷ [];
    body = some (net.json_text (marshal_sign_request r));
  }

  unfoldable pub sign_with_options :
      String
      → List ℕ
      → DataEncoding
      → Option SignSummary
      → String
      → UrlCache × W
      → Result GoError (List ℕ) × (UrlCache × W)
  unfolding get_sign_url sign_request_of read_signature marshal_sign_request
  sign_with_options key_id message encoding summary callback_url (c, w) =
      let (url, c') = get_sign_url endpoint key_id c in
      let (got, w') =
        exchange "failed to create request" "failed to execute sign request"
          (sign_post url (sign_request_of message encoding summary callback_url)) w in
      elim got [
        | err e ↦ (err e, (c', w'))
        | ok (status, body) ↦ elim (content "failed to read response body" body) [
          | err e ↦ (err e, (c', w'))
          | ok v ↦ read_signature status v (c', w')
        ]
      ]

  unfoldable pub sign : String → List ℕ → UrlCache × W → Result GoError (List ℕ) × (UrlCache × W)
  unfolding sign_with_options
  sign key_id message st = sign_with_options key_id message hex none "" st

  unfoldable pub kms_client : KmsClient (UrlCache × W)
  unfolding sign sign_with_options
  kms_client = record { sign = sign; sign_with_options = sign_with_options }
