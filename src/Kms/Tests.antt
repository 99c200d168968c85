-- ===== src/Kms/Tests.antt =====
-- The client of the MPC-KMS on a network that answers a fixed script.
mod Requests
use web3signer_go.Base.{
  ℤ, replicate, ◌+++◌, bytes, equal_fold, ok, ℕ, zero, suc, ◌≡◌, refl, ◌↔◌, none, some, List, [],
  ◌∷◌,
}
use web3signer_go.Errors.Types.{plain}
use web3signer_go.Jsonrpc.Value.{Value, str, obj, end, field}
use web3signer_go.Downstream.Client.{Body, Reply, replied}
use web3signer_go.Kms.Types.{hex, TaskResult, done}
use web3signer_go.Kms.Wire.{unmarshal_sign_response, unmarshal_task_response, unmarshal_task_result}
use web3signer_go.Kms.Requests.{UrlCache, new_cache, get_sign_url, get_task_url}
use web3signer_go.Kms.Client.{
  Network, max_attempts, poll, get_task_result, read_task, judge, judge_status, signature_of,
  five_seconds, five_seconds-NonZero, wait_for_task_completion, wait_loop, sign_with_options,
  read_signature, finish_task, sign_request_of, sign_post,
}
use web3signer_go.Kms.Requests.Urls.{task_urls, resets, after, urls-exact}
use web3signer_go.Kms.Client.Polling.{Allows, Ends, wait_for_task_completion_iff}
use web3signer_go.Kms.Client.Granted.{Granted, sign_with_options_sound}

urls-exact_example :
    ((get_sign_url "http://kms" "k1" (after "http://kms" (task_urls "t" ∷ resets ∷ []) new_cache)).0
      ≡ ("http://kms" +++ "/api/v1/keys/") +++ ("k1" +++ "/sign"))
    × ((get_task_url "http://kms" "k1"
          (after "http://kms" (task_urls "t" ∷ resets ∷ []) new_cache)).0
        ≡ ("http://kms" +++ "/api/v1/tasks/") +++ "k1")
urls-exact_example = urls-exact "http://kms" "k1" (task_urls "t" ∷ resets ∷ [])

abbrev granted : Value
granted = obj (field "signature" (str "ab") end)

abbrev body : Value → Body
body v = record { excerpt = ""; read_error = none; first = some v; whole = some v }

-- The first answer names a task, the second says that it waits, every later one that it is done.
abbrev script : ℕ → Reply
script zero = replied 201 (body (obj (field "task_id" (str "t1") end)))
script (suc zero) = replied 200 (body (obj (field "status" (str "PENDING_APPROVAL") end)))
script _ = replied 200 (body (obj (field "status" (str "DONE") (field "response" (str "S") end))))

-- The world counts the requests.
abbrev network : Network ℕ
network = record {
  url_error = (λ url. none);
  send = (λ req n. (script n, suc n));
  tick = (λ interval n. (none, n));
  json_text = (λ v. "");
  parse_json = (λ s. some granted);
  decode_failure = (λ v. plain "bad JSON");
  encodings = record { base64_text = (λ bs. ""); raw_text = (λ bs. "") };
  fmt_v = (λ v. "");
}

abbrev task_done : TaskResult
task_done = record { status = done; message = ""; response = "S" }

abbrev polled : UrlCache
polled = record { sign_url = ""; task_url_template = "http://kms/api/v1/tasks/" }

wait_for_task_completion_iff_example :
    (n : ℕ) × (limit : ℤ) × Allows five_seconds n limit
    × ((wait_for_task_completion network "http://kms" "t1" five_seconds five_seconds-NonZero
            (new_cache, 1)
          ≡ (ok task_done, (polled, 3)))
        ↔ Ends network "http://kms" "t1" five_seconds limit n
            (new_cache, 1)
            (ok task_done)
            (polled, 3))
wait_for_task_completion_iff_example =
    wait_for_task_completion_iff network "http://kms" "t1" five_seconds five_seconds-NonZero
      (new_cache, 1) (polled, 3) (ok task_done)

abbrev hash : List ℕ
hash = replicate 32 7

abbrev signed_and_polled : UrlCache
signed_and_polled = record {
  sign_url = "http://kms/api/v1/keys/";
  task_url_template = "http://kms/api/v1/tasks/";
}

sign_with_options_sound_example :
    Granted network "http://kms"
      (sign_post network "http://kms"
        (get_sign_url "http://kms" "k1" new_cache).0
        (sign_request_of network "http://kms" hash hex none ""))
      (get_sign_url "http://kms" "k1" new_cache).1
      0
      (bytes "ab")
unfolding sign_with_options read_signature wait_for_task_completion wait_loop max_attempts poll
    get_task_result read_task judge judge_status signature_of finish_task unmarshal_task_response
    equal_fold unmarshal_task_result unmarshal_sign_response
sign_with_options_sound_example =
    sign_with_options_sound network "http://kms" "k1" hash hex none "" new_cache 0
      (signed_and_polled, 3) (bytes "ab") refl
