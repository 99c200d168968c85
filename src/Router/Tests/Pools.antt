-- ===== src/Router/Tests/Pools.antt =====
-- RouteBatch on two requests, under a schedule in which the second is answered first.
use web3signer_go.Base.{
  get_elem?, length, ℕ, ◌+◌, ◌*◌, ◌≤◌, ◌≡◌, ◌↔◌, refl, true, false, some, List, [], ◌∷◌, arith,
}
use web3signer_go.Jsonrpc.Value.{arr, nil}
use web3signer_go.Jsonrpc.Types.{Request, Response}
use web3signer_go.Router.Batch.{
  Pool, routing, stopped, refusal, worker_count, start_pool, feed, become, receive, respond, feeds,
  closes, receives, ends, begins, routes, Run, here, next, pooled,
}
use web3signer_go.Router.Table.{route}
use web3signer_go.Router.Batch.Safety.{routings, route_batch_once, RouteBatch-sound, Batched}
use web3signer_go.Router.Batch.Progress.{steps, Ends, route_batch_bounded, route_batch-Ends}
use web3signer_go.Router.Tests.{libs, call, with_custom}

abbrev requests : List Request
requests = call "net_version" (arr nil) ∷ call "eth_unknown" (arr nil) ∷ []

abbrev answer : ℕ → ℕ → Request → Pool ℕ → Pool ℕ
answer k i req s =
    respond k i (route libs with_custom (some req) s.world).0
      (route libs with_custom (some req) s.world).1 s

abbrev started : Pool ℕ
started = start_pool false requests 0

abbrev both_fed : Pool ℕ
both_fed = receive 1 1 [] (feed (receive 0 0 [] (feed started)))

abbrev second_answered : Pool ℕ
second_answered =
    answer 1 1 (call "eth_unknown" (arr nil))
      (become 1 (routing 1) (record both_fed { closed = true }))

abbrev both_answered : Pool ℕ
both_answered = answer 0 0 (call "net_version" (arr nil)) (become 0 (routing 0) second_answered)

abbrev ended : Pool ℕ
ended = become 1 stopped (become 0 stopped both_answered)

schedule : Run libs with_custom requests started ended
unfolding start_pool worker_count feed become receive respond
schedule =
    next
      (next
        (next
          (next
            (next
              (next
                (next
                  (next
                    (next
                      (next (next here (feeds (omega arith) refl)) (receives 0 0 [] refl refl refl))
                      (feeds (omega arith) refl))
                    (receives 1 1 [] refl refl refl))
                  (closes refl refl refl))
                (begins 1 1 refl refl refl))
              (routes 1 1 (call "eth_unknown" (arr nil)) refl refl refl))
            (begins 0 0 refl refl refl))
          (routes 0 0 (call "net_version" (arr nil)) refl refl refl))
        (ends 0 refl refl refl refl))
      (ends 1 refl refl refl refl)

RouteBatch-sound_example : Batched libs with_custom requests false 0 ended
unfolding start_pool worker_count feed become receive respond refusal
RouteBatch-sound_example =
    RouteBatch-sound libs with_custom requests false 0 ended
      (pooled refl schedule (refl, (refl, (refl, tt))))

route_batch_once_example :
    (routings libs with_custom requests 1 schedule ≤ 1)
    × ((routings libs with_custom requests 1 schedule ≡ 1)
        ↔ ((resp : Response) × (get_elem? ended.responses 1 ≡ some (some resp))))
route_batch_once_example = route_batch_once libs with_custom requests false 0 schedule 1

route_batch_bounded_example :
    steps libs with_custom requests schedule ≤ 4 * length requests + worker_count requests + 2
route_batch_bounded_example = route_batch_bounded libs with_custom requests false 0 schedule

route_batch-Ends_example : Ends libs with_custom requests started
route_batch-Ends_example = route_batch-Ends libs with_custom requests false 0 started here
