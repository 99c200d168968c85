-- ===== src/Downstream/Client/Laws.antt =====
-- What a forwarded request or batch returns.
use web3signer_go.Base.{
  Option-cases, length, All, ok, err, ◌>>=◌, >>=-eq-ok, String, ◌≡◌, refl, sym, ap, subst, ◌∙◌, ◌≢◌,
  inl, inr, Option, none, some, List, [], ◌∷◌, map, arith,
}
use web3signer_go.Jsonrpc.Value.{Value, null, arr, of_items}
use web3signer_go.Jsonrpc.Types.{Request, Response, marshal_request, marshal_response}
use web3signer_go.Errors.Downstream.{batch_size_mismatch_error}
use web3signer_go.Downstream.Wire.Laws.{
  Fits, Kept, IsStorable, decode-stored_responses, decode-marshal_responses,
}
use web3signer_go.Downstream.Client.{
  Body, Transport, Reply, replied, unreachable, with_id, with_ids, read_all, check_status,
  parse_responses, perform_http_request, forward_batch_request, match_up, decode_batch,
}

-- Each response has an id where its request has one.
abbrev pub Answered : List Request → List Response → Type 0
Answered [] [] = Unit {0}
Answered (q ∷ qs) (r ∷ rs) = (q.id ≢ null → r.id ≢ null) × Answered qs rs
Answered _ _ = ⊥

with_id-answered : (v : Value) (r : Response) → v ≢ null → (with_id v r).id ≢ null
unfolding with_id
with_id-answered null r h = absurd (h refl)
with_id-answered _ r h = ground arith

with_ids-Answered :
    (reqs : List Request) (rs : List Response)
    → length rs ≡ length reqs
    → Answered reqs (with_ids reqs rs)
with_ids-Answered [] [] h = tt
with_ids-Answered [] (r ∷ rs) h = absurd (omega arith)
with_ids-Answered (q ∷ qs) [] h = absurd (omega arith)
with_ids-Answered (q ∷ qs) (r ∷ rs) h =
    (with_id-answered q.id r, with_ids-Answered qs rs (omega arith))

match_up-ok :
    {W : Type 0} (t : Transport W) (url : String) (reqs : List Request) (raw rs : List Response)
    → match_up t url reqs raw ≡ ok rs
    → (length raw ≡ length reqs) × (rs ≡ with_ids reqs raw)
match_up-ok t url reqs raw rs h = ground arith

decode_batch-ok :
    {W : Type 0} (t : Transport W) (url : String) (reqs : List Request) (v : Option Value)
    (rs : List Response)
    → decode_batch t url reqs v ≡ ok rs
    → (raw : List Response) × (parse_responses v ≡ some raw)
      × (length raw ≡ length reqs)
      × (rs ≡ with_ids reqs raw)
decode_batch-ok t url reqs v rs h = elim (Option-cases (parse_responses v)) [
  | inl e ↦ absurd (ground arith)
  | inr (raw, e) ↦ let (n, same) = match_up-ok t url reqs raw rs (ground arith) in (raw, e, n, same)
]

check_status-ok :
    (reply : Reply) (body : Body) → check_status reply ≡ ok body → reply ≡ replied 200 body
check_status-ok (unreachable e) body h = cc
check_status-ok (replied status b) body h = ground arith

perform_http_request-ok :
    {W : Type 0} (t : Transport W) (url : String) (content : Value) (w : W) (body : Body)
    → (perform_http_request t url content w).0 ≡ ok body
    → (t.post url content w).0 ≡ replied 200 body
unfolding perform_http_request
perform_http_request-ok t url content w body h = elim (Option-cases (t.url_error url)) [
  | inl e ↦ check_status-ok (t.post url content w).0 body (ground arith)
  | inr (x, e) ↦ absurd (ground arith)
]

read_all-ok : (body : Body) (v : Option Value) → read_all body ≡ ok v → v ≡ body.whole
read_all-ok body v h = ground arith

-- A batch forwarded successfully was answered, with status 200 to one post of the whole batch,
-- by as many responses as it has requests; they come back in order, changed only where a
-- response without an id takes that of its request.
pub forward_batch_request_sound :
    {W : Type 0} (t : Transport W) (url : String) (reqs : List Request) (w : W) (rs : List Response)
    → (forward_batch_request t url reqs w).0 ≡ ok rs
    → (body : Body) × (raw : List Response) × ((t.post url
          (arr (of_items (map marshal_request reqs)))
          w).0
        ≡ replied 200 body)
      × (parse_responses body.whole ≡ some raw)
      × (length raw ≡ length reqs)
      × (rs ≡ with_ids reqs raw)
      × Answered reqs rs
unfolding forward_batch_request
forward_batch_request_sound t url reqs w rs h =
    let content = arr (of_items (map marshal_request reqs)) in
    let got = (perform_http_request t url content w).0 in
    let (v, got_v, decoded) = >>=-eq-ok (got >>= read_all) (decode_batch t url reqs) h in
    let (body, got_body, read) = >>=-eq-ok got read_all got_v in
    let (raw, parsed, n, same) = decode_batch-ok t url reqs v rs decoded in
    (
      body,
      raw,
      perform_http_request-ok t url content w body got_body,
      ap parse_responses (sym (read_all-ok body v read)) ∙ parsed,
      n,
      same,
      subst (Answered reqs) (sym same) (with_ids-Answered reqs raw n),
    )

-- Where the node answers a post with status 200 and the text of as many responses as there are
-- requests, as an array, each error code is an int, and an interface{} holds each id and the
-- data of each error, that is, integers in them are at most 2^53 in magnitude, other numbers
-- are rounded to a float64 and the keys of objects are in order without repetition, the batch
-- is forwarded with success: the responses come back in order, with the ids of their requests
-- where they have none.
pub forward_batch_request-answered :
    {W : Type 0} (t : Transport W) (url : String) (reqs : List Request) (rs : List Response)
    (w w' : W) (body : Body)
    → t.url_error url ≡ none
    → t.post url (arr (of_items (map marshal_request reqs))) w ≡ (replied 200 body, w')
    → body.read_error ≡ none
    → body.whole ≡ some (arr (of_items (map marshal_response rs)))
    → All Kept rs
    → length rs ≡ length reqs
    → forward_batch_request t url reqs w ≡ (ok (with_ids reqs rs), w')
unfolding forward_batch_request perform_http_request parse_responses
forward_batch_request-answered t url reqs rs w w' body no_error posted readable whole fits n =
    ground (arith, decode-marshal_responses rs fits)

-- Where the node answers a post with status 200 and the text of an array of responses of
-- another number than the requests, each error code an int and no number in an id or in the
-- data of an error beyond the range of a float64, the batch fails with both numbers in the
-- error.
pub forward_batch_request-mismatch :
    {W : Type 0} (t : Transport W) (url : String) (reqs : List Request) (rs : List Response)
    (w w' : W) (body : Body)
    → t.url_error url ≡ none
    → t.post url (arr (of_items (map marshal_request reqs))) w ≡ (replied 200 body, w')
    → body.read_error ≡ none
    → body.whole ≡ some (arr (of_items (map marshal_response rs)))
    → All (λ r. Fits r.error) rs
    → All IsStorable rs
    → length rs ≢ length reqs
    → forward_batch_request t url reqs w
      ≡ (err (batch_size_mismatch_error (length reqs) (length rs)), w')
unfolding forward_batch_request perform_http_request parse_responses
forward_batch_request-mismatch t url reqs rs w w' body no_error posted readable whole fits storable
      n =
    let (kept, e, same) = decode-stored_responses rs fits storable in ground arith
