-- ===== src/Jsonrpc/Parse/Laws.antt =====
-- What an accepted body is.
use web3signer_go.Base.{
  ◌∙◌, ℕ, suc, ◌<◌, ◌≡◌, refl, ◌≢◌, Option, none, some, List, [], ◌∷◌, arith, eq_iff, length, All,
  ok, ◌>>◌, >>=-eq-ok, map_err, equal_fold, subst, String, ◌⊎◌, inl, inr, ap, map, sym,
}
use web3signer_go.Jsonrpc.Value.{Value, null, bool, int, float, rounded, str, arr, obj, of_items}
use web3signer_go.Jsonrpc.Interface.{as_interface}
use web3signer_go.Jsonrpc.Interface.Laws.{IsHeld, as_interface-IsHeld}
use web3signer_go.Jsonrpc.Types.{Request, jsonrpc_version, marshal_request}
use web3signer_go.Jsonrpc.Parse.{
  decode_request, decode_items, decode_requests, validate_request, validate_from, parse_request,
  parse_batch, parse_value, validate_id, invalid_request,
}

-- An id that JSON-RPC allows: null, a string or a number.
abbrev pub IsId : Value → Type 0
IsId null = Unit {0}
IsId (int n) = Unit {0}
IsId (float s) = Unit {0}
IsId (rounded s) = Unit {0}
IsId (str s) = Unit {0}
IsId _ = ⊥

pub record IsValid (r : Request) : Type 0 where
  pub version : r.jsonrpc ≡ jsonrpc_version
  pub named : r.method ≢ ""
  pub id : IsId r.id

validate_id-cases : (r : Request) (v : Value) → r.id ≡ v → validate_request r ≡ ok tt → IsId v
unfolding validate_request
validate_id-cases r null e h = tt
validate_id-cases r (bool b) e h = ground arith
validate_id-cases r (int n) e h = tt
validate_id-cases r (float s) e h = tt
validate_id-cases r (rounded s) e h = tt
validate_id-cases r (str s) e h = tt
validate_id-cases r (arr vs) e h = ground arith
validate_id-cases r (obj fs) e h = ground arith

validate_request_sound : (r : Request) → validate_request r ≡ ok tt → IsValid r
unfolding validate_request
validate_request_sound r h = record {
  version = ground (arith, eq_iff r.jsonrpc jsonrpc_version);
  named = ground (arith, eq_iff r.method "");
  id = validate_id-cases r r.id refl h;
}

validate_from_sound : (i : ℕ) (rs : List Request) → validate_from i rs ≡ ok tt → All IsValid rs
unfolding validate_from
validate_from_sound i [] h = tt
validate_from_sound i (r ∷ rs) h =
    (validate_request_sound r (ground arith), validate_from_sound (suc i) rs (ground arith))

-- What a JSON value stands for as a list of requests: one request, or an array of some.
abbrev pub Decodes : Value → List Request → Type 0
Decodes v rs =
    ((r : Request) × (decode_request v ≡ some r) × (rs ≡ r ∷ []))
    ⊎ ((decode_request v ≡ none) × (decode_requests v ≡ some rs) × (0 < length rs))

parse_batch_sound :
    (o : Option (List Request)) (rs : List Request)
    → parse_batch o ≡ ok rs
    → (o ≡ some rs) × (0 < length rs) × All IsValid rs
parse_batch_sound none rs h = cc
parse_batch_sound (some []) rs h = cc
parse_batch_sound (some (q ∷ qs)) rs h =
    let (u, passed, same) = >>=-eq-ok (validate_from 0 (q ∷ qs)) (λ _. ok (q ∷ qs)) h in
    let e : ◌≡◌ {A = List Request} (q ∷ qs) rs = cc in
    (
      ap some e,
      subst (λ xs. 0 < length xs) e (omega arith),
      subst (All IsValid) e (validate_from_sound 0 (q ∷ qs) passed),
    )

parse_value_sound :
    (v : Value) (o : Option Request) (rs : List Request)
    → decode_request v ≡ o
    → parse_value o v ≡ ok rs
    → All IsValid rs × Decodes v rs
parse_value_sound v none rs d h =
    let (e, n, valid) = parse_batch_sound (decode_requests v) rs h in (valid, inr (d, e, n))
parse_value_sound v (some r) rs d h =
    let (u, passed, same) =
      >>=-eq-ok (map_err invalid_request (validate_request r)) (λ _. ok (r ∷ [])) h in
    let e : ◌≡◌ {A = List Request} (r ∷ []) rs = cc in
    (subst (All IsValid) e (validate_request_sound r (ground arith), tt), inl (r, d, sym e))

-- An accepted body is one JSON value that stands for the requests returned, of which there is
-- at least one, and each is a valid JSON-RPC 2.0 request.
pub parse_request_sound :
    (body : Option Value) (rs : List Request)
    → parse_request body ≡ ok rs
    → (v : Value) × (body ≡ some v) × Decodes v rs × All IsValid rs
unfolding parse_request
parse_request_sound none rs h = cc
parse_request_sound (some v) rs h =
    let (valid, d) = parse_value_sound v (decode_request v) rs refl h in (v, refl, d, valid)

validate_id_complete : (v : Value) → IsId v → validate_id v ≡ ok tt
validate_id_complete null h = refl
validate_id_complete (bool b) h = absurd h
validate_id_complete (int n) h = refl
validate_id_complete (float s) h = refl
validate_id_complete (rounded s) h = refl
validate_id_complete (str s) h = refl
validate_id_complete (arr vs) h = absurd h
validate_id_complete (obj fs) h = absurd h

validate_request_complete : (r : Request) → IsValid r → validate_request r ≡ ok tt
unfolding validate_request
validate_request_complete r v =
    ground
      (arith, eq_iff r.jsonrpc jsonrpc_version, eq_iff r.method "", validate_id_complete r.id v.id)

validate_from_complete : (i : ℕ) (rs : List Request) → All IsValid rs → validate_from i rs ≡ ok tt
unfolding validate_from
validate_from_complete i [] h = refl
validate_from_complete i (r ∷ rs) h =
    rw (validate_request_complete r h.0) (validate_from_complete (suc i) rs h.1)

decode-marshal_params :
    (version method : String) (params : Option Value) (id : Value)
    → as_interface id ≡ some id
    → let r : Request = record { jsonrpc = version; method = method; params = params; id = id } in
      decode_request (marshal_request r) ≡ some r
unfolding decode_request marshal_request equal_fold
decode-marshal_params version method none id h = ground arith
decode-marshal_params version method (some p) id h = ground arith

decode-marshal : (r : Request) → IsHeld r.id → decode_request (marshal_request r) ≡ some r
decode-marshal r h =
    decode-marshal_params r.jsonrpc r.method r.params r.id (as_interface-IsHeld r.id h)

decode_items-marshal :
    (rs : List Request)
    → All (λ r. IsHeld r.id) rs
    → decode_items (of_items (map marshal_request rs)) ≡ some rs
unfolding decode_items
decode_items-marshal [] h = refl
decode_items-marshal (r ∷ rs) h =
    rw (decode-marshal r h.0, decode_items, decode_items-marshal rs h.1) refl

-- The text of a valid request whose id an interface{} holds (null, a text, an integer up to
-- 2^53 in magnitude or a rounded number) is read back as that request, and that of a batch of
-- one or more such requests, as an array, as those requests in their order.
pub parse-marshal :
    (r : Request) (rs : List Request)
    → All IsValid (r ∷ rs)
    → All (λ q. IsHeld q.id) (r ∷ rs)
    → (parse_request (some (marshal_request r)) ≡ ok (r ∷ []))
      × (parse_request (some (arr (of_items (map marshal_request (r ∷ rs))))) ≡ ok (r ∷ rs))
unfolding parse_request
parse-marshal r rs h held = (
  rw (decode-marshal r held.0, parse_value, validate_request_complete r h.0) refl,
  ap parse_batch (decode_items-marshal (r ∷ rs) held)
      ∙ ap (λ checked. checked >> ok (r ∷ rs)) (validate_from_complete 0 (r ∷ rs) h),
)
