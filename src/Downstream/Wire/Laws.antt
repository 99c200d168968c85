-- ===== src/Downstream/Wire/Laws.antt =====
-- A response that is written is read back.
use web3signer_go.Base.{
  length, ◌∙◌, All, ℤ, equal_fold, String, ◌≡◌, refl, Bool, true, false, Option, none, some, List,
  [], ◌∷◌, map, arith,
}
use web3signer_go.Jsonrpc.Value.{Value, null, arr, of_items}
use web3signer_go.Jsonrpc.Codes.{RpcError}
use web3signer_go.Jsonrpc.Interface.{as_interface}
use web3signer_go.Jsonrpc.Interface.Laws.{IsHeld, as_interface-IsHeld, as_interface-null}
use web3signer_go.Jsonrpc.Types.{Response, marshal_error, marshal_response}
use web3signer_go.Downstream.Wire.{
  in_int, decode_error, decode_response, decode_response_items, decode_responses,
}

-- The error's code fits a Go int, if there is an error.
abbrev pub Fits : Option RpcError → Type 0
Fits none = Unit {0}
Fits (some e) = in_int e.code ≡ true

-- The data of the error can be held in an interface{}.
abbrev pub HeldError : Option RpcError → Type 0
HeldError none = Unit {0}
HeldError (some e) = IsHeld e.content

-- What an interface{} keeps of the id of a response and of the data of its error.
abbrev stored_error : Option RpcError → Option (Option RpcError)
stored_error none = some none
stored_error (some e) = elim (as_interface e.content) [
  | none ↦ none
  | some x ↦ some (some (record e { content = x }))
]

abbrev pub stored : Response → Option Response
stored r = elim (stored_error r.error) [
  | none ↦ none
  | some e ↦ elim (as_interface r.id) [
    | none ↦ none
    | some id ↦ some (record r { error = e; id = id })
  ]
]

decode_members-marshal :
    (strict : Bool) (code : ℤ) (message : String) (content : Value)
    → in_int code ≡ true
    → let e : RpcError = record { code = code; message = message; content = content } in
      decode_error strict (marshal_error e) none ≡ elim (as_interface content) [
        | none ↦ none
        | some x ↦ some (some (record e { content = x }))
      ]
unfolding decode_error marshal_error equal_fold
decode_members-marshal strict code message null h = ground (arith, as_interface-null)
decode_members-marshal strict code message _ h = ground arith

decode_parts-marshal :
    (strict : Bool) (version : String) (result : Option Value) (error : Option RpcError)
    (id : Value)
    → Fits error
    → let r : Response = record { jsonrpc = version; result = result; error = error; id = id } in
      decode_response strict (marshal_response r) ≡ stored r
unfolding decode_response marshal_response equal_fold
decode_parts-marshal strict version none none id h = ground arith
decode_parts-marshal strict version (some v) none id h = ground arith
decode_parts-marshal strict version none (some e) id h =
    ground (arith, decode_members-marshal strict e.code e.message e.content h)
decode_parts-marshal strict version (some v) (some e) id h =
    ground (arith, decode_members-marshal strict e.code e.message e.content h)

-- Also its data can be held in an interface{}.
abbrev pub Kept : Response → Type 0
Kept r = Fits r.error × HeldError r.error × IsHeld r.id

stored-parts :
    (version : String) (result : Option Value) (error : Option RpcError) (id : Value)
    → HeldError error
    → IsHeld id
    → let r : Response = record { jsonrpc = version; result = result; error = error; id = id } in
      stored r ≡ some r
stored-parts version result none id e h = ground (arith, as_interface-IsHeld id h)
stored-parts version result (some e) id held h =
    ground (arith, as_interface-IsHeld id h, as_interface-IsHeld e.content held)

pub decode-stored :
    (strict : Bool) (r : Response)
    → Fits r.error
    → decode_response strict (marshal_response r) ≡ stored r
decode-stored strict r h = decode_parts-marshal strict r.jsonrpc r.result r.error r.id h

-- A response is read back from its text as it was, by the strict reader and by the lenient
-- one, where the code of its error, if it has one, is an int, and an interface{} holds its id
-- and the data of its error, that is, integers in them are at most 2^53 in magnitude, other
-- numbers are rounded to a float64 and the keys of objects are in order without repetition.
pub decode-marshal_response :
    (strict : Bool) (r : Response)
    → Fits r.error
    → HeldError r.error
    → IsHeld r.id
    → decode_response strict (marshal_response r) ≡ some r
decode-marshal_response strict r h held id =
    decode-stored strict r h ∙ stored-parts r.jsonrpc r.result r.error r.id held id

-- A response that can be stored: no number in it is beyond the range of a float64.
abbrev pub IsStorable : Response → Type 0
IsStorable r = (kept : Response) × (stored r ≡ some kept)

decode_items-stored :
    (rs : List Response)
    → All (λ r. Fits r.error) rs
    → All IsStorable rs
    → (kept : List Response) × (decode_response_items (of_items (map marshal_response rs))
        ≡ some kept)
      × (length kept ≡ length rs)
unfolding decode_response_items
decode_items-stored [] h k = ([], refl, refl)
decode_items-stored (r ∷ rs) h k =
    let (kept, more, same) = decode_items-stored rs h.1 k.1 in
    let (first, e) = k.0 in
    let d = decode-stored false r h.0 in (first ∷ kept, ground arith, ground arith)

-- So is an array of responses.
pub decode-stored_responses :
    (rs : List Response)
    → All (λ r. Fits r.error) rs
    → All IsStorable rs
    → (kept : List Response) × (decode_responses (arr (of_items (map marshal_response rs)))
        ≡ some kept)
      × (length kept ≡ length rs)
unfolding decode_responses
decode-stored_responses rs h k = decode_items-stored rs h k

decode_items-marshal :
    (rs : List Response)
    → All Kept rs
    → decode_response_items (of_items (map marshal_response rs)) ≡ some rs
unfolding decode_response_items
decode_items-marshal [] h = refl
decode_items-marshal (r ∷ rs) h =
    ground (arith, decode-marshal_response false r h.0.0 h.0.1 h.0.2, decode_items-marshal rs h.1)

pub decode-marshal_responses :
    (rs : List Response)
    → All Kept rs
    → decode_responses (arr (of_items (map marshal_response rs))) ≡ some rs
unfolding decode_responses
decode-marshal_responses rs h = decode_items-marshal rs h
