-- ===== src/Errors/Logger/Calls.antt =====
-- Which value a call of logrus has under a key.
use web3signer_go.Base.{
  if◌then◌else◌, str_eq, String, ◌≡◌, ◌∙◌, refl, sym, ap, Bool, true, false, Option, none, some,
  List, [], ◌∷◌, arith, eq_iff,
}
use web3signer_go.Base.Dict.{lookup, insert, lookup-insert, Distinct}
use web3signer_go.Jsonrpc.Value.{Value, str}
use web3signer_go.Errors.Logger.{
  StructuredLogger, Store, own_fields, put_all, put_text, put_pairs, call_fields,
}
use web3signer_go.Errors.Context.{Fields}

abbrev pub or_next : Option Value → Option Value → Option Value
or_next (some v) next = some v
or_next none next = next

-- The value of the last entry under a key.
abbrev pub last : String → Fields → Option Value
last key [] = none
last key ((k, v) ∷ more) = or_next (last key more) (if str_eq k key then some v else none)

-- The value of the last pair under a key.
abbrev pub last_pair : String → List Value → Option Value
last_pair key [] = none
last_pair key (k ∷ []) = none
last_pair key (str k ∷ v ∷ more) =
    or_next (last_pair key more) (if str_eq k key then some v else none)
last_pair key (k ∷ v ∷ more) = last_pair key more

-- A text under a name, unless it is empty.
abbrev pub named : String → String → String → Option Value
named name text key =
    if str_eq text "" then none else if str_eq name key then some (str text) else none

or_next_assoc : (a b c : Option Value) → or_next (or_next a b) c ≡ or_next a (or_next b c)
or_next_assoc none b c = refl
or_next_assoc (some v) b c = refl

or_next_if :
    (test : Bool) (v : Value) (o : Option Value)
    → or_next (if test then some v else none) o ≡ (if test then some v else o)
or_next_if true v o = refl
or_next_if false v o = refl

lookup-put_all :
    (key : String) (more fs : Fields)
    → lookup key (put_all more fs) ≡ or_next (last key more) (lookup key fs)
unfolding put_all
lookup-put_all key [] fs = refl
lookup-put_all key ((k, v) ∷ more) fs =
    lookup-put_all key more (insert k v fs)
    ∙ ap (or_next (last key more))
        (lookup-insert k key v fs ∙ sym (or_next_if (str_eq k key) v (lookup key fs)))
    ∙ sym (or_next_assoc (last key more) (if str_eq k key then some v else none) (lookup key fs))

lookup-put_pairs :
    (key : String) (pairs : List Value) (fs : Fields)
    → lookup key (put_pairs pairs fs) ≡ or_next (last_pair key pairs) (lookup key fs)
unfolding put_pairs
lookup-put_pairs key [] fs = refl
lookup-put_pairs key (k ∷ []) fs = refl
lookup-put_pairs key (str k ∷ v ∷ more) fs =
    lookup-put_pairs key more (insert k v fs)
    ∙ ap (or_next (last_pair key more))
        (lookup-insert k key v fs ∙ sym (or_next_if (str_eq k key) v (lookup key fs)))
    ∙ sym
        (or_next_assoc (last_pair key more) (if str_eq k key then some v else none) (lookup key fs))
lookup-put_pairs key (k ∷ v ∷ more) fs = lookup-put_pairs key more fs

lookup-put_text :
    (key name text : String) (fs : Fields)
    → lookup key (put_text name text fs) ≡ or_next (named name text key) (lookup key fs)
unfolding put_text
lookup-put_text key name text fs = ground (arith, lookup-insert name key (str text) fs)

-- In a map, the last entry under a key is the only one.
last-lookup : (key : String) (fs : Fields) → Distinct fs → last key fs ≡ lookup key fs
unfolding lookup
last-lookup key [] h = refl
last-lookup key ((k, v) ∷ fs) h = ground (arith, eq_iff k key, last-lookup key fs h.1)

or_next-none : (o : Option Value) → or_next o none ≡ o
or_next-none none = refl
or_next-none (some v) = refl

lookup-copy :
    (key : String) (fs : Fields) → Distinct fs → lookup key (put_all fs []) ≡ lookup key fs
lookup-copy key fs h = lookup-put_all key fs [] ∙ nothing_below ∙ last-lookup key fs h
  where
    nothing_below : or_next (last key fs) (lookup key []) ≡ last key fs
    nothing_below = unfold lookup in or_next-none (last key fs)

-- A logger whose own fields have no key twice calls logrus with, under each key, the last of
-- the pairs of the call; else the operation and then the request id of the logger under their
-- names, unless they are empty; else what its own fields have.
pub lookup-call_fields :
    (key : String) (l : StructuredLogger) (pairs : List Value) (st : Store)
    → Distinct (own_fields l st)
    → lookup key (call_fields l pairs st)
      ≡ or_next (last_pair key pairs) (
          or_next
            (named "operation" l.operation key)
            (or_next (named "request_id" l.request_id key) (lookup key (own_fields l st))))
unfolding call_fields
lookup-call_fields key l pairs st h =
    lookup-put_pairs key pairs _
    ∙ ap (or_next (last_pair key pairs)) (
        lookup-put_text key "operation" l.operation _
        ∙ ap (or_next (named "operation" l.operation key)) (
            lookup-put_text key "request_id" l.request_id _
            ∙ ap (or_next (named "request_id" l.request_id key))
                (lookup-copy key (own_fields l st) h)))
