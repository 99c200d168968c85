-- ===== src/Jsonrpc/Value.antt =====
-- JSON documents (internal/jsonrpc). A json.RawMessage is the value that its text spells: a number
-- written as a decimal integer, other than -0, is `int`, and any other number is `float` with its
-- literal. What encoding/json keeps of a value in an interface{} is a value too: there `rounded s` is
-- the float64 nearest to the number that s spells, and in a document the text that it is given.
use web3signer_go.Base.{String, Bool, ℤ, List, [], ◌∷◌}

mutual
  pub data Value : Type 0 where
    null : Value
    bool : Bool → Value
    int : ℤ → Value
    float rounded str : String → Value
    arr : Items → Value
    obj : Fields → Value

  pub data Fields : Type 0 where
    end : Fields
    field : String → Value → Fields → Fields

  pub data Items : Type 0 where
    nil : Items
    cons : Value → Items → Items

abbrev pub items : Items → List Value
items nil = []
items (cons v vs) = v ∷ items vs

abbrev pub of_items : List Value → Items
of_items [] = nil
of_items (v ∷ vs) = cons v (of_items vs)

abbrev pub fields : Fields → List (String × Value)
fields end = []
fields (field k v fs) = (k, v) ∷ fields fs
