-- ===== src/Downstream/Ids.antt =====
-- internal/downstream/client.go: the comparison of ids, whose outcome is logged, and
-- internal/downstream/interface.go: SimpleForwarder.
pub mod Laws
use web3signer_go.Base.{
  if◌then◌else◌, ℤ, pos, eqb_ℤ, str_eq, show_ℤ, Result, ok, err, map_err, String, ◌+++◌, Bool, true,
  false, List, [], ◌∷◌, some,
}
use web3signer_go.Errors.Types.{GoError, plain}
use web3signer_go.Jsonrpc.Value.{Value, int}
use web3signer_go.Jsonrpc.Types.{Request, Response}
use web3signer_go.Downstream.Client.{DownstreamClient}

-- Floating-point numbers with `==` and strconv.FormatFloat.
pub record Floats : Type 1 where
  pub Float : Type 0
  pub same : Float → Float → Bool
  pub text : Float → String

module _ (fs : Floats) where
  -- The dynamic types behind an id. `number` is each other integer type, `small` a float32 with the
  -- text that FormatFloat gives it, and `printed` any other value with its `%v`.
  pub data DynamicId : Type 0 where
    no_id : DynamicId
    text_id : String → DynamicId
    int_id number : ℤ → DynamicId
    float_id : fs.Float → DynamicId
    small bytes_id printed : String → DynamicId

  unfoldable pub to_string : DynamicId → String
  to_string no_id = ""
  to_string (text_id s) = s
  to_string (int_id n) = show_ℤ n
  to_string (number n) = show_ℤ n
  to_string (float_id x) = fs.text x
  to_string (small s) = s
  to_string (bytes_id s) = s
  to_string (printed s) = s

  unfoldable pub compare_ids : DynamicId → DynamicId → Bool
  unfolding to_string
  compare_ids no_id no_id = true
  compare_ids no_id b = false
  compare_ids a no_id = false
  compare_ids (text_id s) (text_id t) = str_eq s t
  compare_ids (int_id m) (int_id n) = eqb_ℤ m n
  compare_ids (float_id x) (float_id y) = fs.same x y
  compare_ids a b = str_eq (to_string a) (to_string b)

-- `marshal` is json.Marshal of the parameters.
unfoldable pub forward {ℓ} :
    {P : Type ℓ} {W : Type 0}
    → (P → Result GoError Value)
    → (GoError → String)
    → DownstreamClient W
    → String
    → P
    → W
    → Result GoError Response × W
forward marshal text client method params w = elim (marshal params) [
  | err e ↦ (err (plain ("failed to marshal params: " +++ text e)), w)
  | ok v ↦
      client.forward_request
        (record { jsonrpc = "2.0"; method = method; params = some v; id = int (pos 1) }) w
]

unfoldable pub forward_batch :
    {W : Type 0} → DownstreamClient W → List Request → W → Result GoError (List Response) × W
forward_batch client reqs w = client.forward_batch_request reqs w
