-- ===== src/Router/Tests/Batches.antt =====
-- A batch on the forwarding path, with a node that fails.
use web3signer_go.Base.{pos, ℕ, refl, List, [], ◌∷◌}
use web3signer_go.Jsonrpc.Value.{int}
use web3signer_go.Jsonrpc.Types.{Request}
use web3signer_go.Router.ForwardHandler.{ForwardHandler}
use web3signer_go.Router.Forwarding.{batch_responses}
use web3signer_go.Router.Forwarding.Laws.{Holds, batch_responses-Holds}
use web3signer_go.Router.Tests.{libs, node, empty, sign_call}

abbrev block_number : Request
block_number = record sign_call { method = "eth_blockNumber"; id = int (pos 2) }

abbrev batch : List Request
batch = block_number ∷ sign_call ∷ []

abbrev forward_handler : ForwardHandler ℕ
forward_handler = record { client = node }

batch_responses-Holds_example : Holds batch (batch_responses libs empty forward_handler batch 0).0 1
batch_responses-Holds_example =
    batch_responses-Holds libs empty forward_handler batch 0 1 sign_call refl
