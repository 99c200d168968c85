-- ===== src/Signer/Tests/Signing.antt =====
-- The signers at concrete keys.
use web3signer_go.Base.{
  length, replicate, pos, ok, ℕ, suc, String, ◌≡◌, refl, none, some, List, [], ◌∷◌,
}
use web3signer_go.Base.Dict.{lookup}
use web3signer_go.Errors.Types.{GoError, plain}
use web3signer_go.Jsonrpc.Value.{Value}
use web3signer_go.Utils.{hex_decode}
use web3signer_go.Kms.Types.{KmsClient}
use web3signer_go.Signer.Transaction.{Transaction, zero_transaction}
use web3signer_go.Signer.Mpc.{
  Hashing, MpcSigner, trim_bytes_zeros, sign, sign_hash, copied, sign_transaction,
  sign_transaction_internal, apply_signature, v_value, big_bytes,
}
use web3signer_go.Signer.Mpc.Laws.{IsSigned, sign_transaction_sound}
use web3signer_go.Signer.MultiKey.{
  mpc, MultiKeySigner, address, client_sign, client_sign_transaction, multi_sign,
  multi_sign_transaction,
}
use web3signer_go.Signer.MultiKey.Laws.{Change, adds, removes, changes, changes-default}
use web3signer_go.Signer.Tests.{sample_address}

-- The world is the number of signatures given.
abbrev signature_text : List ℕ
signature_text = replicate 130 b'1'

abbrev pub sample_kms : KmsClient ℕ
sample_kms = record {
  sign = (λ key_id hash n. (ok signature_text, suc n));
  sign_with_options = (λ key_id hash encoding summary callback_url n. (ok signature_text, suc n));
}

abbrev pub sample_hashing : Hashing
sample_hashing = record {
  access_error = (λ entries. none);
  marshal = (λ is. []);
  keccak = (λ bs. replicate 32 1);
}

abbrev no_text : Value → String
no_text v = ""

abbrev hex_failure : List ℕ → GoError
hex_failure bs = plain "bad hex"

abbrev signer : MpcSigner ℕ
signer = record {
  client = sample_kms;
  key_id = "k1";
  address = sample_address;
  chain_id = some (pos 1);
}

abbrev signed : Transaction
signed = record zero_transaction {
  from = sample_address;
  r = replicate 32 17;
  s = replicate 32 17;
  v = 54 ∷ [];
}

sign_transaction_sound_example :
    (hash text sig : List ℕ) × (sign_hash sample_hashing
        (some (pos 1))
        (copied signer zero_transaction)
      ≡ ok hash)
    × (length hash ≡ 32)
    × ((sample_kms.sign "k1" hash 0).0 ≡ ok text)
    × (hex_decode text ≡ some sig)
    × IsSigned sample_address (some 1) zero_transaction sig signed
unfolding sign_transaction sign_transaction_internal sign sign_hash hex_decode copied
    apply_signature v_value trim_bytes_zeros big_bytes
sign_transaction_sound_example =
    sign_transaction_sound sample_hashing no_text hex_failure signer (some 1) zero_transaction
      signed 0 refl refl

abbrev table : List (Change ℕ)
table = adds "k1" (some (mpc signer)) ∷ adds "k2" (some (mpc signer)) ∷ removes "k1" ∷ []

abbrev one_key : MultiKeySigner ℕ
one_key = record {
  clients = ("k1", mpc signer) ∷ [];
  default_key_id = "k1";
  chain_id = some (pos 1);
}

changes-default_example :
    (address (changes one_key table) ≡ sample_address)
    × ((hash : List ℕ) (n : ℕ)
        → multi_sign sample_hashing no_text hex_failure (changes one_key table) hash n
          ≡ client_sign sample_hashing no_text hex_failure (mpc signer) hash n)
    × ((tx : Transaction) (n : ℕ)
        → multi_sign_transaction sample_hashing no_text hex_failure (changes one_key table) tx n
          ≡ client_sign_transaction sample_hashing no_text hex_failure (mpc signer) tx n)
unfolding lookup
changes-default_example =
    changes-default sample_hashing no_text hex_failure one_key table (mpc signer) refl

abbrev k2 : String
k2 = "k2"

abbrev two_keys : MultiKeySigner ℕ
two_keys = record one_key { clients = ("k1", mpc signer) ∷ ("k2", mpc signer) ∷ [] }
