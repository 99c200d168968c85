-- ===== src/Kms/Types.antt =====
-- internal/kms/types.go and interface.go: what is exchanged with the MPC-KMS.
use web3signer_go.Base.{Result, ℕ, String, Option, none, List}
use web3signer_go.Utils.{hex_encode}
use web3signer_go.Errors.Types.{GoError}

-- DataEncoding is a string; what is no constant of the package is `other`.
pub data DataEncoding : Type 0 where
  plain_text base64 hex : DataEncoding
  other : String → DataEncoding

unfoldable pub encoding_text : DataEncoding → String
encoding_text plain_text = "PLAIN"
encoding_text base64 = "BASE64"
encoding_text hex = "HEX"
encoding_text (other s) = s

pub record SignSummary : Type 0 where
  pub kind : String
  pub from : String
  pub to : String
  pub amount : String
  pub remark : String
  pub token : String

unfoldable pub new_transfer_summary : String → String → String → String → String → SignSummary
new_transfer_summary from to amount token remark = record {
  kind = "TRANSFER";
  from = from;
  to = to;
  amount = amount;
  remark = remark;
  token = token;
}

pub record SignRequest : Type 0 where
  pub content : String
  pub data_encoding : String
  pub summary : Option SignSummary
  pub callback_url : String

-- encoding/base64, and the text of bytes as they are.
pub record Encodings : Type 0 where
  pub base64_text : List ℕ → String
  pub raw_text : List ℕ → String

unfoldable pub new_sign_request : Encodings → List ℕ → DataEncoding → SignRequest
unfolding hex_encode encoding_text
new_sign_request es content encoding = record {
  content = elim encoding [
    | base64 ↦ es.base64_text content
    | hex ↦ hex_encode content
    | _ ↦ es.raw_text content
  ];
  data_encoding = encoding_text encoding;
  summary = none;
  callback_url = "";
}

-- TaskStatus is a string; what is no constant of the package is `unknown`.
pub data TaskStatus : Type 0 where
  pending_approval approved rejected done failed : TaskStatus
  unknown : String → TaskStatus

pub record TaskResult : Type 0 where
  pub status : TaskStatus
  pub message : String
  pub response : String

-- ClientInterface, as far as the signers call it. The bytes returned are the text that the KMS
-- gave as the signature.
pub record KmsClient (W : Type 0) : Type 0 where
  pub sign : String → List ℕ → W → Result GoError (List ℕ) × W
  pub sign_with_options :
      String → List ℕ → DataEncoding → Option SignSummary → String → W → Result GoError (List ℕ) × W
