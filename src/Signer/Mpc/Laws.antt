-- ===== src/Signer/Mpc/Laws.antt =====
-- What a signed transaction holds.
use web3signer_go.Base.{
  ◌==◌, Bool-cases, length, take, drop, ℤ, pos, Result, ok, err, Result-cases, ℕ, zero, suc, ◌+◌,
  ◌*◌, ◌/◌, ◌%◌, ◌^◌, ◌≤◌, String, ◌≡◌, refl, sym, ap, subst, ◌∙◌, ◌≢◌, inl, inr, Option, none,
  some, List, [], ◌∷◌, arith,
}
use native.Mathlib.Nat.{pow-suc, div-add-mod}
use web3signer_go.Utils.{hex_decode}
use web3signer_go.Errors.Types.{GoError}
use web3signer_go.Jsonrpc.Value.{Value}
use web3signer_go.Signer.Transaction.{TxType, legacy, Address, Transaction}
use web3signer_go.Signer.Mpc.{
  Hashing, MpcSigner, trim_bytes_zeros, big_bytes_from, big_bytes, magnitude, v_value, signed_items,
  sign_hash, apply_signature, sign, finish, sign_transaction_internal, copied, sign_transaction,
  byte_at,
}

-- The number that bytes spell, the first byte highest.
abbrev pub big_endian : List ℕ → ℕ
big_endian [] = 0
big_endian (b ∷ bs) = b * 256 ^ length bs + big_endian bs

-- No leading zero, but for the single byte 0.
abbrev pub IsTrimmed : List ℕ → Type 0
IsTrimmed [] = ⊥
IsTrimmed (b ∷ []) = Unit {0}
IsTrimmed (b ∷ c ∷ bs) = b ≢ 0

-- Trimming bytes keeps the number that they spell and leaves no leading zero, and at least one
-- byte.
pub trim_bytes_zeros_lem :
    (bs : List ℕ)
    → (big_endian (trim_bytes_zeros bs) ≡ big_endian bs) × IsTrimmed (trim_bytes_zeros bs)
unfolding trim_bytes_zeros
trim_bytes_zeros_lem [] = (refl, tt)
trim_bytes_zeros_lem (b ∷ []) = ground arith
trim_bytes_zeros_lem (b ∷ c ∷ bs) = ground (arith, trim_bytes_zeros_lem (c ∷ bs))

big_bytes_from_lem :
    (fuel n : ℕ) (acc : List ℕ)
    → n ≤ fuel
    → big_endian (big_bytes_from fuel n acc) ≡ n * 256 ^ length acc + big_endian acc
unfolding big_bytes_from
big_bytes_from_lem zero n acc h = grind arith
big_bytes_from_lem (suc fuel) n acc h = elim (Bool-cases (n == 0)) [
  | inl e ↦ ground arith
  | inr e ↦ rw e (
      big_bytes_from_lem fuel (n / 256) (n % 256 ∷ acc) (ground arith)
      ∙ omega (
        arith,
        pow-suc 256 (length acc),
        ap (λ (t : ℕ). n / 256 * t) (pow-suc 256 (length acc)),
        ap (λ (t : ℕ). t * 256 ^ length acc) (div-add-mod n 256),
      ))
]

-- The bytes of a big integer spell its magnitude.
pub big_bytes_lem : (n : ℕ) → big_endian (big_bytes n) ≡ n
unfolding big_bytes
big_bytes_lem n = big_bytes_from_lem n n [] (omega arith) ∙ omega arith

-- The hash that is signed depends on the signer's chain id and not on the one that the
-- transaction carries.
pub sign_hash-chain_id :
    (hs : Hashing) (chain_id own : Option ℤ) (tx : Transaction)
    → sign_hash hs chain_id (record tx { chain_id = own }) ≡ sign_hash hs chain_id tx
unfolding sign_hash signed_items
sign_hash-chain_id hs chain_id own tx = refl

-- The V of the signature: its last byte, and for a legacy transaction 35 and twice the chain id on
-- top, where the signer has one.
abbrev pub v_spec : TxType → Option ℕ → ℕ → ℕ
v_spec legacy none id = id + 35
v_spec legacy (some c) id = id + 35 + 2 * c
v_spec _ c id = id

abbrev pub nonnegative : Option ℕ → Option ℤ
nonnegative none = none
nonnegative (some n) = some (pos n)

v_value_lem :
    (chain : Option ℕ) (kind : TxType) (id : ℕ)
    → magnitude (v_value (nonnegative chain) kind id) ≡ v_spec kind chain id
unfolding v_value
v_value_lem none legacy id = ground arith
v_value_lem (some c) legacy id = ground arith
v_value_lem none _ id = ground arith
v_value_lem (some c) _ id = ground arith

-- A transaction signed with a signature: what was asked for, from the signer's address, with the
-- numbers of the signature in R, S and V, the first two without leading zeros.
pub record IsSigned (address : Address) (chain : Option ℕ) (tx : Transaction) (sig : List ℕ)
    (signed : Transaction) : Type 0 where
  pub full : length sig ≡ 65
  pub frame : signed ≡ record tx { from = address; r = signed.r; s = signed.s; v = signed.v }
  pub r_number : big_endian signed.r ≡ big_endian (take 32 sig)
  pub r_trimmed : IsTrimmed signed.r
  pub s_number : big_endian signed.s ≡ big_endian (take 32 (drop 32 sig))
  pub s_trimmed : IsTrimmed signed.s
  pub v_number : big_endian signed.v ≡ v_spec tx.kind chain (byte_at sig 64)

apply_signature-IsSigned :
    {W : Type 0} (m : MpcSigner W) (chain : Option ℕ) (tx : Transaction) (sig : List ℕ)
    → length sig ≡ 65
    → IsSigned m.address chain tx sig (apply_signature (nonnegative chain) (copied m tx) sig)
unfolding apply_signature copied
apply_signature-IsSigned m chain tx sig n =
    let (r_number, r_trimmed) = trim_bytes_zeros_lem (take 32 sig) in
    let (s_number, s_trimmed) = trim_bytes_zeros_lem (take 32 (drop 32 sig)) in
    record {
      full = n;
      frame = refl;
      r_number = r_number;
      r_trimmed = r_trimmed;
      s_number = s_number;
      s_trimmed = s_trimmed;
      v_number = big_bytes_lem _ ∙ v_value_lem chain tx.kind (byte_at sig 64);
    }

module _ (hs : Hashing) (fmt_v : Value → String) (hex_failure : List ℕ → GoError) where
  sign-ok :
      {W : Type 0} (m : MpcSigner W) (hash sig : List ℕ) (w : W)
      → (sign hs fmt_v hex_failure m hash w).0 ≡ ok sig
      → (length hash ≡ 32)
        × ((text : List ℕ) × ((m.client.sign m.key_id hash w).0 ≡ ok text)
            × (hex_decode text ≡ some sig))
  unfolding sign
  sign-ok m hash sig w h = elim (Bool-cases (length hash == 32)) [
    | inl e ↦ elim (Result-cases (m.client.sign m.key_id hash w).0) [
      | inl (text, got) ↦ (ground arith, (text, got, ground arith))
      | inr (x, got) ↦ absurd (ground arith)
    ]
    | inr e ↦ absurd (ground arith)
  ]

  finish-ok :
      (chain_id : Option ℤ) (tx signed : Transaction) (got : Result GoError (List ℕ))
      → finish hs fmt_v hex_failure chain_id tx got ≡ ok signed
      → (sig : List ℕ) × (got ≡ ok sig)
        × (length sig ≡ 65)
        × (signed ≡ apply_signature chain_id tx sig)
  finish-ok chain_id tx signed (ok sig) h = (sig, refl, ground arith, ground arith)
  finish-ok chain_id tx signed (err e) h = absurd (ground arith)

  -- Where the signer's chain id, if it has one, is not negative, a transaction comes back
  -- signed only with a signature of 65 bytes that the MPC-KMS gave for the 32 bytes of its
  -- hash; it is the transaction asked for, from the signer's address, with r and s without
  -- leading zeros and v according to its type and chain id.
  pub sign_transaction_sound :
      {W : Type 0} (m : MpcSigner W) (chain : Option ℕ) (tx signed : Transaction) (w : W)
      → m.chain_id ≡ nonnegative chain
      → (sign_transaction hs fmt_v hex_failure m tx w).0 ≡ ok signed
      → (hash text sig : List ℕ) × (sign_hash hs m.chain_id (copied m tx) ≡ ok hash)
        × (length hash ≡ 32)
        × ((m.client.sign m.key_id hash w).0 ≡ ok text)
        × (hex_decode text ≡ some sig)
        × IsSigned m.address chain tx sig signed
  unfolding sign_transaction sign_transaction_internal
  sign_transaction_sound m chain tx signed w c h =
      elim (Result-cases (sign_hash hs m.chain_id (copied m tx))) [
        | inl (hash, hashed) ↦
            let (sig, got, n, same) =
              finish-ok m.chain_id (copied m tx) signed (sign hs fmt_v hex_failure m hash w).0
                (ground arith) in
            let (n', (text, given, decoded)) = sign-ok m hash sig w got in
            (
              hash,
              text,
              sig,
              hashed,
              n',
              given,
              decoded,
              subst (IsSigned m.address chain tx sig)
                  (sym (same ∙ ap (λ x. apply_signature x (copied m tx) sig) c))
                  (apply_signature-IsSigned m chain tx sig n),
            )
        | inr (e, hashed) ↦ absurd (ground arith)
      ]
