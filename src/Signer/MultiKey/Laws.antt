-- ===== src/Signer/MultiKey/Laws.antt =====
-- The key table under any sequence of additions and removals.
use web3signer_go.Base.{
  if◌then◌else◌, Option-cases, ℤ, str_eq, Result, ok, err, ℕ, String, ◌≡◌, refl, sym, subst, ◌≢◌,
  inl, inr, Option, none, some, List, [], ◌∷◌, arith, eq_iff,
}
use web3signer_go.Base.Dict.{
  lookup, lookup-insert, lookup-delete, Distinct, Distinct-insert, Distinct-delete,
}
use web3signer_go.Errors.Types.{GoError}
use web3signer_go.Jsonrpc.Value.{Value}
use web3signer_go.Signer.Transaction.{Transaction}
use web3signer_go.Signer.Mpc.{Hashing}
use web3signer_go.Signer.MultiKey.{
  Client, MultiKeySigner, new_multi_key_signer, add_client, remove_client, get_client, address,
  client_address, client_sign, client_sign_transaction, multi_sign, multi_sign_transaction,
}

pub data Change (W : Type 0) : Type 0 where
  adds : String → Option (Client W) → Change W
  removes : String → Change W

-- A change that fails leaves the table as it was.
abbrev pub kept :
    {W : Type 0} → MultiKeySigner W → Result GoError (MultiKeySigner W) → MultiKeySigner W
kept m (ok m') = m'
kept m (err e) = m

abbrev pub change : {W : Type 0} → MultiKeySigner W → Change W → MultiKeySigner W
change m (adds key_id c) = kept m (add_client key_id c m)
change m (removes key_id) = kept m (remove_client key_id m)

abbrev pub changes : {W : Type 0} → MultiKeySigner W → List (Change W) → MultiKeySigner W
changes m [] = m
changes m (c ∷ cs) = changes (change m c) cs

module _ {W : Type 0} where
  -- What a table stays: no key twice, none empty, the same default.
  pub record IsTable (default : String) (m : MultiKeySigner W) : Type 0 where
    pub distinct : Distinct m.clients
    pub named : lookup "" m.clients ≡ none
    pub same_default : m.default_key_id ≡ default

  change-IsTable :
      {d : String} (m : MultiKeySigner W) (c : Change W) → IsTable d m → IsTable d (change m c)
  unfolding add_client remove_client
  change-IsTable m (adds key_id none) t = ground arith
  change-IsTable m (adds key_id (some c)) t = ground (
    arith,
    Distinct-insert key_id c m.clients t.distinct,
    lookup-insert key_id "" c m.clients,
    eq_iff key_id "",
  )
  change-IsTable m (removes key_id) t =
      ground (arith, Distinct-delete key_id m.clients t.distinct, lookup-delete key_id "" m.clients)

  changes-IsTable :
      {d : String} (m : MultiKeySigner W) (cs : List (Change W))
      → IsTable d m
      → IsTable d (changes m cs)
  changes-IsTable m [] t = t
  changes-IsTable m (c ∷ cs) t = changes-IsTable (change m c) cs (change-IsTable m c t)

  -- However keys are added and removed, a new table of keys holds no key twice and no empty
  -- key, and keeps its default key.
  pub new_multi_key_signer-IsTable :
      (default : String) (chain_id : Option ℤ) (cs : List (Change W))
      → IsTable default (changes (new_multi_key_signer default chain_id) cs)
  unfolding new_multi_key_signer lookup
  new_multi_key_signer-IsTable default chain_id cs =
      changes-IsTable _ cs (record { distinct = tt; named = refl; same_default = refl })

  change-default :
      (m : MultiKeySigner W) (d : String) (ch : Change W) (c : Client W)
      → m.default_key_id ≡ d
      → lookup d m.clients ≡ some c
      → ((change m ch).default_key_id ≡ d) × (lookup d (change m ch).clients ≡ some c)
  unfolding add_client remove_client
  change-default m d (adds key_id none) c e h = ground arith
  change-default m d (adds key_id (some c')) c e h =
      ground (arith, lookup-insert key_id d c' m.clients, eq_iff key_id d)
  change-default m d (removes key_id) c e h =
      ground
        (arith, lookup-delete key_id d m.clients, eq_iff key_id d, eq_iff key_id m.default_key_id)

  -- Once the default key has a client, no additions or removals change the signer's address or
  -- what it signs without a key id: these stay those of that client.
  pub changes-default :
      (hs : Hashing) (fmt_v : Value → String) (hex_failure : List ℕ → GoError)
      (m : MultiKeySigner W) (cs : List (Change W)) (c : Client W)
      → lookup m.default_key_id m.clients ≡ some c
      → (address (changes m cs) ≡ client_address c)
        × ((hash : List ℕ) (w : W)
            → multi_sign hs fmt_v hex_failure (changes m cs) hash w
              ≡ client_sign hs fmt_v hex_failure c hash w)
        × ((tx : Transaction) (w : W)
            → multi_sign_transaction hs fmt_v hex_failure (changes m cs) tx w
              ≡ client_sign_transaction hs fmt_v hex_failure c tx w)
  unfolding address multi_sign multi_sign_transaction get_client
  changes-default hs fmt_v hex_failure m [] c h =
      (ground arith, (λ hash w. ground arith), (λ tx w. ground arith))
  changes-default hs fmt_v hex_failure m (ch ∷ cs) c h =
      let (e, kept') = change-default m m.default_key_id ch c refl h in
      changes-default hs fmt_v hex_failure (change m ch) cs c
        (subst (λ d. lookup d (change m ch).clients ≡ some c) (sym e) kept')

  -- A client is added only under a key that is not empty and had none; it is then found under
  -- it, and every other key finds what it found before.
  pub get_client-add_client :
      (m m' : MultiKeySigner W) (k j : String) (c : Client W)
      → add_client k (some c) m ≡ ok m'
      → (lookup k m.clients ≡ none)
        × (k ≢ "")
        × (get_client j m' ≡ (if str_eq k j then ok c else get_client j m))
  unfolding add_client get_client
  get_client-add_client m m' k j c h = elim (Option-cases (lookup k m.clients)) [
    | inl e ↦ (e, (λ x. ground (arith, eq_iff k "")), ground (arith, lookup-insert k j c m.clients))
    | inr (old, e) ↦ absurd (ground arith)
  ]

  -- A client is removed only where there is one and its key is not the default; no client is
  -- then found under the key, and every other key finds what it found before.
  pub get_client-remove_client :
      (m m' : MultiKeySigner W) (k j : String)
      → remove_client k m ≡ ok m'
      → (k ≢ m.default_key_id)
        × ((c : Client W) × (get_client k m ≡ ok c))
        × (get_client j m' ≡ (if str_eq k j then get_client k m' else get_client j m))
        × ((c : Client W) → get_client k m' ≢ ok c)
  unfolding remove_client get_client
  get_client-remove_client m m' k j h = elim (Option-cases (lookup k m.clients)) [
    | inl e ↦ absurd (ground arith)
    | inr (old, e) ↦ (
      (λ x. ground (arith, eq_iff k m.default_key_id)),
      (old, ground arith),
      ground (arith, eq_iff k j, lookup-delete k j m.clients, lookup-delete k k m.clients),
      (λ c x. ground (arith, eq_iff k k, lookup-delete k k m.clients)),
    )
  ]
