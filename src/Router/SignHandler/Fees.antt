-- ===== src/Router/SignHandler/Fees.antt =====
-- The gas and the fees that eth_sendTransaction fills in.
use web3signer_go.Base.{
  ◌==◌, if◌then◌else◌, Bool-cases, ℤ, pos, ℕ, ◌+◌, ◌*◌, ◌/◌, ◌≤◌, ◌<◌, ◌≡◌, refl, ◌≢◌, ◌⊎◌, inl,
  inr, true, false, Option, some, arith,
}
use web3signer_go.Signer.Transaction.{TxType, legacy, access_list, dynamic_fee, Transaction, u64}
use web3signer_go.Router.Node.{is_unset, fill_fee, fill_gas_price, with_margin}

-- Unless 120 times the estimate overflows a uint64, the gas is the estimate and a fifth of it,
-- rounded down, and so not below the estimate.
pub with_margin-bounds : (n : ℕ) → n * 120 < u64 → (with_margin n ≡ n + n / 5) × (n ≤ with_margin n)
unfolding with_margin
with_margin-bounds n h = (omega arith, omega arith)

-- The fee that the type of the transaction takes: what it is afterwards.
abbrev pub Filled : ℕ → Option ℤ → Option ℤ → Type 0
Filled price before now =
    (is_unset before ≡ false → now ≡ before)
    × (is_unset before ≡ true → now ≡ some (pos price))
    × (is_unset now ≡ false)

is_unset-price : (price : ℕ) → 0 < price → price < u64 → is_unset (some (pos price)) ≡ false
unfolding is_unset
is_unset-price price h bound = ground arith

fill_fee-Filled :
    (price : ℕ) (fee : Option ℤ) → 0 < price → price < u64 → Filled price fee (fill_fee price fee)
fill_fee-Filled price fee h bound = elim (Bool-cases (is_unset fee)) [
  | inl e ↦ (
    (λ x. absurd (ground arith)),
    (λ x. ground arith),
    ground (arith, is_unset-price price h bound),
  )
  | inr e ↦ ((λ x. ground arith), (λ x. absurd (ground arith)), ground arith)
]

kind-cases : (k : TxType) → (k ≡ dynamic_fee) ⊎ ((k ≡ legacy) ⊎ (k ≡ access_list))
kind-cases legacy = inr (inl refl)
kind-cases access_list = inr (inr refl)
kind-cases dynamic_fee = inl refl

-- With a price that is a uint64 and not 0, a transaction of type 2 keeps each fee that is set,
-- gets the price for each that is not, and changes in no other field; any other keeps its gas
-- price unless it is 0, which becomes the price, and changes in no other field.
pub fill_gas_price_lem :
    (price : ℕ) (tx : Transaction)
    → 0 < price
    → price < u64
    → ((tx.kind ≡ dynamic_fee)
        × (fee : Option ℤ) × (tip : Option ℤ) × (fill_gas_price price tx
            ≡ record tx { max_fee_per_gas = fee; max_priority_fee_per_gas = tip })
        × Filled price tx.max_fee_per_gas fee
        × Filled price tx.max_priority_fee_per_gas tip)
      ⊎ ((tx.kind ≢ dynamic_fee)
          × (fill_gas_price price tx
              ≡ record tx { gas_price = if tx.gas_price == 0 then price else tx.gas_price }))
unfolding fill_gas_price
fill_gas_price_lem price tx h bound =
    let fee = fill_fee-Filled price tx.max_fee_per_gas h bound in
    let tip = fill_fee-Filled price tx.max_priority_fee_per_gas h bound in
    elim (kind-cases tx.kind) [
      | inl e ↦ inl (e, _, _, ground arith, fee, tip)
      | inr e ↦ inr ((λ x. ground arith), ground arith)
    ]
