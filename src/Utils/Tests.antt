-- ===== src/Utils/Tests.antt =====
-- Hexadecimal text and addresses at concrete inputs.
use web3signer_go.Base.{bytes, ◌≡◌, ◌↔◌, true}
use web3signer_go.Utils.{is_valid_eth_address}
use web3signer_go.Utils.Laws.{IsAddress, is_valid_eth_address_iff}

is_valid_eth_address_iff_example :
    (is_valid_eth_address "0x52908400098527886E0F7030069857D2E4169EE7" ≡ true)
    ↔ IsAddress (bytes "0x52908400098527886E0F7030069857D2E4169EE7")
is_valid_eth_address_iff_example =
    is_valid_eth_address_iff "0x52908400098527886E0F7030069857D2E4169EE7"
