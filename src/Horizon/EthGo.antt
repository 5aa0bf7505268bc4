-- ===== src/Horizon/EthGo.antt =====
-- What the program takes from the library github.com/streamingfast/eth-go: hashing, signing,
-- recovering a signer and printing an address. It is not part of the repository, so it is a
-- parameter, and what the code relies on stands in `EthLaws`.
use substreams_data_service.Common.{◌≡◌, Bytes, String}
use substreams_data_service.Common.Go.{Go, ok}
use substreams_data_service.Horizon.Types.{Address, Signature, Error}

pub record EthGo : Type 1 where
  pub PrivateKey : Type 0
  -- `eth.Keccak256`
  pub keccak256 : Bytes → Bytes
  -- `key.Sign(hash)`
  pub sign_hash : PrivateKey → Bytes → Go Error Signature
  -- `sig.Recover(hash)`
  pub recover : Signature → Bytes → Go Error Address
  -- `key.PublicKey().Address()`
  pub address_of : PrivateKey → Address
  -- `addr.Pretty()`
  pub pretty : Address → String

-- A signature recovers to the address of the key that made it.
pub record EthLaws (eth : EthGo) : Type 0 where
  pub recover-sign :
      (key : eth.PrivateKey) (hash : Bytes) (sig : Signature)
      → eth.sign_hash key hash ≡ ok sig
      → eth.recover sig hash ≡ ok (eth.address_of key)
