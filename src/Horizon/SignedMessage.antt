-- ===== src/Horizon/SignedMessage.antt =====
-- horizon/signed_message.go: signing a message and recovering the signer.
pub mod Recovery
pub mod Total
use substreams_data_service.Common.Go.{Go, ok, ◌>>=◌}
use substreams_data_service.Horizon.Types.{Address, SignedMessage, Error}
use substreams_data_service.Horizon.EthGo.{EthGo}
use substreams_data_service.Horizon.Eip712.{Domain, Eip712Encodable, hash_typed_data}

module _ (eth : EthGo) {T : Type 0} (encodable : Eip712Encodable T) where
  unfoldable pub sign : Domain → T → eth.PrivateKey → Go Error (SignedMessage T)
  sign domain message key = do
    message_hash ← hash_typed_data eth encodable domain message
    sig ← eth.sign_hash key message_hash
    ok (record { message = message; signature = sig })

  unfoldable pub recover_signer : SignedMessage T → Domain → Go Error Address
  recover_signer sm domain = do
    message_hash ← hash_typed_data eth encodable domain sm.message
    eth.recover sm.signature message_hash
