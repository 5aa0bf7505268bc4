-- ===== src/Provider/Signers.antt =====
-- The steps by which three handlers establish who signed a voucher: the conversion must give a
-- message, the signature must verify, and the signer must be accepted.
pub mod Exact
use substreams_data_service.Common.{none, some, String, if◌then◌else◌}
use substreams_data_service.Common.Go.{Ptr, Go, ok, err, panic}
use substreams_data_service.Horizon.Types.{Address, Rav, SignedRav, Error}
use substreams_data_service.Horizon.EthGo.{EthGo}
use substreams_data_service.Provider.State.{
  ProviderSidecar, is_accepted_signer, verify_rav_signature,
}

-- `if signedRAV == nil || signedRAV.Message == nil { … }`
unfoldable pub require_message : {E : Type 0} → E → Ptr SignedRav → Go E (SignedRav × Rav)
require_message missing none = err missing
require_message missing (some r) = elim r.message [ none ↦ err missing | some m ↦ ok (r, m) ]

module _ (eth : EthGo) where
  -- `verifyRAVSignature` and `isAcceptedSigner`, with what each refusal returns.
  unfoldable pub require_signer :
      {E : Type 0} → (Error → E) → (String → E) → ProviderSidecar → SignedRav → Go E Address
  require_signer failed unauthorized sc rav = elim (verify_rav_signature eth sc rav) [
    | ok signer ↦
        if is_accepted_signer eth sc signer
        then ok signer
        else err (unauthorized (eth.pretty signer))
    | err e ↦ err (failed e)
    | panic ↦ panic
  ]
