-- ===== src/Tests/Payments.antt =====
-- Tests of `ValidatePayment`.
use substreams_data_service.Common.{◌≡◌, refl, some, none, true, false, [], ◌∷◌}
use substreams_data_service.Common.Int.{pos}
use substreams_data_service.Common.Dict.{lookup, insert}
use substreams_data_service.Common.Go.{err}
use substreams_data_service.Horizon.Types.{Rav, SignedRav}
use substreams_data_service.Provider.State.{ProviderSidecar}
use substreams_data_service.Provider.Messages.{Reason, ValidatePaymentRequest}
use substreams_data_service.Provider.Validate.{validate_payment, validate_checks, invalid}
use substreams_data_service.Provider.Validate.Outcome.{
  IsPayable, paid, IsPayable-complete, validate_payment_replaces, validate_payment_keeps,
}
use substreams_data_service.Consumer.State.Issued.{sent}
use substreams_data_service.Tests.Samples.{toy, address, rav, signed_rav}
use substreams_data_service.Tests.Sessions.{session, manager, provider, env, there}

-- A value of 3, below the 20 of the session's voucher.
abbrev payment : ValidatePaymentRequest
payment = record {
  payment_rav = some (sent (signed_rav 110 3) (rav 110 3) (pos 3));
  client_session_id = "a";
  service_params = none;
}

payable : IsPayable toy provider payment (signed_rav 110 3) (rav 110 3)
unfolding substreams_data_service.Provider.Validate.validate_checks
    substreams_data_service.Provider.Signers.require_message
    substreams_data_service.Provider.Signers.require_signer
    substreams_data_service.Provider.State.verify_rav_signature
    substreams_data_service.Provider.State.is_accepted_signer
    substreams_data_service.Common.bytes_equal substreams_data_service.Common.Dict.lookup
    substreams_data_service.Sidecar.Convert.addresses_equal
    substreams_data_service.Sidecar.Session.is_active
    substreams_data_service.Sidecar.Session.set_rav
    substreams_data_service.Sidecar.Session.new_session
    substreams_data_service.Sidecar.Convert.proto_signed_rav_to_horizon
    substreams_data_service.Sidecar.Convert.horizon_signed_rav_to_proto
    substreams_data_service.Sidecar.Convert.with_signature
    substreams_data_service.Sidecar.Convert.proto_rav_to_horizon
    substreams_data_service.Sidecar.Convert.horizon_rav_to_proto
    substreams_data_service.Sidecar.Convert.signature_of
    substreams_data_service.Sidecar.Convert.collection_of substreams_data_service.Pb.to_eth
    substreams_data_service.Pb.to_native substreams_data_service.Pb.big_int_from_native
    substreams_data_service.Pb.address_from_eth substreams_data_service.Horizon.SignedMessage.sign
    substreams_data_service.Horizon.SignedMessage.recover_signer
    substreams_data_service.Horizon.Eip712.hash_typed_data
    substreams_data_service.Horizon.Eip712.hash_struct
    substreams_data_service.Horizon.Eip712.encode_rav
    substreams_data_service.Horizon.Eip712.encode_uint128
    substreams_data_service.Horizon.Eip712.encode_uint64
    substreams_data_service.Horizon.Eip712.pad_left substreams_data_service.Horizon.Eip712.separator
    substreams_data_service.Horizon.Eip712.domain_type_hash
    substreams_data_service.Horizon.Eip712.rav_type_hash
    substreams_data_service.Common.Digits.digits substreams_data_service.Common.Digits.fixed
payable = record { given = refl; here = refl; signed = (address 7, refl, refl); provider = refl }

validate_payment_replaces_example :
    (validate_payment toy provider env payment).1 ≡ record provider {
      sessions = record {
        sessions = insert "a" (paid provider env (signed_rav 110 3) session) manager.sessions;
      };
    }
validate_payment_replaces_example =
    validate_payment_replaces toy provider env payment refl there payable

abbrev empty : ValidatePaymentRequest
empty = record { payment_rav = none; client_session_id = "a"; service_params = none }

validate-empty : validate_checks toy provider empty ≡ err (invalid Reason.invalid_or_missing_rav)
unfolding substreams_data_service.Provider.Validate.validate_checks
    substreams_data_service.Provider.Signers.require_message
    substreams_data_service.Provider.Signers.require_signer
    substreams_data_service.Provider.State.verify_rav_signature
    substreams_data_service.Provider.State.is_accepted_signer
    substreams_data_service.Common.bytes_equal substreams_data_service.Common.Dict.lookup
    substreams_data_service.Sidecar.Convert.addresses_equal
    substreams_data_service.Sidecar.Session.is_active
    substreams_data_service.Sidecar.Session.set_rav
    substreams_data_service.Sidecar.Session.new_session
    substreams_data_service.Sidecar.Convert.proto_signed_rav_to_horizon
    substreams_data_service.Sidecar.Convert.horizon_signed_rav_to_proto
    substreams_data_service.Sidecar.Convert.with_signature
    substreams_data_service.Sidecar.Convert.proto_rav_to_horizon
    substreams_data_service.Sidecar.Convert.horizon_rav_to_proto
    substreams_data_service.Sidecar.Convert.signature_of
    substreams_data_service.Sidecar.Convert.collection_of substreams_data_service.Pb.to_eth
    substreams_data_service.Pb.to_native substreams_data_service.Pb.big_int_from_native
    substreams_data_service.Pb.address_from_eth substreams_data_service.Horizon.SignedMessage.sign
    substreams_data_service.Horizon.SignedMessage.recover_signer
    substreams_data_service.Horizon.Eip712.hash_typed_data
    substreams_data_service.Horizon.Eip712.hash_struct
    substreams_data_service.Horizon.Eip712.encode_rav
    substreams_data_service.Horizon.Eip712.encode_uint128
    substreams_data_service.Horizon.Eip712.encode_uint64
    substreams_data_service.Horizon.Eip712.pad_left substreams_data_service.Horizon.Eip712.separator
    substreams_data_service.Horizon.Eip712.domain_type_hash
    substreams_data_service.Horizon.Eip712.rav_type_hash
    substreams_data_service.Common.Digits.digits substreams_data_service.Common.Digits.fixed
validate-empty = refl

unpayable : ¬ ((r : SignedRav) × (m : Rav) × IsPayable toy provider empty r m)
unpayable (r, m, a) = let e = IsPayable-complete toy provider empty r m a in cc (validate-empty, e)

validate_payment_keeps_example : (validate_payment toy provider env empty).1 ≡ provider
validate_payment_keeps_example = validate_payment_keeps toy provider env empty unpayable
