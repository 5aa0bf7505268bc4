-- ===== src/Tests/Sessions.antt =====
-- Tests of the sessions and of the two sidecars.
use substreams_data_service.Common.{
  ℕ, ◌+◌, ◌-◌, ◌*◌, ◌<◌, ◌≤◌, ◌^◌, ◌≡◌, ◌≢◌, ◌↔◌, refl, List, [], ◌∷◌, some, none, true, false,
  Bytes, String, length, replicate, arith,
}
use substreams_data_service.Common.Int.{pos}
use substreams_data_service.Common.Digits.{set_bytes}
use substreams_data_service.Common.Dict.{lookup, insert}
use substreams_data_service.Common.Go.{ok, err, ◌>>=◌}
use substreams_data_service.Horizon.Types.{Rav, SignedRav, message_of, Error}
use substreams_data_service.Horizon.Eip712.{rav_encodable}
use substreams_data_service.Horizon.SignedMessage.{sign}
use substreams_data_service.Pb.{PbUsage, PbBigInt, PbSignedRav, PbEscrowAccount, EndReason}
use substreams_data_service.Sidecar.Convert.{
  proto_signed_rav_to_horizon, horizon_signed_rav_to_proto,
}
use substreams_data_service.Sidecar.Convert.RoundTrip.{
  IsPrefix, proto_signed_rav_to_horizon-horizon_signed_rav_to_proto,
}
use substreams_data_service.Sidecar.Pricing.{default_pricing_config}
use substreams_data_service.Sidecar.Session.{Session, active, new_session, set_rav, is_active}
use substreams_data_service.Sidecar.Session.History.{Later}
use substreams_data_service.Sidecar.Manager.{SessionManager}
use substreams_data_service.Provider.State.{ProviderSidecar}
use substreams_data_service.Provider.State as ProviderState
use substreams_data_service.Provider.Messages.{Reason, SubmitRavRequest, EndSessionRequest}
use substreams_data_service.Provider.Submit.{submit_rav, submit_checks, accepted_response, rejected}
use substreams_data_service.Provider.Submit.Outcome.{IsAcceptable, checks_complete}
use substreams_data_service.Provider.Submit.Effect.{submit_rav_stores, submit_rav_keeps}
use substreams_data_service.Provider.Steps.{Call, serve, served, here, next}
use substreams_data_service.Provider.Steps.History.{Reach-Lasts}
use substreams_data_service.Provider.Steps.Vouchers.{Raised, serve-Raised}
use substreams_data_service.Consumer.State.Issued.{sent}
use substreams_data_service.Consumer.Report.Accounts.{value_before}
use substreams_data_service.Tests.Samples.{toy, address, signature, domain, rav, signed_rav}

abbrev pub session : Session
session =
    set_rav (some (signed_rav 100 20)) 5 (new_session "a" 5 (address 1) (address 3) (address 2))

abbrev pub manager : SessionManager
manager = record { sessions = ("a", session) ∷ [] }

abbrev pub provider : ProviderSidecar
provider = record {
  sessions = manager;
  service_provider = address 3;
  domain = domain;
  collector_addr = address 9;
  escrow_addr = none;
  escrow_querier = none;
  pricing_config = default_pricing_config;
  accepted_signers = ("0x07", true) ∷ [];
}

abbrev pub env : ProviderState.Env
env = record { now = 6; fresh_id = "b" }

-- The voucher of the value 25 in the protocol's form.
abbrev pub submission : SubmitRavRequest
submission = record {
  session_id = "a";
  signed_rav = some (sent (signed_rav 110 25) (rav 110 25) (pos 25));
  usage = none;
}

abbrev lower : SubmitRavRequest
lower = record {
  session_id = "a";
  signed_rav = some (sent (signed_rav 110 19) (rav 110 19) (pos 19));
  usage = none;
}

submit-checks : submit_checks toy provider submission session ≡ ok (signed_rav 110 25)
unfolding substreams_data_service.Provider.Submit.submit_checks
    substreams_data_service.Provider.Submit.check_value
    substreams_data_service.Provider.Signers.require_message
    substreams_data_service.Provider.Signers.require_signer
    substreams_data_service.Provider.State.verify_rav_signature
    substreams_data_service.Provider.State.is_accepted_signer
    substreams_data_service.Common.bytes_equal substreams_data_service.Common.Dict.lookup
    substreams_data_service.Sidecar.Convert.addresses_equal
    substreams_data_service.Sidecar.Session.is_active
    substreams_data_service.Sidecar.Session.set_rav
    substreams_data_service.Sidecar.Session.new_session
    substreams_data_service.Sidecar.Convert.proto_signed_rav_to_horizon
    substreams_data_service.Sidecar.Convert.horizon_signed_rav_to_proto
    substreams_data_service.Sidecar.Convert.with_signature
    substreams_data_service.Sidecar.Convert.proto_rav_to_horizon
    substreams_data_service.Sidecar.Convert.horizon_rav_to_proto
    substreams_data_service.Sidecar.Convert.signature_of
    substreams_data_service.Sidecar.Convert.collection_of substreams_data_service.Pb.to_eth
    substreams_data_service.Pb.to_native substreams_data_service.Pb.big_int_from_native
    substreams_data_service.Pb.address_from_eth substreams_data_service.Horizon.SignedMessage.sign
    substreams_data_service.Horizon.SignedMessage.recover_signer
    substreams_data_service.Horizon.Eip712.hash_typed_data
    substreams_data_service.Horizon.Eip712.hash_struct
    substreams_data_service.Horizon.Eip712.encode_rav
    substreams_data_service.Horizon.Eip712.encode_uint128
    substreams_data_service.Horizon.Eip712.encode_uint64
    substreams_data_service.Horizon.Eip712.pad_left substreams_data_service.Horizon.Eip712.separator
    substreams_data_service.Horizon.Eip712.domain_type_hash
    substreams_data_service.Horizon.Eip712.rav_type_hash
    substreams_data_service.Common.Digits.digits substreams_data_service.Common.Digits.fixed
submit-checks = refl

pub there : lookup "a" manager.sessions ≡ some session
unfolding lookup
there = refl

pub running : is_active session ≡ true
unfolding is_active set_rav new_session
running = refl

pub before : value_before (message_of session.current_rav) ≡ some (pos 20)
unfolding set_rav new_session
before = refl

acceptable : IsAcceptable toy provider submission session (signed_rav 110 25) (rav 110 25)
unfolding substreams_data_service.Provider.Submit.submit_checks
    substreams_data_service.Provider.Submit.check_value
    substreams_data_service.Provider.Signers.require_message
    substreams_data_service.Provider.Signers.require_signer
    substreams_data_service.Provider.State.verify_rav_signature
    substreams_data_service.Provider.State.is_accepted_signer
    substreams_data_service.Common.bytes_equal substreams_data_service.Common.Dict.lookup
    substreams_data_service.Sidecar.Convert.addresses_equal
    substreams_data_service.Sidecar.Session.is_active
    substreams_data_service.Sidecar.Session.set_rav
    substreams_data_service.Sidecar.Session.new_session
    substreams_data_service.Sidecar.Convert.proto_signed_rav_to_horizon
    substreams_data_service.Sidecar.Convert.horizon_signed_rav_to_proto
    substreams_data_service.Sidecar.Convert.with_signature
    substreams_data_service.Sidecar.Convert.proto_rav_to_horizon
    substreams_data_service.Sidecar.Convert.horizon_rav_to_proto
    substreams_data_service.Sidecar.Convert.signature_of
    substreams_data_service.Sidecar.Convert.collection_of substreams_data_service.Pb.to_eth
    substreams_data_service.Pb.to_native substreams_data_service.Pb.big_int_from_native
    substreams_data_service.Pb.address_from_eth substreams_data_service.Horizon.SignedMessage.sign
    substreams_data_service.Horizon.SignedMessage.recover_signer
    substreams_data_service.Horizon.Eip712.hash_typed_data
    substreams_data_service.Horizon.Eip712.hash_struct
    substreams_data_service.Horizon.Eip712.encode_rav
    substreams_data_service.Horizon.Eip712.encode_uint128
    substreams_data_service.Horizon.Eip712.encode_uint64
    substreams_data_service.Horizon.Eip712.pad_left substreams_data_service.Horizon.Eip712.separator
    substreams_data_service.Horizon.Eip712.domain_type_hash
    substreams_data_service.Horizon.Eip712.rav_type_hash
    substreams_data_service.Common.Digits.digits substreams_data_service.Common.Digits.fixed
acceptable = record {
  running = refl;
  given = refl;
  here = refl;
  signed = (address 7, refl, refl);
  payer = refl;
  provider = refl;
  value = omega arith;
}

submit_rav_stores_example : submit_rav toy provider env submission ≡ (
  ok accepted_response,
  record provider {
    sessions = record {
      sessions = insert "a" (set_rav (some (signed_rav 110 25)) 6 session) manager.sessions;
    };
  },
)
submit_rav_stores_example = submit_rav_stores toy provider env submission there acceptable

submit-lower : submit_checks toy provider lower session ≡ err (rejected Reason.value_decreased true)
unfolding substreams_data_service.Provider.Submit.submit_checks
    substreams_data_service.Provider.Submit.check_value
    substreams_data_service.Provider.Signers.require_message
    substreams_data_service.Provider.Signers.require_signer
    substreams_data_service.Provider.State.verify_rav_signature
    substreams_data_service.Provider.State.is_accepted_signer
    substreams_data_service.Common.bytes_equal substreams_data_service.Common.Dict.lookup
    substreams_data_service.Sidecar.Convert.addresses_equal
    substreams_data_service.Sidecar.Session.is_active
    substreams_data_service.Sidecar.Session.set_rav
    substreams_data_service.Sidecar.Session.new_session
    substreams_data_service.Sidecar.Convert.proto_signed_rav_to_horizon
    substreams_data_service.Sidecar.Convert.horizon_signed_rav_to_proto
    substreams_data_service.Sidecar.Convert.with_signature
    substreams_data_service.Sidecar.Convert.proto_rav_to_horizon
    substreams_data_service.Sidecar.Convert.horizon_rav_to_proto
    substreams_data_service.Sidecar.Convert.signature_of
    substreams_data_service.Sidecar.Convert.collection_of substreams_data_service.Pb.to_eth
    substreams_data_service.Pb.to_native substreams_data_service.Pb.big_int_from_native
    substreams_data_service.Pb.address_from_eth substreams_data_service.Horizon.SignedMessage.sign
    substreams_data_service.Horizon.SignedMessage.recover_signer
    substreams_data_service.Horizon.Eip712.hash_typed_data
    substreams_data_service.Horizon.Eip712.hash_struct
    substreams_data_service.Horizon.Eip712.encode_rav
    substreams_data_service.Horizon.Eip712.encode_uint128
    substreams_data_service.Horizon.Eip712.encode_uint64
    substreams_data_service.Horizon.Eip712.pad_left substreams_data_service.Horizon.Eip712.separator
    substreams_data_service.Horizon.Eip712.domain_type_hash
    substreams_data_service.Horizon.Eip712.rav_type_hash
    substreams_data_service.Common.Digits.digits substreams_data_service.Common.Digits.fixed
submit-lower = refl

unacceptable : ¬ ((r : SignedRav) × (m : Rav) × IsAcceptable toy provider lower session r m)
unacceptable (r, m, a) =
    let e = checks_complete toy provider lower session r m a in cc (submit-lower, e)

submit_rav_keeps_example : (submit_rav toy provider env lower).1 ≡ provider
submit_rav_keeps_example = submit_rav_keeps toy provider env lower there unacceptable

abbrev ending : EndSessionRequest
ending = record { session_id = "a"; final_usage = none; reason = EndReason.complete }

fresh : lookup "b" manager.sessions ≡ none
unfolding lookup
fresh = refl

Reach-Lasts_example :
    (s' : Session) × (lookup "a" (serve toy env (Call.finish ending) provider).sessions.sessions
      ≡ some s')
    × Later session s'
Reach-Lasts_example =
    Reach-Lasts toy (next here (served env (Call.finish ending) provider fresh)) "a" session there

serve-Raised_example :
    (s' : Session) × (lookup "a" (serve toy env (Call.submit submission) provider).sessions.sessions
      ≡ some s')
    × Raised session s'
serve-Raised_example =
    serve-Raised toy env (Call.submit submission) provider tt fresh "a" session there

proto_signed_rav_to_horizon-horizon_signed_rav_to_proto_example :
    (c : Bytes) × IsPrefix [] c
    × ((horizon_signed_rav_to_proto {E = Error} (some (signed_rav 110 25))
          >>= proto_signed_rav_to_horizon)
        ≡ ok (
            some (record {
              message =
                  some (record (rav 110 25) { collection_id = c; value_aggregate = some (pos 25) });
              signature = signature 7;
            })))
proto_signed_rav_to_horizon-horizon_signed_rav_to_proto_example =
    proto_signed_rav_to_horizon-horizon_signed_rav_to_proto {E = Error} (signed_rav 110 25)
      (rav 110 25) (pos 25) refl refl refl
