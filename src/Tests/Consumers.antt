-- ===== src/Tests/Consumers.antt =====
-- Tests of the consumer's side of the session that the provider's tests use.
use substreams_data_service.Common.{
  ℕ, ◌+◌, ◌-◌, ◌*◌, ◌<◌, ◌≤◌, ◌^◌, ◌≡◌, ◌≢◌, ◌↔◌, refl, List, [], ◌∷◌, some, none, true, false,
  Bytes, String, length, replicate, arith,
}
use substreams_data_service.Common.Int.{ℤ, pos, negsuc, ◌+ℤ◌, ◌*ℤ◌, ◌≤ℤ◌}
use substreams_data_service.Common.Digits.{set_bytes}
use substreams_data_service.Common.Dict.{lookup, insert}
use substreams_data_service.Common.Go.{ok, panic}
use substreams_data_service.Horizon.Eip712.{rav_encodable}
use substreams_data_service.Horizon.SignedMessage.{sign}
use substreams_data_service.Pb.{PbUsage, PbBigInt, PbSignedRav, PbEscrowAccount, EndReason}
use substreams_data_service.Sidecar.Convert.{
  proto_signed_rav_to_horizon, horizon_signed_rav_to_proto,
}
use substreams_data_service.Sidecar.Session.{Session, active, new_session, set_rav, is_active}
use substreams_data_service.Provider.State.{ProviderSidecar}
use substreams_data_service.Provider.State as ProviderState
use substreams_data_service.Provider.Submit.{submit_rav, submit_checks, accepted_response, rejected}
use substreams_data_service.Consumer.State.{ConsumerConfig, ReportUsageRequest}
use substreams_data_service.Consumer.State as ConsumerState
use substreams_data_service.Consumer.State.Issued.{sent}
use substreams_data_service.Consumer.Report.{report_usage}
use substreams_data_service.Provider.Submit.{submit_rav, accepted_response}
use substreams_data_service.Consumer.Report.Accounts.{
  report_usage_signs, report_usage_panics, next_message, reported,
}
use substreams_data_service.Consumer.Finish.{finish_session}
use substreams_data_service.Consumer.Finish.Accounts.{
  finish_session_signs, final_message, finished, final_usage_of,
}
use substreams_data_service.EndToEnd.{submit_rav-report_usage}
use substreams_data_service.Provider.Submit.{submit_rav, accepted_response}
use substreams_data_service.Tests.Samples.{toy, toy-EthLaws, domain, signed_rav}
use substreams_data_service.Tests.Sessions.{session, manager, provider, env, there, running, before}

-- The consumer's side of the same session.
abbrev config : ConsumerConfig toy
config = record { signer_key = 7; domain = domain }

abbrev client_env : ConsumerState.Env
client_env = record { now = 6; unix_nano = 110; fresh_id = "b" }

abbrev cost : PbBigInt
cost = record { bytes = 5 ∷ [] }

abbrev usage : PbUsage
usage = record { blocks_processed = 2; bytes_transferred = 300; requests = 1; cost = some cost }

abbrev report : ReportUsageRequest
report = record { session_id = "a"; usage = some usage }

abbrev bare : ReportUsageRequest
bare = record { session_id = "a"; usage = none }

sign-next :
    sign toy
      (rav_encodable toy)
      domain
      (some
        (next_message toy config client_env report session (pos 20 +ℤ pos (set_bytes cost.bytes))))
      7
    ≡ ok (signed_rav 110 25)
unfolding substreams_data_service.Sidecar.Session.is_active
    substreams_data_service.Sidecar.Session.set_rav
    substreams_data_service.Sidecar.Session.new_session
    substreams_data_service.Horizon.SignedMessage.sign
    substreams_data_service.Horizon.Eip712.hash_typed_data
    substreams_data_service.Horizon.Eip712.hash_struct
    substreams_data_service.Horizon.Eip712.encode_rav
    substreams_data_service.Horizon.Eip712.encode_uint128
    substreams_data_service.Horizon.Eip712.encode_uint64
    substreams_data_service.Horizon.Eip712.pad_left substreams_data_service.Horizon.Eip712.separator
    substreams_data_service.Horizon.Eip712.domain_type_hash
    substreams_data_service.Horizon.Eip712.rav_type_hash
    substreams_data_service.Common.Digits.digits substreams_data_service.Common.Digits.fixed
    substreams_data_service.Consumer.State.collection_or_zero
    substreams_data_service.Common.Int.◌+ℤ◌
sign-next = refl

sign-same :
    sign toy
      (rav_encodable toy)
      domain
      (some (next_message toy config client_env report session (pos 25)))
      7
    ≡ ok (signed_rav 110 25)
unfolding substreams_data_service.Sidecar.Session.is_active
    substreams_data_service.Sidecar.Session.set_rav
    substreams_data_service.Sidecar.Session.new_session
    substreams_data_service.Horizon.SignedMessage.sign
    substreams_data_service.Horizon.Eip712.hash_typed_data
    substreams_data_service.Horizon.Eip712.hash_struct
    substreams_data_service.Horizon.Eip712.encode_rav
    substreams_data_service.Horizon.Eip712.encode_uint128
    substreams_data_service.Horizon.Eip712.encode_uint64
    substreams_data_service.Horizon.Eip712.pad_left substreams_data_service.Horizon.Eip712.separator
    substreams_data_service.Horizon.Eip712.domain_type_hash
    substreams_data_service.Horizon.Eip712.rav_type_hash
    substreams_data_service.Common.Digits.digits substreams_data_service.Common.Digits.fixed
    substreams_data_service.Consumer.State.collection_or_zero
    substreams_data_service.Common.Int.◌+ℤ◌
sign-same = refl

report_usage_signs_example : report_usage toy config client_env report manager ≡ (
  ok (record {
    updated_rav = some (
        sent
          (signed_rav 110 25)
          (next_message toy config client_env report session (pos 20 +ℤ pos (set_bytes cost.bytes)))
          (pos 20 +ℤ pos (set_bytes cost.bytes)));
    should_continue = true;
  }),
  record {
    sessions =
        insert "a"
          (reported toy config client_env report session usage cost (signed_rav 110 25))
          manager.sessions;
  },
)
report_usage_signs_example =
    report_usage_signs toy config client_env report manager session usage cost (pos 20)
      (signed_rav 110 25) there running refl refl before sign-next

report_usage_panics_example : report_usage toy config client_env bare manager ≡ (panic, manager)
report_usage_panics_example =
    report_usage_panics toy config client_env bare manager session there running refl

submit_rav-report_usage_example :
    (wire : PbSignedRav) × ((report_usage toy config client_env report manager).0
      ≡ ok (record { updated_rav = some wire; should_continue = true }))
    × (submit_rav toy provider env
          (record { session_id = "a"; signed_rav = some wire; usage = none })
        ≡ (
          ok accepted_response,
          record provider {
            sessions = record {
              sessions =
                  insert "a"
                    (record session { current_rav = some (signed_rav 110 25); updated_at = 6 })
                    manager.sessions;
            };
          },
        ))
unfolding substreams_data_service.Provider.Submit.submit_checks
    substreams_data_service.Provider.Submit.check_value
    substreams_data_service.Provider.Signers.require_message
    substreams_data_service.Provider.Signers.require_signer
    substreams_data_service.Provider.State.verify_rav_signature
    substreams_data_service.Provider.State.is_accepted_signer
    substreams_data_service.Common.bytes_equal substreams_data_service.Common.Dict.lookup
    substreams_data_service.Sidecar.Convert.addresses_equal
    substreams_data_service.Sidecar.Session.is_active
    substreams_data_service.Sidecar.Session.set_rav
    substreams_data_service.Sidecar.Session.new_session
    substreams_data_service.Sidecar.Convert.proto_signed_rav_to_horizon
    substreams_data_service.Sidecar.Convert.horizon_signed_rav_to_proto
    substreams_data_service.Sidecar.Convert.with_signature
    substreams_data_service.Sidecar.Convert.proto_rav_to_horizon
    substreams_data_service.Sidecar.Convert.horizon_rav_to_proto
    substreams_data_service.Sidecar.Convert.signature_of
    substreams_data_service.Sidecar.Convert.collection_of substreams_data_service.Pb.to_eth
    substreams_data_service.Pb.to_native substreams_data_service.Pb.big_int_from_native
    substreams_data_service.Pb.address_from_eth substreams_data_service.Horizon.SignedMessage.sign
    substreams_data_service.Horizon.SignedMessage.recover_signer
    substreams_data_service.Horizon.Eip712.hash_typed_data
    substreams_data_service.Horizon.Eip712.hash_struct
    substreams_data_service.Horizon.Eip712.encode_rav
    substreams_data_service.Horizon.Eip712.encode_uint128
    substreams_data_service.Horizon.Eip712.encode_uint64
    substreams_data_service.Horizon.Eip712.pad_left substreams_data_service.Horizon.Eip712.separator
    substreams_data_service.Horizon.Eip712.domain_type_hash
    substreams_data_service.Horizon.Eip712.rav_type_hash
    substreams_data_service.Common.Digits.digits substreams_data_service.Common.Digits.fixed
    substreams_data_service.Consumer.State.collection_or_zero
    substreams_data_service.Common.Int.◌+ℤ◌
submit_rav-report_usage_example =
    submit_rav-report_usage toy config client_env report manager session session usage cost 20 20
      provider env "a" (signed_rav 110 25) toy-EthLaws there running refl refl before refl sign-same
      refl refl refl there running refl refl before (omega arith)

abbrev closing : ConsumerState.EndSessionRequest
closing = record { session_id = "a"; final_usage = none }

sign-final :
    sign toy
      (rav_encodable toy)
      domain
      (some (final_message toy config client_env closing session (pos 20)))
      7
    ≡ ok (signed_rav 110 20)
unfolding substreams_data_service.Sidecar.Session.is_active
    substreams_data_service.Sidecar.Session.set_rav
    substreams_data_service.Sidecar.Session.new_session
    substreams_data_service.Horizon.SignedMessage.sign
    substreams_data_service.Horizon.Eip712.hash_typed_data
    substreams_data_service.Horizon.Eip712.hash_struct
    substreams_data_service.Horizon.Eip712.encode_rav
    substreams_data_service.Horizon.Eip712.encode_uint128
    substreams_data_service.Horizon.Eip712.encode_uint64
    substreams_data_service.Horizon.Eip712.pad_left substreams_data_service.Horizon.Eip712.separator
    substreams_data_service.Horizon.Eip712.domain_type_hash
    substreams_data_service.Horizon.Eip712.rav_type_hash
    substreams_data_service.Common.Digits.digits substreams_data_service.Common.Digits.fixed
    substreams_data_service.Consumer.State.collection_or_zero
    substreams_data_service.Common.Int.◌+ℤ◌
sign-final = refl

finish_session_signs_example : finish_session toy config client_env closing manager ≡ (
  ok (record {
    final_rav = some (
        sent
          (signed_rav 110 20)
          (final_message toy config client_env closing session (pos 20))
          (pos 20));
    total_usage =
        final_usage_of toy config client_env closing
          (finished toy config client_env closing session cost (signed_rav 110 20));
  }),
  record {
    sessions =
        insert "a"
          (finished toy config client_env closing session cost (signed_rav 110 20))
          manager.sessions;
  },
)
finish_session_signs_example =
    finish_session_signs toy config client_env closing manager session cost (pos 20)
      (signed_rav 110 20) there tt before sign-final
