-- ===== src/Tests/Races.antt =====
-- Tests of concurrent calls.
use substreams_data_service.Common.{
  ℕ, ◌+◌, ◌<◌, ◌^◌, ◌≡◌, refl, List, [], ◌∷◌, some, none, true, if◌then◌else◌, ◌==◌, arith,
}
use substreams_data_service.Common.Int.{ℤ, pos, ◌+ℤ◌, ◌≤ℤ◌}
use substreams_data_service.Common.Digits.{set_bytes}
use substreams_data_service.Horizon.Types.{message_of}
use substreams_data_service.Horizon.SignedMessage.Total.{CanSign}
use substreams_data_service.Pb.{PbUsage, PbBigInt}
use substreams_data_service.Sidecar.Session.{Session, is_active, set_rav, new_session}
use substreams_data_service.Provider.Messages.{SubmitRavRequest}
use substreams_data_service.Provider.Submit.{submit_body, accepted_response}
use substreams_data_service.Provider.Submit.Outcome.{IsAcceptable}
use substreams_data_service.Provider.Steps.Vouchers.{value_of, Rises}
use substreams_data_service.Provider.Submit.Races.{
  initial, answered, outcome, run_turns, call_turn, here, next, submits,
}
use substreams_data_service.Provider.Submit.Races.Falls.{
  Reach-Rises, run_turns-submit_body, run_turns_races,
}
use substreams_data_service.Consumer.State.{ConsumerConfig, ReportUsageRequest, ReportUsageResponse}
use substreams_data_service.Consumer.State as ConsumerState
use substreams_data_service.Consumer.Report.{report_body}
use substreams_data_service.Consumer.Report.Accounts.{value_before}
use substreams_data_service.Consumer.Report.Races as Reports
use substreams_data_service.Consumer.Report.Races.Budget.{Reach-within}
use substreams_data_service.Consumer.Report.Races.Overlap.{run_turns_loses}
use substreams_data_service.Consumer.Report.Races.Alone.{turns, turns-report_body}
use substreams_data_service.Consumer.State.Issued.{sent}
use substreams_data_service.Tests.Samples.{toy, address, signature, domain, rav, signed_rav}
use substreams_data_service.Tests.Sessions.{session, provider, env}

abbrev submission_of : ℕ → SubmitRavRequest
submission_of n = record {
  session_id = "a";
  signed_rav = some (sent (signed_rav 110 n) (rav 110 n) (pos n));
  usage = none;
}

-- The first call submits the value 25, the others 30.
abbrev submissions : ℕ → SubmitRavRequest
submissions i = if i == 0 then submission_of 25 else submission_of 30

both-IsAcceptable :
    IsAcceptable toy provider (submissions 0) session (signed_rav 110 25) (rav 110 25)
    × IsAcceptable toy provider (submissions 1) session (signed_rav 110 30) (rav 110 30)
unfolding substreams_data_service.Provider.Submit.submit_checks
    substreams_data_service.Provider.Submit.check_value
    substreams_data_service.Provider.Signers.require_message
    substreams_data_service.Provider.Signers.require_signer
    substreams_data_service.Provider.State.verify_rav_signature
    substreams_data_service.Provider.State.is_accepted_signer
    substreams_data_service.Common.bytes_equal substreams_data_service.Common.Dict.lookup
    substreams_data_service.Sidecar.Convert.addresses_equal
    substreams_data_service.Sidecar.Session.is_active
    substreams_data_service.Sidecar.Session.set_rav
    substreams_data_service.Sidecar.Session.new_session
    substreams_data_service.Sidecar.Convert.proto_signed_rav_to_horizon
    substreams_data_service.Sidecar.Convert.horizon_signed_rav_to_proto
    substreams_data_service.Sidecar.Convert.with_signature
    substreams_data_service.Sidecar.Convert.proto_rav_to_horizon
    substreams_data_service.Sidecar.Convert.horizon_rav_to_proto
    substreams_data_service.Sidecar.Convert.signature_of
    substreams_data_service.Sidecar.Convert.collection_of substreams_data_service.Pb.to_eth
    substreams_data_service.Pb.to_native substreams_data_service.Pb.big_int_from_native
    substreams_data_service.Pb.address_from_eth substreams_data_service.Horizon.SignedMessage.sign
    substreams_data_service.Horizon.SignedMessage.recover_signer
    substreams_data_service.Horizon.Eip712.hash_typed_data
    substreams_data_service.Horizon.Eip712.hash_struct
    substreams_data_service.Horizon.Eip712.encode_rav
    substreams_data_service.Horizon.Eip712.encode_uint128
    substreams_data_service.Horizon.Eip712.encode_uint64
    substreams_data_service.Horizon.Eip712.pad_left substreams_data_service.Horizon.Eip712.separator
    substreams_data_service.Horizon.Eip712.domain_type_hash
    substreams_data_service.Horizon.Eip712.rav_type_hash
    substreams_data_service.Common.Digits.digits substreams_data_service.Common.Digits.fixed
both-IsAcceptable = (
  record {
    running = refl;
    given = refl;
    here = refl;
    signed = (address 7, refl, refl);
    payer = refl;
    provider = refl;
    value = omega arith;
  },
  record {
    running = refl;
    given = refl;
    here = refl;
    signed = (address 7, refl, refl);
    payer = refl;
    provider = refl;
    value = omega arith;
  },
)

run_turns_races_example :
    ((run_turns toy provider env (0 ∷ 0 ∷ 1 ∷ 1 ∷ 1 ∷ 0 ∷ []) (initial session submissions)).calls 0
      ≡ answered accepted_response)
    × ((run_turns toy provider env (0 ∷ 0 ∷ 1 ∷ 1 ∷ 1 ∷ 0 ∷ []) (initial session submissions)).calls
          1
        ≡ answered accepted_response)
    × ((run_turns toy provider env
          (0 ∷ 0 ∷ 1 ∷ 1 ∷ 1 ∷ 0 ∷ [])
          (initial session submissions)).session.current_rav
        ≡ some (signed_rav 110 25))
run_turns_races_example =
    run_turns_races toy provider env session submissions both-IsAcceptable.0 both-IsAcceptable.1

run_turns-submit_body_example :
    (outcome ((run_turns toy provider env (0 ∷ 0 ∷ 0 ∷ []) (initial session submissions)).calls 0)
      ≡ some (submit_body toy provider env (submission_of 25) session).0)
    × ((run_turns toy provider env (0 ∷ 0 ∷ 0 ∷ []) (initial session submissions)).session
        ≡ (submit_body toy provider env (submission_of 25) session).1)
run_turns-submit_body_example = run_turns-submit_body toy provider env session submissions

Reach-Rises_example : Rises (value_of (message_of session.current_rav)) (
    value_of (
      message_of
        (call_turn toy provider env 0 (
          call_turn toy provider env 0
            (call_turn toy provider env 0 (initial session submissions)))).session.current_rav))
Reach-Rises_example =
    Reach-Rises toy provider session submissions
      (next (next (next here (submits env 0)) (submits env 0)) (submits env 0))

abbrev consumer : ConsumerConfig toy
consumer = record { signer_key = 7; domain = domain }

abbrev client_env : ConsumerState.Env
client_env = record { now = 6; unix_nano = 110; fresh_id = "b" }

abbrev usage_of_cost : ℕ → PbUsage
usage_of_cost n = record {
  blocks_processed = 2;
  bytes_transferred = 300;
  requests = 1;
  cost = some (record { bytes = n ∷ [] });
}

can_sign : CanSign toy domain 7
can_sign = record { chain = (pos 1, refl); signs = λ hash. (signature 7, refl) }

holds : (is_active session ≡ true) × (value_before (message_of session.current_rav) ≡ some (pos 20))
unfolding is_active set_rav new_session
holds = (refl, refl)

abbrev two_reports : Reports.System
two_reports = record {
  session = session;
  calls = Reports.arrivals (some (usage_of_cost 5) ∷ some (usage_of_cost 8) ∷ []);
}

run_turns_loses_example :
    (a : ReportUsageResponse) × (e : ReportUsageResponse) × (last : Reports.System)
    × (Reports.run_turns toy consumer client_env (0 ∷ 0 ∷ 1 ∷ 1 ∷ 0 ∷ 1 ∷ 1 ∷ 0 ∷ []) two_reports
        ≡ last)
    × (last.calls ≡ Reports.answered a ∷ Reports.answered e ∷ [])
    × (value_before (message_of last.session.current_rav) ≡ some (pos (20 + set_bytes (5 ∷ []))))
    × (last.session.total_cost
        ≡ session.total_cost +ℤ pos (set_bytes (5 ∷ [])) +ℤ pos (set_bytes (8 ∷ [])))
run_turns_loses_example =
    run_turns_loses toy consumer client_env session (usage_of_cost 5) (usage_of_cost 8)
      (record { bytes = 5 ∷ [] }) (record { bytes = 8 ∷ [] }) 20 can_sign holds.0 refl refl holds.1
      (omega arith) (omega arith)

Reach-within_example :
    (v : ℤ) × (value_before
        (message_of (Reports.call_turn toy consumer client_env 1 two_reports).session.current_rav)
      ≡ some v)
    × (v +ℤ session.total_cost
        ≤ℤ pos 20 +ℤ (Reports.call_turn toy consumer client_env 1 two_reports).session.total_cost)
Reach-within_example =
    Reach-within toy consumer session (some (usage_of_cost 5) ∷ some (usage_of_cost 8) ∷ [])
      (pos 20) holds.1 (Reports.next Reports.here (Reports.reports client_env 1))

turns-report_body_example :
    (Reports.outcome
        (turns toy consumer client_env 4 (Reports.arrived (some (usage_of_cost 5))) session).0
      ≡ some
          (report_body toy consumer client_env
            (record { session_id = "a"; usage = some (usage_of_cost 5) })
            session).0)
    × ((turns toy consumer client_env 4 (Reports.arrived (some (usage_of_cost 5))) session).1
        ≡ (report_body toy consumer client_env
            (record { session_id = "a"; usage = some (usage_of_cost 5) })
            session).1)
turns-report_body_example =
    turns-report_body toy consumer client_env
      (record { session_id = "a"; usage = some (usage_of_cost 5) }) session
