-- ===== src/Tests/Clients.antt =====
-- Tests of the client and of the operator.
use substreams_data_service.Common.{
  ℕ, ◌+◌, ◌*◌, ◌<◌, ◌^◌, ◌≡◌, ◌≢◌, refl, List, [], ◌∷◌, some, none, true, Bool, Bytes, String,
  length, replicate, arith,
}
use substreams_data_service.Common.Int.{pos}
use substreams_data_service.Common.Digits.{be_bytes}
use substreams_data_service.Common.Go.{ok}
use substreams_data_service.Common.Action.{Action}
use substreams_data_service.Horizon.Types.{SignedRav}
use substreams_data_service.Horizon.Eip712.{rav_encodable}
use substreams_data_service.Horizon.SignedMessage.{sign}
use substreams_data_service.Horizon.SignedMessage.Total.{CanSign, sign_total}
use substreams_data_service.Pb.{PbUsage}
use substreams_data_service.Sidecar.Manager.{SessionManager, new_session_manager}
use substreams_data_service.Provider.State.{ProviderSidecar}
use substreams_data_service.Provider.State as ProviderState
use substreams_data_service.Consumer.State.{ConsumerConfig}
use substreams_data_service.Consumer.State as ConsumerState
use substreams_data_service.Cmd.Batches.{Plan, no_totals, usage_of, run_batches}
use substreams_data_service.Cmd.Batches.Completion.{run_batches-Completes, Completes}
use substreams_data_service.Cmd.ConsumerClient.{Parties, run_client}
use substreams_data_service.Cmd.ConsumerClient as Client
use substreams_data_service.Cmd.ConsumerClient.Calls.{IsSettled}
use substreams_data_service.Cmd.ConsumerClient.Payment.{run_client-IsSettled, run_client_stalls}
use substreams_data_service.Cmd.ProviderClient.{Operator, run_operator}
use substreams_data_service.Cmd.ProviderClient as Provider
use substreams_data_service.Cmd.ProviderClient.Calls.{IsClosed}
use substreams_data_service.Cmd.ProviderClient.Start.{IsServed}
use substreams_data_service.Cmd.ProviderClient.Charges.{run_operator-IsClosed}
use substreams_data_service.Tests.Samples.{toy, toy-EthLaws, address, signature, domain, rav}
use substreams_data_service.Tests.Sessions.{provider}

abbrev can_sign : CanSign toy domain 7
can_sign = record { chain = (pos 1, refl); signs = λ hash. (signature 7, refl) }

-- Five blocks in batches of two, at a price of 3.
abbrev plan : Plan
plan = record { blocks_to_simulate = 5; batch_size = 2; bytes_per_block = 10; price_wei = pos 3 }

abbrev idle_plan : Plan
idle_plan = record plan { batch_size = 0 }

abbrev parties : Parties
parties = record {
  payer = address 1;
  receiver = address 3;
  data_service = address 2;
  provider_endpoint = "";
}

abbrev consumer : ConsumerConfig toy
consumer = record { signer_key = 7; domain = domain }

abbrev client_envs : ℕ → ConsumerState.Env
client_envs i = record { now = i; unix_nano = 100 + i; fresh_id = "c" }

abbrev operator_envs : ℕ → ProviderState.Env
operator_envs i = record { now = i; fresh_id = "b" }

abbrev operator : Operator toy
operator = record {
  domain = domain;
  signer_key = 7;
  payer = address 1;
  service_provider = address 3;
  data_service = address 2;
  unix_nano = 100;
}

sign_total_example :
    (signed : SignedRav) × (sign toy (rav_encodable toy) domain (some (rav 5 30)) 7 ≡ ok signed)
sign_total_example = sign_total toy domain 7 (rav 5 30) 30 can_sign refl (omega arith)

run_client-IsSettled_example :
    (summary : Client.Summary) × (sm : SessionManager) × (run_client toy consumer client_envs
        parties plan 6 new_session_manager
      ≡ (ok (some summary), sm))
    × (summary.session_id ≡ "c")
    × (summary.totals.blocks ≡ 5)
    × (summary.totals.cost ≡ pos (3 * 5))
    × IsSettled "c" (3 * 5) sm
run_client-IsSettled_example =
    run_client-IsSettled toy consumer client_envs plan 3 parties 6 new_session_manager can_sign refl
      (omega arith) (omega arith) (omega arith) (omega arith) (omega arith)

run_client_stalls_example :
    (run_client toy consumer client_envs parties idle_plan 1000 new_session_manager).0 ≡ ok none
run_client_stalls_example =
    run_client_stalls toy consumer client_envs idle_plan parties 1000 new_session_manager can_sign
      refl (omega arith) (omega arith)

served : IsServed toy operator provider
unfolding ProviderState.is_accepted_signer ProviderState.get_escrow_balance
    substreams_data_service.Common.Dict.lookup
served = record {
  can = can_sign;
  laws = toy-EthLaws;
  size = λ hash sig h. let e : signature 7 ≡ sig = ground arith in rw⁻¹ e refl;
  domain = refl;
  accepted = refl;
  provider = refl;
  queries = λ bad. cc;
}

run_operator-IsClosed_example :
    (summary : Provider.Summary) × (sc : ProviderSidecar) × (run_operator toy operator operator_envs
        plan 6 provider
      ≡ (ok (some summary), sc))
    × (summary.totals.blocks ≡ 5)
    × (summary.response.total_value ≡ record { bytes = be_bytes (3 * 5) })
    × IsClosed "b" (3 * 5) sc
run_operator-IsClosed_example =
    run_operator-IsClosed toy operator operator_envs plan 3 provider 6 served refl (omega arith)
      (omega arith) (omega arith) (omega arith)

-- A report that is always answered, and counts the blocks.
abbrev counting : ℕ → PbUsage → Action ℕ (Unit {0}) Bool
counting i usage n = (ok true, n + usage.blocks_processed)

run_batches-Completes_example :
    Completes counting plan 3 (λ n r. n ≡ r) (run_batches counting plan 6 0 0 no_totals 0)
unfolding usage_of
run_batches-Completes_example =
    run_batches-Completes counting plan 3 (λ n r. n ≡ r) 6 0 0 0 no_totals 0
      (λ i batch r n h within. (n + batch, refl, omega (arith, h))) refl (omega arith) (omega arith)
      (omega arith) (omega arith)
      (record { below = omega arith; left = refl; blocks = refl; cost = refl }) refl
