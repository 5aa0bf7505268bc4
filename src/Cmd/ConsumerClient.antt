-- ===== src/Cmd/ConsumerClient.antt =====
-- cmd/sds/consumer_fake_client.go: `runConsumerFakeClient` after the flags are parsed, against the
-- consumer's sidecar. The request number `i` meets the sidecar with the surroundings `envs i`. A
-- failed call ends the client, as `cli.NoError` does.
pub mod Calls
pub mod Payment
use substreams_data_service.Common.{ℕ, ◌+◌, none, some, Bool, String}
use substreams_data_service.Common.Go.{Ptr, Go, ok, err, panic}
use substreams_data_service.Common.Action.{Action, ◌>>=◌, pure}
use substreams_data_service.Horizon.Types.{Address}
use substreams_data_service.Horizon.EthGo.{EthGo}
use substreams_data_service.Pb.{PbUsage, address_from_eth}
use substreams_data_service.Sidecar.Manager.{SessionManager}
use substreams_data_service.Consumer.State.{
  ConsumerConfig, ConnectError, Env, InitRequest, ReportUsageRequest, EndSessionRequest,
  EndSessionResponse,
}
use substreams_data_service.Consumer.Init.{init}
use substreams_data_service.Consumer.Report.{report_usage}
use substreams_data_service.Consumer.Finish.{finish_session}
use substreams_data_service.Cmd.Batches.{Plan, Totals, no_totals, no_usage, run_batches}

-- The flags of the parties.
pub record Parties : Type 0 where
  pub payer : Address
  pub receiver : Address
  pub data_service : Address
  pub provider_endpoint : String

unfoldable pub init_request : Parties → InitRequest
init_request parties = record {
  escrow_account = some (record {
    payer = some (address_from_eth parties.payer);
    receiver = some (address_from_eth parties.receiver);
    data_service = some (address_from_eth parties.data_service);
  });
  provider_endpoint = parties.provider_endpoint;
  existing_rav = none;
}

-- What the client logs at its end.
pub record Summary : Type 0 where
  pub session_id : String
  pub totals : Totals
  pub response : EndSessionResponse

module _ (eth : EthGo) (c : ConsumerConfig eth) (envs : ℕ → Env) where
  -- `reportUsage`, of which the loop uses `ShouldContinue`.
  unfoldable pub client_report : String → ℕ → PbUsage → Action SessionManager ConnectError Bool
  client_report session_id i usage =
      report_usage eth c (envs i) (record { session_id = session_id; usage = some usage })
      >>= λ response. pure response.should_continue

  unfoldable pub client_end : String → Env → Action SessionManager ConnectError EndSessionResponse
  client_end session_id env =
      finish_session eth c env (record { session_id = session_id; final_usage = some no_usage })

  -- The steps after the loop; `none` is a loop whose fuel did not suffice.
  unfoldable pub client_finish :
      String → Env → Ptr Totals → Action SessionManager ConnectError (Ptr Summary)
  client_finish session_id env none = pure none
  client_finish session_id env (some totals) = client_end session_id env >>= λ response.
      pure (some (record { session_id = session_id; totals = totals; response = response }))

  -- The call of `Init` has the first surroundings, and that of `EndSession` the second.
  unfoldable pub run_client : Parties → Plan → ℕ → Action SessionManager ConnectError (Ptr Summary)
  run_client parties plan fuel = do
    started ← init eth c (envs 0) (init_request parties)
    totals ← run_batches (client_report started.session.session_id) plan fuel 2 0 no_totals
    client_finish started.session.session_id (envs 1) totals
