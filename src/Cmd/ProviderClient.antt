-- ===== src/Cmd/ProviderClient.antt =====
-- cmd/sds/provider_fake_operator.go: `runProviderFakeOperator` after the flags are parsed, against the
-- provider's sidecar. A call that fails ends the client, as `cli.NoError` and `cli.Quit` do. The
-- report number `i` meets the sidecar with the surroundings `envs i`. What is only logged is left
-- out.
pub mod Calls
pub mod Start
pub mod Charges
use substreams_data_service.Common.{ℕ, none, some, true, false, Bool, Bytes, String, replicate, []}
use substreams_data_service.Common.Int.{ℤ, pos}
use substreams_data_service.Common.Go.{Ptr, Go, ok, err, panic}
use substreams_data_service.Common.Action.{Action, ◌>>=◌, pure, lift}
use substreams_data_service.Horizon.Types.{Address, CollectionId, SignedRav, Error}
use substreams_data_service.Horizon.EthGo.{EthGo}
use substreams_data_service.Horizon.Eip712.{Domain, rav_encodable}
use substreams_data_service.Horizon.SignedMessage.{sign}
use substreams_data_service.Pb.{PbUsage, PbSignedRav, EndReason}
use substreams_data_service.Sidecar.Convert.{horizon_signed_rav_to_proto}
use substreams_data_service.Provider.State.{ProviderSidecar, Env}
use substreams_data_service.Provider.Messages.{
  Reason, ConnectError, ValidatePaymentRequest, ValidatePaymentResponse, EndSessionResponse,
}
use substreams_data_service.Provider.Validate.{validate_payment}
use substreams_data_service.Provider.Report.{report_usage}
use substreams_data_service.Provider.Status.{get_session_status}
use substreams_data_service.Provider.Finish.{finish_session}
use substreams_data_service.Cmd.Batches.{Plan, Totals, no_totals, no_usage, run_batches}

-- "failed to sign initial RAV", a failed call, "payment validation failed".
pub data ClientError : Type 0 where
  sign_failed : Error → ClientError
  call_failed : ConnectError → ClientError
  payment_invalid : Reason → ClientError

-- The flags of the operator, and the nanoseconds of `time.Now().UnixNano()` as a `uint64`.
pub record Operator (eth : EthGo) : Type 0 where
  pub domain : Domain
  pub signer_key : eth.PrivateKey
  pub payer : Address
  pub service_provider : Address
  pub data_service : Address
  pub unix_nano : ℕ

abbrev pub or_fail : {E A : Type 0} → (E → ClientError) → Go E A → Go ClientError A
or_fail f (ok a) = ok a
or_fail f (err e) = err (f e)
or_fail f panic = panic

-- A call of the sidecar.
unfoldable pub call :
    {A : Type 0}
    → (ProviderSidecar → Go ConnectError A × ProviderSidecar)
    → Action ProviderSidecar ClientError A
call f sc = let (r, sc') = f sc in (or_fail call_failed r, sc')

abbrev pub require_valid : ValidatePaymentResponse → Bool → Go ClientError String
require_valid response true = ok response.session_id
require_valid response false = err (payment_invalid response.rejection_reason)

abbrev pub payment_request : Ptr PbSignedRav → ValidatePaymentRequest
payment_request rav = record { payment_rav = rav; client_session_id = ""; service_params = none }

-- `signRAV`
unfoldable pub sign_rav :
    (eth : EthGo)
    → Domain
    → eth.PrivateKey
    → CollectionId
    → Address
    → Address
    → Address
    → ℕ
    → Ptr ℤ
    → Bytes
    → Go Error SignedRav
sign_rav eth domain key collection_id payer data_service service_provider timestamp_ns value
      metadata =
    sign eth (rav_encodable eth) domain
      (some (record {
        collection_id = collection_id;
        payer = payer;
        service_provider = service_provider;
        data_service = data_service;
        timestamp_ns = timestamp_ns;
        value_aggregate = value;
        metadata = metadata;
      }))
      key

-- What the operator logs at its end.
pub record Summary : Type 0 where
  pub session_id : String
  pub totals : Totals
  pub response : EndSessionResponse

module _ (envs : ℕ → Env) (session_id : String) where
  -- The call of `ReportUsage` in the loop, which uses `ShouldContinue`.
  unfoldable pub operator_report : ℕ → PbUsage → Action ProviderSidecar ClientError Bool
  operator_report i usage =
      call (λ sc. report_usage sc (envs i) (record { session_id = session_id; usage = some usage }))
      >>= λ response. pure response.should_continue

  unfoldable pub operator_end : Action ProviderSidecar ClientError EndSessionResponse
  operator_end = call (λ sc. finish_session sc (envs 1) (record {
    session_id = session_id;
    final_usage = some no_usage;
    reason = EndReason.complete;
  }))

  unfoldable pub operator_loop : Plan → ℕ → Action ProviderSidecar ClientError (Ptr Totals)
  unfolding run_batches
  operator_loop plan fuel = run_batches operator_report plan fuel 2 0 no_totals

  -- The steps after the loop; `none` is a loop whose fuel did not suffice.
  unfoldable pub operator_finish : Ptr Totals → Action ProviderSidecar ClientError (Ptr Summary)
  operator_finish none = pure none
  operator_finish (some totals) = call (λ sc. (get_session_status sc session_id, sc)) >>= λ status.
      operator_end >>= λ response.
      pure (some (record { session_id = session_id; totals = totals; response = response }))

module _ (eth : EthGo) (operator : Operator eth) (envs : ℕ → Env) where
  -- The first voucher, of value zero, and its validation; the result is the session's identifier.
  unfoldable pub operator_start : Action ProviderSidecar ClientError String
  operator_start = do
    initial ← lift (
        or_fail sign_failed (
          sign_rav eth operator.domain operator.signer_key (replicate 32 0) operator.payer
            operator.data_service operator.service_provider operator.unix_nano (some (pos 0)) []))
    payment_rav ← lift (horizon_signed_rav_to_proto (some initial))
    validated ← call (λ sc. validate_payment eth sc (envs 0) (payment_request payment_rav))
    lift (require_valid validated validated.valid)

  -- The validation has the first surroundings, the end of the session the second.
  unfoldable pub run_operator : Plan → ℕ → Action ProviderSidecar ClientError (Ptr Summary)
  run_operator plan fuel = do
    session_id ← operator_start
    totals ← operator_loop envs session_id plan fuel
    operator_finish envs session_id totals
