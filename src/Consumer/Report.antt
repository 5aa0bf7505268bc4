-- ===== src/Consumer/Report.antt =====
-- consumer/sidecar/handler_report_usage.go: `ReportUsage`.
pub mod Accounts
pub mod Races
use substreams_data_service.Common.{ℕ, none, some, true, false, Bool, not, [], if◌then◌else◌}
use substreams_data_service.Common.Int.{ℤ, pos, ◌+ℤ◌}
use substreams_data_service.Common.Go.{Ptr, Go, ok, err, panic, deref}
use substreams_data_service.Common.Go
use substreams_data_service.Common.Action.{Action, gets, lift, modify, ◌>>=◌, ◌>>◌, pure}
use substreams_data_service.Horizon.Types.{message_of, Rav, SignedRav}
use substreams_data_service.Horizon.EthGo.{EthGo}
use substreams_data_service.Pb.{PbUsage, to_native}
use substreams_data_service.Sidecar.Convert.{horizon_signed_rav_to_proto}
use substreams_data_service.Sidecar.Session.{Session, is_active, set_rav}
use substreams_data_service.Sidecar.Manager.{SessionManager, on_session}
use substreams_data_service.Sidecar.Usage.{apply_usage}
use substreams_data_service.Consumer.State.{
  ConsumerConfig, ConnectError, not_found, failed_precondition, Env, ReportUsageRequest,
  ReportUsageResponse, collection_or_zero, sign_rav,
}

-- `usage.Cost.ToNative()`, with no test that the usage is there.
unfoldable pub cost_of : {E : Type 0} → Ptr PbUsage → Go E ℤ
cost_of none = panic
cost_of (some u) = to_native u.cost

-- The value of the current voucher plus the reported cost, or the cost alone.
unfoldable pub new_value : {E : Type 0} → Ptr Rav → Ptr PbUsage → Go E ℤ
new_value none usage = cost_of usage
new_value (some m) usage =
    Go.◌>>=◌ (cost_of usage) λ cost. Go.◌>>=◌ (deref m.value_aggregate) λ value. ok (value +ℤ cost)

module _ (eth : EthGo) where
  unfoldable pub report_active :
      ConsumerConfig eth
      → Env
      → ReportUsageRequest
      → Action Session ConnectError ReportUsageResponse
  report_active c env req = do
    apply_usage req.usage env.now
    session ← gets (λ s. s)
    let message = message_of session.current_rav
    value ← lift (new_value message req.usage)
    updated_rav ← lift (
        sign_rav eth c (collection_or_zero message) session.payer session.data_service
          session.receiver env.unix_nano (some value) [])
    modify (set_rav (some updated_rav) env.now)
    proto_rav ← lift (horizon_signed_rav_to_proto (some updated_rav))
    pure (record { updated_rav = proto_rav; should_continue = true })

  unfoldable pub report_body :
      ConsumerConfig eth
      → Env
      → ReportUsageRequest
      → Action Session ConnectError ReportUsageResponse
  report_body c env req session =
      if is_active session
      then report_active c env req session
      else (err failed_precondition, session)

  unfoldable pub report_usage :
      ConsumerConfig eth
      → Env
      → ReportUsageRequest
      → SessionManager
      → Go ConnectError ReportUsageResponse × SessionManager
  report_usage c env req =
      on_session req.session_id (err (not_found req.session_id)) (report_body c env req)
