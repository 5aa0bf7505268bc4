-- ===== src/Provider/Finish.antt =====
-- provider/sidecar/handler_end_session.go: `EndSession`.
use substreams_data_service.Common.{some}
use substreams_data_service.Common.Go.{Go, err}
use substreams_data_service.Common.Action.{Action, gets, lift, modify, ◌>>=◌, ◌>>◌, pure}
use substreams_data_service.Pb.{big_int_from_native}
use substreams_data_service.Sidecar.Convert.{horizon_signed_rav_to_proto}
use substreams_data_service.Sidecar.Session.{Session, get_usage, end_session}
use substreams_data_service.Sidecar.Manager.{on_session}
use substreams_data_service.Sidecar.Usage.{apply_usage}
use substreams_data_service.Provider.State.{ProviderSidecar, Env, with_sessions}
use substreams_data_service.Provider.Messages.{
  ConnectError, not_found, EndSessionRequest, EndSessionResponse,
}

unfoldable pub finish_body :
    Env → EndSessionRequest → Action Session ConnectError EndSessionResponse
finish_body env req = do
  apply_usage req.final_usage env.now
  modify (end_session req.reason env.now)
  final_rav ← gets (λ s. s.current_rav)
  session ← gets (λ s. s)
  total_usage ← lift (get_usage session)
  proto_rav ← lift (horizon_signed_rav_to_proto final_rav)
  total_value ← lift (big_int_from_native (some session.total_cost))
  pure (record { final_rav = proto_rav; total_usage = total_usage; total_value = total_value })

unfoldable pub finish_session :
    ProviderSidecar → Env → EndSessionRequest → Go ConnectError EndSessionResponse × ProviderSidecar
finish_session sc env req =
    with_sessions (on_session req.session_id (err (not_found req.session_id)) (finish_body env req))
      sc
