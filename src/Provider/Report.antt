-- ===== src/Provider/Report.antt =====
-- provider/sidecar/handler_report_usage.go: `ReportUsage`.
use substreams_data_service.Common.{none, some, true, false, Bool, if◌then◌else◌}
use substreams_data_service.Common.Go.{Ptr, Go, ok, err}
use substreams_data_service.Common.Action.{Action, gets, ◌>>=◌, ◌>>◌, pure}
use substreams_data_service.Sidecar.Session.{Session, is_active}
use substreams_data_service.Sidecar.Manager.{on_session}
use substreams_data_service.Sidecar.Usage.{apply_usage}
use substreams_data_service.Provider.State.{ProviderSidecar, Env, with_sessions}
use substreams_data_service.Provider.Messages.{
  Reason, ConnectError, not_found, ReportUsageRequest, ReportUsageResponse,
}

abbrev pub stopped : ReportUsageResponse
stopped = record {
  should_continue = false;
  stop_reason = Reason.session_not_active;
  rav_updated = false;
}

abbrev pub is_set : {A : Type 0} → Ptr A → Bool
is_set none = false
is_set (some _) = true

unfoldable pub add_reported :
    Env → ReportUsageRequest → Action Session ConnectError ReportUsageResponse
add_reported env req = do
  apply_usage req.usage env.now
  current_rav ← gets (λ s. s.current_rav)
  pure (record {
    should_continue = true;
    stop_reason = Reason.no_reason;
    rav_updated = is_set current_rav;
  })

unfoldable pub report_body :
    Env → ReportUsageRequest → Action Session ConnectError ReportUsageResponse
unfolding add_reported
report_body env req session =
    if is_active session then add_reported env req session else (ok stopped, session)

unfoldable pub report_usage :
    ProviderSidecar
    → Env
    → ReportUsageRequest
    → Go ConnectError ReportUsageResponse × ProviderSidecar
report_usage sc env req =
    with_sessions (on_session req.session_id (err (not_found req.session_id)) (report_body env req))
      sc
