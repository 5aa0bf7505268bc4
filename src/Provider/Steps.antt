-- ===== src/Provider/Steps.antt =====
-- The calls that the provider's sidecar serves, one at a time, and the states that they reach.
pub mod History
pub mod Vouchers
use substreams_data_service.Common.{ℕ, ◌≡◌, none, String, Option}
use substreams_data_service.Common.Dict.{lookup}
use substreams_data_service.Horizon.Types.{Address}
use substreams_data_service.Horizon.EthGo.{EthGo}
use substreams_data_service.Provider.State.{ProviderSidecar, Env, add_accepted_signer}
use substreams_data_service.Provider.Messages.{
  ValidatePaymentRequest, ReportUsageRequest, EndSessionRequest, StartSessionRequest,
  SubmitRavRequest,
}
use substreams_data_service.Provider.Validate.{validate_payment}
use substreams_data_service.Provider.Report.{report_usage}
use substreams_data_service.Provider.Finish.{finish_session}
use substreams_data_service.Provider.Start.{start_session}
use substreams_data_service.Provider.Submit.{submit_rav}

pub data Call : Type 0 where
  validate : ValidatePaymentRequest → Call
  report : ReportUsageRequest → Call
  finish : EndSessionRequest → Call
  start : StartSessionRequest → Call
  submit : SubmitRavRequest → Call
  accept : Address → Call

module _ (eth : EthGo) where
  -- The state after a call, however the call ends.
  unfoldable pub serve : Env → Call → ProviderSidecar → ProviderSidecar
  serve env (validate req) sc = (validate_payment eth sc env req).1
  serve env (report req) sc = (report_usage sc env req).1
  serve env (finish req) sc = (finish_session sc env req).1
  serve env (start req) sc = (start_session eth sc env req).1
  serve env (submit req) sc = (submit_rav eth sc env req).1
  serve env (accept a) sc = add_accepted_signer eth a sc

  -- One call, with an identifier from `uuid.New()` that no session has.
  pub data Step : ProviderSidecar → ProviderSidecar → Type 0 where
    served :
        (env : Env) (c : Call) (sc : ProviderSidecar)
        → lookup env.fresh_id sc.sessions.sessions ≡ none
        → Step sc (serve env c sc)

  pub data Reach (sc : ProviderSidecar) : ProviderSidecar → Type 0 where
    here : Reach sc sc
    next : {t u : ProviderSidecar} → Reach sc t → Step t u → Reach sc u
