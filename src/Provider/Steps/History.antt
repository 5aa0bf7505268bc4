-- ===== src/Provider/Steps/History.antt =====
-- Whatever calls are served, a session keeps its identity and its parties, stays ended once it has
-- ended, and never costs less.
use text.Mathlib.Text.{◌==◌ as str_eq}
use substreams_data_service.Common.{◌≡◌, none, some, String, Option-cases, Bool-cases, inl, inr}
use substreams_data_service.Common.Dict.{lookup}
use substreams_data_service.Common.Go.{Go, ok, err, panic}
use substreams_data_service.Common.Action.{Action}
use substreams_data_service.Common.Action.Keeps.{Keeps}
use substreams_data_service.Horizon.Types.{Rav, SignedRav}
use substreams_data_service.Horizon.EthGo.{EthGo}
use substreams_data_service.Sidecar.Session.{Session, is_active}
use substreams_data_service.Sidecar.Session.History.{
  history, Later, Later-refl, Later-trans, set_rav-Later,
}
use substreams_data_service.Sidecar.Usage.Kept.{apply_usage-Later}
use substreams_data_service.Sidecar.Manager.{SessionManager}
use substreams_data_service.Sidecar.Manager.Frame.{Evolves, on_session-Evolves, on_created-Evolves}
use substreams_data_service.Provider.State.{ProviderSidecar, Env, add_accepted_signer}
use substreams_data_service.Provider.Messages.{
  ConnectError, ValidatePaymentRequest, ReportUsageRequest, EndSessionRequest, StartSessionRequest,
  SubmitRavRequest, SubmitRavResponse, ValidatePaymentResponse, StartSessionResponse,
}
use substreams_data_service.Provider.Validate.{
  validate_payment, validate_result, validate_body, validate_checks, get_or_create,
}
use substreams_data_service.Provider.Report.{report_usage, report_body, add_reported}
use substreams_data_service.Provider.Finish.{finish_session, finish_body}
use substreams_data_service.Provider.Start.{
  start_session, start_result, start_body, start_checks, Opening,
}
use substreams_data_service.Provider.Submit.{submit_rav, submit_result, submit_body, submit_checks}
use substreams_data_service.Provider.Steps.{
  Call, validate, report, finish, start, submit, accept, serve, Step, served, Reach, here, next,
}

add_reported-Later : (env : Env) (req : ReportUsageRequest) → Keeps Later (add_reported env req)
unfolding add_reported
add_reported-Later env req = search (history, apply_usage-Later) depth 12

report_body-Later : (env : Env) (req : ReportUsageRequest) → Keeps Later (report_body env req)
unfolding report_body
report_body-Later env req = record {
  run = λ s. elim (Bool-cases (is_active s)) [
    | inl running ↦ rw running ((add_reported-Later env req).run s)
    | inr idle ↦ rw idle (Later-refl s)
  ];
}

finish_body-Later : (env : Env) (req : EndSessionRequest) → Keeps Later (finish_body env req)
unfolding finish_body
finish_body-Later env req = search (history, apply_usage-Later) depth 20

validate_body-Later :
    (sc : ProviderSidecar) (env : Env) (req : ValidatePaymentRequest) (pair : SignedRav × Rav)
    → Keeps Later (validate_body sc env req pair)
unfolding validate_body
validate_body-Later sc env req (rav, message) = search history depth 20

get_or_create-Evolves :
    {A : Type 0} (sc : ProviderSidecar) (env : Env) (id : String) (message : Rav)
    (body : Action Session ConnectError A) (sm : SessionManager)
    → Keeps Later body
    → lookup env.fresh_id sm.sessions ≡ none
    → Evolves Later sm (get_or_create sc env id message body sm).1
unfolding get_or_create
get_or_create-Evolves sc env id message body sm keeps fresh =
    let created =
      on_created-Evolves Later Later-refl env.fresh_id env.now message.payer sc.service_provider
        message.data_service sm body fresh in
    elim (Bool-cases (str_eq id "")) [
      | inl empty ↦ rw empty created
      | inr given ↦ rw given (elim (Option-cases (lookup id sm.sessions)) [
        | inl e ↦ rw e created
        | inr (t, e) ↦ rw e (on_session-Evolves Later Later-refl id panic body sm keeps)
      ])
    ]

module _ (eth : EthGo) where
  submitted :
      (s : Session) (env : Env) (r : Go SubmitRavResponse SignedRav)
      → Later s (submit_result env s r).1
  unfolding submit_result
  submitted s env (ok rav) = set_rav-Later (some rav) env.now s
  submitted s env (err response) = Later-refl s
  submitted s env panic = Later-refl s

  submit_body-Later :
      (sc : ProviderSidecar) (env : Env) (req : SubmitRavRequest)
      → Keeps Later (submit_body eth sc env req)
  unfolding submit_body
  submit_body-Later sc env req = record { run = λ s. submitted s env (submit_checks eth sc req s) }

  abbrev Lasts : ProviderSidecar → ProviderSidecar → Type 0
  Lasts sc sc' = Evolves Later sc.sessions sc'.sessions

  validated :
      (sc : ProviderSidecar) (env : Env) (req : ValidatePaymentRequest)
      (r : Go ValidatePaymentResponse (SignedRav × Rav))
      → lookup env.fresh_id sc.sessions.sessions ≡ none
      → Lasts sc (validate_result sc env req r).1
  unfolding validate_result
  validated sc env req (ok (rav, message)) fresh =
      get_or_create-Evolves sc env req.client_session_id message
        (validate_body sc env req (rav, message)) sc.sessions
        (validate_body-Later sc env req (rav, message)) fresh
  validated sc env req (err response) fresh = λ id s h. (s, h, Later-refl s)
  validated sc env req panic fresh = λ id s h. (s, h, Later-refl s)

  started :
      (sc : ProviderSidecar) (env : Env) (req : StartSessionRequest)
      (r : Go StartSessionResponse Opening)
      → lookup env.fresh_id sc.sessions.sessions ≡ none
      → Lasts sc (start_result sc env req r).1
  unfolding start_result
  started sc env req (ok o) fresh =
      on_created-Evolves Later Later-refl env.fresh_id env.now o.payer sc.service_provider
        o.data_service sc.sessions (start_body env req o.initial_rav) fresh
  started sc env req (err response) fresh = λ id s h. (s, h, Later-refl s)
  started sc env req panic fresh = λ id s h. (s, h, Later-refl s)

  serve-Lasts :
      (env : Env) (c : Call) (sc : ProviderSidecar)
      → lookup env.fresh_id sc.sessions.sessions ≡ none
      → Lasts sc (serve eth env c sc)
  unfolding serve validate_payment report_usage finish_session start_session submit_rav
      add_accepted_signer
  serve-Lasts env (validate req) sc fresh = validated sc env req (validate_checks eth sc req) fresh
  serve-Lasts env (report req) sc fresh =
      on_session-Evolves Later Later-refl req.session_id _ (report_body env req) sc.sessions
        (report_body-Later env req)
  serve-Lasts env (finish req) sc fresh =
      on_session-Evolves Later Later-refl req.session_id _ (finish_body env req) sc.sessions
        (finish_body-Later env req)
  serve-Lasts env (start req) sc fresh = started sc env req (start_checks eth sc req) fresh
  serve-Lasts env (submit req) sc fresh =
      on_session-Evolves Later Later-refl req.session_id _ (submit_body eth sc env req) sc.sessions
        (submit_body-Later sc env req)
  serve-Lasts env (accept a) sc fresh = λ id s h. (s, h, Later-refl s)

  Step-Lasts : {sc sc' : ProviderSidecar} → Step eth sc sc' → Lasts sc sc'
  Step-Lasts (served env c sc fresh) = serve-Lasts env c sc fresh

  -- In every state that calls reach, each session of the first state is still there, with the same
  -- identifier, payer, receiver and data service; its cost has not fallen, and if it was ended it
  -- still is.
  pub Reach-Lasts :
      {sc sc' : ProviderSidecar}
      → Reach eth sc sc'
      → (id : String) (s : Session) → lookup id sc.sessions.sessions ≡ some s
      → (s' : Session) × (lookup id sc'.sessions.sessions ≡ some s') × Later s s'
  Reach-Lasts here id s h = (s, h, Later-refl s)
  Reach-Lasts (next r step) id s h =
      let (t, there, a) = Reach-Lasts r id s h in
      let (u, now_there, b) = Step-Lasts step id t there in (u, now_there, Later-trans s t u a b)
