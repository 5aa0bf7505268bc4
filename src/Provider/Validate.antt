-- ===== src/Provider/Validate.antt =====
-- provider/sidecar/handler_validate_payment.go: `ValidatePayment`.
pub mod Outcome
use text.Mathlib.Text.{◌==◌ as str_eq}
use substreams_data_service.Common.{none, some, true, false, not, String, if◌then◌else◌}
use substreams_data_service.Common.Int.{ℤ}
use substreams_data_service.Common.Dict.{lookup}
use substreams_data_service.Common.Go.{Ptr, Go, ok, err, panic, err_if}
use substreams_data_service.Common.Go
use substreams_data_service.Common.Action.{Action, lift, gets, modify, ◌>>=◌, ◌>>◌, pure}
use substreams_data_service.Horizon.Types.{Rav, SignedRav}
use substreams_data_service.Horizon.EthGo.{EthGo}
use substreams_data_service.Pb.{PbBigInt, big_int_from_native, address_from_eth}
use substreams_data_service.Sidecar.Convert.{proto_signed_rav_to_horizon, addresses_equal}
use substreams_data_service.Sidecar.Session.{Session, set_rav, set_pricing_config}
use substreams_data_service.Sidecar.Manager.{SessionManager, create, on_session, on_created}
use substreams_data_service.Sidecar.Escrow.{QueryError}
use substreams_data_service.Provider.State.{ProviderSidecar, Env, with_sessions, get_escrow_balance}
use substreams_data_service.Provider.Messages.{
  Reason, ConnectError, ValidatePaymentRequest, ValidatePaymentResponse,
}
use substreams_data_service.Provider.Signers.{require_message, require_signer}

abbrev pub invalid : Reason → ValidatePaymentResponse
invalid reason = record {
  valid = false;
  rejection_reason = reason;
  session_id = "";
  service_params = none;
  escrow_account = none;
  available_balance = none;
}

-- A failed query and a missing querier both leave the balance out.
unfoldable pub balance_field : {E : Type 0} → Go QueryError (Ptr ℤ) → Go E (Ptr PbBigInt)
balance_field (ok none) = ok none
balance_field (ok (some b)) = Go.◌>>=◌ (big_int_from_native (some b)) (λ v. ok (some v))
balance_field (err e) = ok none
balance_field panic = panic

module _ (eth : EthGo) where
  -- Each early return, in order.
  unfoldable pub validate_checks :
      ProviderSidecar → ValidatePaymentRequest → Go ValidatePaymentResponse (SignedRav × Rav)
  validate_checks sc req = Go.◌>>=◌ (proto_signed_rav_to_horizon req.payment_rav) λ converted.
      Go.◌>>=◌ (require_message (invalid Reason.invalid_or_missing_rav) converted) λ pair.
        Go.◌>>=◌
          (require_signer eth (λ e. invalid (Reason.signature_verification_failed e))
            (λ a. invalid (Reason.signer_not_authorized a)) sc pair.0)
          λ signer.
            Go.◌>>=◌
              (err_if (not (addresses_equal pair.1.service_provider sc.service_provider))
                (invalid Reason.different_service_provider))
              λ _. ok pair

-- The session of the client's identifier, or a new one.
unfoldable pub get_or_create :
    {A : Type 0}
    → ProviderSidecar
    → Env
    → String
    → Rav
    → Action Session ConnectError A
    → SessionManager
    → Go ConnectError A × SessionManager
get_or_create sc env id message body sm =
    let created =
      on_created
        (create env.fresh_id env.now message.payer sc.service_provider message.data_service sm)
        body in
    if str_eq id ""
    then created
    else elim (lookup id sm.sessions) [ none ↦ created | some _ ↦ on_session id panic body sm ]

unfoldable pub validate_body :
    ProviderSidecar
    → Env
    → ValidatePaymentRequest
    → SignedRav × Rav
    → Action Session ConnectError ValidatePaymentResponse
validate_body sc env req (rav, message) = do
  modify (set_rav (some rav) env.now)
  modify (set_pricing_config (some sc.pricing_config))
  available_balance ← lift (balance_field (get_escrow_balance sc message.payer))
  session_id ← gets (λ s. s.id)
  pure (record {
    valid = true;
    rejection_reason = Reason.no_reason;
    session_id = session_id;
    service_params = req.service_params;
    escrow_account = some (record {
      payer = some (address_from_eth message.payer);
      receiver = some (address_from_eth sc.service_provider);
      data_service = some (address_from_eth message.data_service);
    });
    available_balance = available_balance;
  })

-- The rest of the handler, after the checks.
unfoldable pub validate_result :
    ProviderSidecar
    → Env
    → ValidatePaymentRequest
    → Go ValidatePaymentResponse (SignedRav × Rav)
    → Go ConnectError ValidatePaymentResponse × ProviderSidecar
validate_result sc env req (ok (rav, message)) =
    with_sessions
      (get_or_create sc env req.client_session_id message (validate_body sc env req (rav, message)))
      sc
validate_result sc env req (err response) = (ok response, sc)
validate_result sc env req panic = (panic, sc)

unfoldable pub validate_payment :
    EthGo
    → ProviderSidecar
    → Env
    → ValidatePaymentRequest
    → Go ConnectError ValidatePaymentResponse × ProviderSidecar
unfolding validate_result
validate_payment eth sc env req = validate_result sc env req (validate_checks eth sc req)
