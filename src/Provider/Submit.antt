-- ===== src/Provider/Submit.antt =====
-- provider/sidecar/handler_submit_rav.go: `SubmitRAV`.
pub mod Outcome
pub mod Effect
pub mod Races
use substreams_data_service.Common.{none, some, true, false, Bool, not}
use substreams_data_service.Common.Int.{ltb_ℤ}
use substreams_data_service.Common.Go.{Ptr, Go, ok, err, panic, deref, err_if, ◌>>=◌, ◌>>◌}
use substreams_data_service.Common.Action.{Action}
use substreams_data_service.Horizon.Types.{Rav, SignedRav, message_of}
use substreams_data_service.Horizon.EthGo.{EthGo}
use substreams_data_service.Sidecar.Convert.{proto_signed_rav_to_horizon, addresses_equal}
use substreams_data_service.Sidecar.Session.{Session, is_active, set_rav}
use substreams_data_service.Sidecar.Manager.{on_session}
use substreams_data_service.Provider.State.{ProviderSidecar, Env, with_sessions}
use substreams_data_service.Provider.Messages.{
  Reason, ConnectError, SubmitRavRequest, SubmitRavResponse,
}
use substreams_data_service.Provider.Signers.{require_message, require_signer}

abbrev pub rejected : Reason → Bool → SubmitRavResponse
rejected reason should_continue = record {
  accepted = false;
  rejection_reason = reason;
  should_continue = should_continue;
}

abbrev pub accepted_response : SubmitRavResponse
accepted_response = record {
  accepted = true;
  rejection_reason = Reason.no_reason;
  should_continue = true;
}

-- The value must not fall below that of the session's voucher, if that has a message.
unfoldable pub check_value : Rav → Ptr Rav → Go SubmitRavResponse (Unit {0})
check_value message none = ok tt
check_value message (some current) = do
  new ← deref message.value_aggregate
  old ← deref current.value_aggregate
  err_if (ltb_ℤ new old) (rejected Reason.value_decreased true)

-- The voucher that passed the checks is stored; an early return leaves the session alone.
unfoldable pub submit_result :
    Env → Session → Go SubmitRavResponse SignedRav → Go ConnectError SubmitRavResponse × Session
submit_result env session (ok rav) = (ok accepted_response, set_rav (some rav) env.now session)
submit_result env session (err response) = (ok response, session)
submit_result env session panic = (panic, session)

module _ (eth : EthGo) where
  -- The early returns after the test of the state, in order; the result is the voucher to store.
  unfoldable pub voucher_checks :
      ProviderSidecar → SubmitRavRequest → Session → Go SubmitRavResponse SignedRav
  voucher_checks sc req session = do
    converted ← proto_signed_rav_to_horizon req.signed_rav
    pair ← require_message (rejected Reason.invalid_or_missing_rav true) converted
    signer ←
        require_signer eth (λ e. rejected (Reason.signature_verification_failed e) true)
          (λ a. rejected (Reason.signer_not_authorized a) true) sc pair.0
    err_if (not (addresses_equal pair.1.payer session.payer)) (rejected Reason.payer_mismatch true)
    err_if (not (addresses_equal pair.1.service_provider sc.service_provider))
        (rejected Reason.service_provider_mismatch true)
    check_value pair.1 (message_of session.current_rav)
    ok pair.0

  unfoldable pub submit_checks :
      ProviderSidecar → SubmitRavRequest → Session → Go SubmitRavResponse SignedRav
  unfolding voucher_checks
  submit_checks sc req session = do
    err_if (not (is_active session)) (rejected Reason.session_not_active false)
    voucher_checks sc req session

  unfoldable pub submit_body :
      ProviderSidecar → Env → SubmitRavRequest → Action Session ConnectError SubmitRavResponse
  unfolding submit_result
  submit_body sc env req session = submit_result env session (submit_checks sc req session)

  unfoldable pub submit_rav :
      ProviderSidecar → Env → SubmitRavRequest → Go ConnectError SubmitRavResponse × ProviderSidecar
  submit_rav sc env req =
      with_sessions
        (on_session req.session_id (ok (rejected Reason.session_not_found false))
          (submit_body sc env req))
        sc
