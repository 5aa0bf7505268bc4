-- ===== src/Provider/Stream.antt =====
-- provider/sidecar/handler_payment_session.go: `PaymentSession`. The messages of the stream are a
-- list, followed by its end; the responses are listed in the order in which they are sent. The
-- handlers change no state.
use substreams_data_service.Common.{List, [], ◌∷◌, ◌++◌, true, false, Bool, String}
use substreams_data_service.Common.Go.{Ptr, Go, ok, err, panic, ◌>>=◌}
use substreams_data_service.Horizon.EthGo.{EthGo}
use substreams_data_service.Pb.{PbSignedRav}
use substreams_data_service.Sidecar.Convert.{proto_signed_rav_to_horizon}
use substreams_data_service.Provider.State.{ProviderSidecar}
use substreams_data_service.Provider.Messages.{
  Reason, PaymentSessionRequest, rav_submission, funds_ack, usage_report, other, SessionControl,
  action_continue, action_stop,
}
use substreams_data_service.Provider.Signers.{require_message, require_signer}

-- `stream.Receive` ends with `io.EOF` or with an error.
pub data StreamEnd : Type 0 where
  eof : StreamEnd
  receive_error : String → StreamEnd

module _ (eth : EthGo) where
  unfoldable pub submission_checks :
      ProviderSidecar → Ptr PbSignedRav → Go SessionControl (Unit {0})
  submission_checks sc signed_rav = do
    converted ← proto_signed_rav_to_horizon signed_rav
    pair ← require_message (action_stop Reason.invalid_or_missing_rav) converted
    signer ←
        require_signer eth (λ e. action_stop Reason.unverified)
          (λ a. action_stop Reason.unauthorized) sc pair.0
    ok tt

  -- `handleRAVSubmission`: the voucher is checked, and not stored.
  unfoldable pub handle_rav_submission :
      ProviderSidecar → Ptr PbSignedRav → Go String SessionControl
  handle_rav_submission sc signed_rav = elim (submission_checks sc signed_rav) [
    | ok _ ↦ ok action_continue
    | err control ↦ ok control
    | panic ↦ panic
  ]

-- `handleFundsAcknowledgment`
unfoldable pub handle_funds_ack : Bool → SessionControl
handle_funds_ack true = action_continue
handle_funds_ack false = action_stop Reason.no_deposit_planned

module _ (eth : EthGo) where
  -- A message of no known type is passed over.
  unfoldable pub handle_message :
      ProviderSidecar → PaymentSessionRequest → Go String (List SessionControl)
  unfolding handle_funds_ack
  handle_message sc (rav_submission r) = do
    control ← handle_rav_submission eth sc r
    ok (control ∷ [])
  handle_message sc (funds_ack will_deposit) = ok (handle_funds_ack will_deposit ∷ [])
  handle_message sc (usage_report usage) = ok (action_continue ∷ [])
  handle_message sc other = ok []

  -- What has been sent, and how the handler returned.
  unfoldable pub payment_session :
      ProviderSidecar
      → List PaymentSessionRequest
      → StreamEnd
      → List SessionControl × Go String (Unit {0})
  payment_session sc [] eof = ([], ok tt)
  payment_session sc [] (receive_error e) = ([], err e)
  payment_session sc (m ∷ ms) end =
      let (sent, result) = payment_session sc ms end in
      elim (handle_message sc m) [
        | ok controls ↦ (controls ++ sent, result)
        | err e ↦ ([], err e)
        | panic ↦ ([], panic)
      ]
