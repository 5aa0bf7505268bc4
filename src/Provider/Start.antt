-- ===== src/Provider/Start.antt =====
-- provider/sidecar/handler_start_session.go: `StartSession`.
use substreams_data_service.Common.{none, some, true, false, not}
use substreams_data_service.Common.Go.{Ptr, Go, ok, err, panic, deref, err_if, ◌>>=◌, ◌>>◌}
use substreams_data_service.Common.Action.{Action}
use substreams_data_service.Horizon.Types.{Address, Rav, SignedRav}
use substreams_data_service.Horizon.EthGo.{EthGo}
use substreams_data_service.Pb.{to_eth}
use substreams_data_service.Sidecar.Convert.{proto_signed_rav_to_horizon, addresses_equal}
use substreams_data_service.Sidecar.Session.{Session, set_rav}
use substreams_data_service.Sidecar.Manager.{create, on_created}
use substreams_data_service.Provider.State.{ProviderSidecar, Env, with_sessions}
use substreams_data_service.Provider.Messages.{
  Reason, ConnectError, StartSessionRequest, StartSessionResponse,
}
use substreams_data_service.Provider.Signers.{require_signer}

abbrev pub refused : Reason → StartSessionResponse
refused reason = record {
  session_id = "";
  use_rav = none;
  accepted = false;
  rejection_reason = reason;
}

-- What the checks establish: the account's payer and data service, and the initial voucher.
pub record Opening : Type 0 where
  pub payer : Address
  pub data_service : Address
  pub initial_rav : Ptr SignedRav

module _ (eth : EthGo) where
  unfoldable pub check_message :
      ProviderSidecar → Address → SignedRav → Rav → Go StartSessionResponse (Unit {0})
  check_message sc payer rav message = do
    signer ←
        require_signer eth (λ e. refused (Reason.initial_signature_verification_failed e))
          (λ a. refused (Reason.signer_not_authorized a)) sc rav
    err_if (not (addresses_equal message.payer payer)) (refused Reason.payer_not_escrow_payer)
    err_if (not (addresses_equal message.service_provider sc.service_provider))
        (refused Reason.service_provider_mismatch)

  -- `if initialRAV != nil && initialRAV.Message != nil { … }`
  unfoldable pub check_initial :
      ProviderSidecar → Address → Ptr SignedRav → Go StartSessionResponse (Unit {0})
  unfolding check_message
  check_initial sc payer none = ok tt
  check_initial sc payer (some rav) = elim rav.message [
    | none ↦ ok tt
    | some m ↦ check_message sc payer rav m
  ]

  unfoldable pub start_checks :
      ProviderSidecar → StartSessionRequest → Go StartSessionResponse Opening
  start_checks sc req = do
    ea ← deref req.escrow_account
    payer ← to_eth ea.payer
    receiver ← to_eth ea.receiver
    data_service ← to_eth ea.data_service
    err_if (not (addresses_equal receiver sc.service_provider)) (refused Reason.receiver_mismatch)
    initial ← proto_signed_rav_to_horizon req.initial_rav
    check_initial sc payer initial
    ok (record { payer = payer; data_service = data_service; initial_rav = initial })

-- `if initialRAV != nil { session.SetRAV(initialRAV) }`
unfoldable pub store_initial : Env → Ptr SignedRav → Session → Session
store_initial env none s = s
store_initial env (some rav) s = set_rav (some rav) env.now s

unfoldable pub start_body :
    Env → StartSessionRequest → Ptr SignedRav → Action Session ConnectError StartSessionResponse
unfolding store_initial
start_body env req initial s = (
  ok (record {
    session_id = s.id;
    use_rav = req.initial_rav;
    accepted = true;
    rejection_reason = Reason.no_reason;
  }),
  store_initial env initial s,
)

-- The rest of the handler, after the checks.
unfoldable pub start_result :
    ProviderSidecar
    → Env
    → StartSessionRequest
    → Go StartSessionResponse Opening
    → Go ConnectError StartSessionResponse × ProviderSidecar
start_result sc env req (ok o) =
    with_sessions
      (λ sm.
        on_created (create env.fresh_id env.now o.payer sc.service_provider o.data_service sm)
          (start_body env req o.initial_rav))
      sc
start_result sc env req (err response) = (ok response, sc)
start_result sc env req panic = (panic, sc)

unfoldable pub start_session :
    EthGo
    → ProviderSidecar
    → Env
    → StartSessionRequest
    → Go ConnectError StartSessionResponse × ProviderSidecar
unfolding start_result
start_session eth sc env req = start_result sc env req (start_checks eth sc req)
