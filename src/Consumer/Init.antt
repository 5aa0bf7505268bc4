-- ===== src/Consumer/Init.antt =====
-- consumer/sidecar/handler_init.go: `Init`.
use substreams_data_service.Common.{none, some, []}
use substreams_data_service.Common.Int.{pos}
use substreams_data_service.Common.Go.{Ptr, Go, ok, err, panic, deref}
use substreams_data_service.Common.Go
use substreams_data_service.Common.Action.{Action, gets, lift, modify, ◌>>=◌, ◌>>◌, pure}
use substreams_data_service.Horizon.Types.{Address, SignedRav}
use substreams_data_service.Horizon.EthGo.{EthGo}
use substreams_data_service.Pb.{PbSignedRav, to_eth}
use substreams_data_service.Sidecar.Convert.{
  proto_signed_rav_to_horizon, horizon_signed_rav_to_proto,
}
use substreams_data_service.Sidecar.Session.{Session, set_rav, to_session_info}
use substreams_data_service.Sidecar.Manager.{SessionManager, create, on_created}
use substreams_data_service.Consumer.State.{
  ConsumerConfig, ConnectError, Env, InitRequest, InitResponse, zero_collection, sign_rav,
}

-- The payer, the receiver and the data service of the request.
unfoldable pub account_of : {E : Type 0} → InitRequest → Go E (Address × Address × Address)
account_of req = Go.◌>>=◌ (deref req.escrow_account) λ ea. Go.◌>>=◌ (to_eth ea.payer) λ payer.
    Go.◌>>=◌ (to_eth ea.receiver) λ receiver.
      Go.◌>>=◌ (to_eth ea.data_service) λ data_service. ok (payer, receiver, data_service)

-- `if req.Msg.ExistingRav != nil { … }`: a voucher without a message is stored as nil.
unfoldable pub take_existing : Env → Ptr PbSignedRav → Action Session ConnectError (Ptr SignedRav)
take_existing env none = pure none
take_existing env (some pb) = do
  existing ← lift (proto_signed_rav_to_horizon (some pb))
  modify (set_rav existing env.now)
  pure existing

module _ (eth : EthGo) where
  -- The existing voucher, or a new one of value zero.
  unfoldable pub initial_rav :
      ConsumerConfig eth → Env → Ptr SignedRav → Action Session ConnectError SignedRav
  initial_rav c env (some existing) = pure existing
  initial_rav c env none = do
    s ← gets (λ s. s)
    signed ← lift (
        sign_rav eth c zero_collection s.payer s.data_service s.receiver env.unix_nano
          (some (pos 0)) [])
    modify (set_rav (some signed) env.now)
    pure signed

  unfoldable pub init_body :
      ConsumerConfig eth → Env → InitRequest → Action Session ConnectError InitResponse
  unfolding take_existing initial_rav
  init_body c env req = do
    existing ← take_existing env req.existing_rav
    signed ← initial_rav c env existing
    session ← gets (λ s. s)
    info ← lift (to_session_info session)
    proto_rav ← lift (horizon_signed_rav_to_proto (some signed))
    pure (record { session = info; payment_rav = proto_rav })

  unfoldable pub init :
      ConsumerConfig eth
      → Env
      → InitRequest
      → SessionManager
      → Go ConnectError InitResponse × SessionManager
  init c env req sm = elim (account_of req) [
    | ok (payer, receiver, data_service) ↦
        on_created (create env.fresh_id env.now payer receiver data_service sm)
          (init_body c env req)
    | err e ↦ (err e, sm)
    | panic ↦ (panic, sm)
  ]
