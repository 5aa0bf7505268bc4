-- ===== src/Consumer/Finish.antt =====
-- consumer/sidecar/handler_end_session.go: `EndSession`.
pub mod Accounts
use substreams_data_service.Common.{none, some, []}
use substreams_data_service.Common.Int.{ℤ, pos, ◌+ℤ◌}
use substreams_data_service.Common.Go.{Ptr, Go, ok, err, deref}
use substreams_data_service.Common.Go
use substreams_data_service.Common.Action.{Action, gets, lift, modify, ◌>>=◌, ◌>>◌, pure}
use substreams_data_service.Horizon.Types.{message_of, Rav}
use substreams_data_service.Horizon.EthGo.{EthGo}
use substreams_data_service.Pb.{EndReason, PbUsage, to_native}
use substreams_data_service.Sidecar.Convert.{horizon_signed_rav_to_proto}
use substreams_data_service.Sidecar.Session.{Session, set_rav, end_session, get_usage}
use substreams_data_service.Sidecar.Manager.{SessionManager, on_session}
use substreams_data_service.Sidecar.Usage.{apply_usage}
use substreams_data_service.Consumer.State.{
  ConsumerConfig, ConnectError, not_found, Env, EndSessionRequest, EndSessionResponse,
  collection_or_zero, sign_rav,
}

-- The four cases of the final value. Without a usage report the voucher's own value is taken,
-- which may be nil.
unfoldable pub final_value : {E : Type 0} → Ptr Rav → Ptr PbUsage → Go E (Ptr ℤ)
final_value (some m) (some u) =
    Go.◌>>=◌ (to_native u.cost)
      λ cost. Go.◌>>=◌ (deref m.value_aggregate) λ value. ok (some (value +ℤ cost))
final_value (some m) none = ok m.value_aggregate
final_value none (some u) = Go.◌>>=◌ (to_native u.cost) λ cost. ok (some cost)
final_value none none = ok (some (pos 0))

module _ (eth : EthGo) where
  unfoldable pub finish_body :
      ConsumerConfig eth → Env → EndSessionRequest → Action Session ConnectError EndSessionResponse
  finish_body c env req = do
    apply_usage req.final_usage env.now
    session ← gets (λ s. s)
    let message = message_of session.current_rav
    value ← lift (final_value message req.final_usage)
    final_rav ← lift (
        sign_rav eth c (collection_or_zero message) session.payer session.data_service
          session.receiver env.unix_nano value [])
    modify (set_rav (some final_rav) env.now)
    modify (end_session EndReason.complete env.now)
    ended ← gets (λ s. s)
    total_usage ← lift (get_usage ended)
    proto_rav ← lift (horizon_signed_rav_to_proto (some final_rav))
    pure (record { final_rav = proto_rav; total_usage = total_usage })

  unfoldable pub finish_session :
      ConsumerConfig eth
      → Env
      → EndSessionRequest
      → SessionManager
      → Go ConnectError EndSessionResponse × SessionManager
  finish_session c env req =
      on_session req.session_id (err (not_found req.session_id)) (finish_body c env req)
