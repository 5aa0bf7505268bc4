-- ===== src/Sidecar/Session/Info.antt =====
-- The description of a session that the protocol sends.
use substreams_data_service.Common.{◌≡◌, refl, some}
use substreams_data_service.Common.Int.{abs}
use substreams_data_service.Common.Digits.{be_bytes}
use substreams_data_service.Common.Go.{Ptr, ok}
use substreams_data_service.Pb.{PbSignedRav, PbSessionInfo, address_from_eth, big_int_from_native}
use substreams_data_service.Sidecar.Convert.{horizon_signed_rav_to_proto}
use substreams_data_service.Sidecar.Session.{Session, to_session_info, get_usage}

-- If the voucher of a session can be sent, the session can be described.
pub info_of :
    {E : Type 0} (s : Session) {wire : Ptr PbSignedRav}
    → horizon_signed_rav_to_proto {E = E} s.current_rav ≡ ok wire
    → (info : PbSessionInfo) × (info.session_id ≡ s.id) × (to_session_info {E = E} s ≡ ok info)
unfolding to_session_info get_usage big_int_from_native
info_of {E} s {wire} h = (
  record {
    session_id = s.id;
    escrow_account = record {
      payer = some (address_from_eth s.payer);
      receiver = some (address_from_eth s.receiver);
      data_service = some (address_from_eth s.data_service);
    };
    current_rav = wire;
    accumulated_usage = record {
      blocks_processed = s.blocks_processed;
      bytes_transferred = s.bytes_transferred;
      requests = s.requests;
      cost = some (record { bytes = be_bytes (abs s.total_cost) });
    };
  },
  refl,
  rw h refl,
)
