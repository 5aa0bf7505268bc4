-- ===== src/Provider/Status.antt =====
-- provider/sidecar/handler_get_session_status.go: `GetSessionStatus`, which changes nothing.
pub mod Funds
use substreams_data_service.Common.{
  ℕ, ◌/◌, ◌%◌, ◌^◌, none, some, true, false, Bool, not, String, ◌&&◌, if◌then◌else◌,
}
use substreams_data_service.Common.Int.{ℤ, pos, pos_part, ◌-ℤ◌, ltb_ℤ, leb_ℤ}
use substreams_data_service.Common.Go.{Ptr, Go, ok, err, panic, deref, ◌>>=◌}
use substreams_data_service.Horizon.Types.{SignedRav}
use substreams_data_service.Pb.{big_int_from_native}
use substreams_data_service.Sidecar.Session.{Session, is_active, to_session_info}
use substreams_data_service.Sidecar.Manager.{get}
use substreams_data_service.Sidecar.Escrow.{QueryError}
use substreams_data_service.Provider.State.{ProviderSidecar, get_escrow_balance}
use substreams_data_service.Provider.Messages.{ConnectError, GetSessionStatusResponse}

-- The value of the session's voucher, or zero.
unfoldable pub current_rav_value : {E : Type 0} → Ptr SignedRav → Go E ℤ
current_rav_value none = ok (pos 0)
current_rav_value (some r) = elim r.message [ none ↦ ok (pos 0) | some m ↦ deref m.value_aggregate ]

-- A failed query counts as a balance of zero.
unfoldable pub balance_or_zero : {E : Type 0} → Go QueryError (Ptr ℤ) → Go E ℤ
balance_or_zero (ok none) = ok (pos 0)
balance_or_zero (ok (some b)) = ok b
balance_or_zero (err e) = ok (pos 0)
balance_or_zero panic = panic

unfoldable pub uncommitted_usage : ℤ → ℤ → ℤ
uncommitted_usage total_cost rav_value =
    let difference = total_cost -ℤ rav_value in
    if ltb_ℤ difference (pos 0) then pos 0 else difference

unfoldable pub funds_sufficient : ℤ → ℤ → Bool
funds_sufficient escrow_balance uncommitted = leb_ℤ uncommitted escrow_balance

-- `Uint64` keeps the low 64 bits of the quotient.
unfoldable pub estimated_blocks : Ptr ℤ → ℤ → ℤ → ℕ
estimated_blocks none escrow_balance uncommitted = 0
estimated_blocks (some price) escrow_balance uncommitted =
    let available = escrow_balance -ℤ uncommitted in
    if ltb_ℤ (pos 0) price && ltb_ℤ (pos 0) available
    then pos_part available / pos_part price % 2 ^ 64
    else 0

unfoldable pub status_of : ProviderSidecar → Session → Go ConnectError GetSessionStatusResponse
unfolding uncommitted_usage funds_sufficient estimated_blocks
status_of sc session = do
  info ← to_session_info session
  rav_value ← current_rav_value session.current_rav
  escrow_balance ← balance_or_zero (get_escrow_balance sc session.payer)
  let uncommitted = uncommitted_usage session.total_cost rav_value
  pb_rav_value ← big_int_from_native (some rav_value)
  pb_usage_value ← big_int_from_native (some session.total_cost)
  pb_balance ← big_int_from_native (some escrow_balance)
  ok (record {
    active = is_active session;
    session = some info;
    payment_status = some (record {
      current_rav_value = pb_rav_value;
      accumulated_usage_value = pb_usage_value;
      escrow_balance = pb_balance;
      funds_sufficient = funds_sufficient escrow_balance uncommitted;
      estimated_blocks_remaining =
          estimated_blocks session.price_per_block escrow_balance uncommitted;
    });
  })

abbrev pub unknown_session : GetSessionStatusResponse
unknown_session = record { active = false; session = none; payment_status = none }

unfoldable pub get_session_status :
    ProviderSidecar → String → Go ConnectError GetSessionStatusResponse
get_session_status sc id = elim (get id sc.sessions) [
  | none ↦ ok unknown_session
  | some s ↦ status_of sc s
]
