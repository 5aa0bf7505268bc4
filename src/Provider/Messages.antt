-- ===== src/Provider/Messages.antt =====
-- The requests and responses of the provider's services (provider.pb.go, gateway.pb.go), and the
-- reasons that the handlers give as text.
use substreams_data_service.Common.{Bool, String}
use substreams_data_service.Common.Go.{Ptr}
use substreams_data_service.Horizon.Types.{Error}
use substreams_data_service.Pb.{
  EndReason, PbSignedRav, PbUsage, PbBigInt, PbEscrowAccount, PbSessionInfo, PbServiceParameters,
  PbPaymentStatus,
}

-- The texts of `RejectionReason`, `StopReason` and `Reason`, one constructor each.
pub data Reason : Type 0 where
  -- the empty text
  no_reason : Reason
  -- "invalid or missing RAV", "invalid RAV"
  invalid_or_missing_rav : Reason
  -- "signature verification failed: …"
  signature_verification_failed : Error → Reason
  -- "initial RAV signature verification failed: …"
  initial_signature_verification_failed : Error → Reason
  -- "signer … is not authorized"
  signer_not_authorized : String → Reason
  -- "signature verification failed", "signer not authorized"
  unverified unauthorized : Reason
  -- "RAV is for a different service provider"
  different_service_provider : Reason
  -- "session not found", "session is not active"
  session_not_found session_not_active : Reason
  -- "RAV payer does not match session", "RAV payer does not match escrow account payer"
  payer_mismatch payer_not_escrow_payer : Reason
  -- "RAV service provider does not match"
  service_provider_mismatch : Reason
  -- "RAV value is less than current RAV"
  value_decreased : Reason
  -- "escrow account receiver does not match this service provider"
  receiver_mismatch : Reason
  -- "insufficient funds and no deposit planned"
  no_deposit_planned : Reason

pub data ConnectError : Type 0 where
  not_found : String → ConnectError

pub record ValidatePaymentRequest : Type 0 where
  pub payment_rav : Ptr PbSignedRav
  pub client_session_id : String
  pub service_params : Ptr PbServiceParameters

pub record ValidatePaymentResponse : Type 0 where
  pub valid : Bool
  pub rejection_reason : Reason
  pub session_id : String
  pub service_params : Ptr PbServiceParameters
  pub escrow_account : Ptr PbEscrowAccount
  pub available_balance : Ptr PbBigInt

pub record ReportUsageRequest : Type 0 where
  pub session_id : String
  pub usage : Ptr PbUsage

pub record ReportUsageResponse : Type 0 where
  pub should_continue : Bool
  pub stop_reason : Reason
  pub rav_updated : Bool

pub record EndSessionRequest : Type 0 where
  pub session_id : String
  pub final_usage : Ptr PbUsage
  pub reason : EndReason

pub record EndSessionResponse : Type 0 where
  pub final_rav : Ptr PbSignedRav
  pub total_usage : PbUsage
  pub total_value : PbBigInt

pub record GetSessionStatusResponse : Type 0 where
  pub active : Bool
  pub session : Ptr PbSessionInfo
  pub payment_status : Ptr PbPaymentStatus

pub record StartSessionRequest : Type 0 where
  pub escrow_account : Ptr PbEscrowAccount
  pub initial_rav : Ptr PbSignedRav

pub record StartSessionResponse : Type 0 where
  pub session_id : String
  pub use_rav : Ptr PbSignedRav
  pub accepted : Bool
  pub rejection_reason : Reason

pub record SubmitRavRequest : Type 0 where
  pub session_id : String
  pub signed_rav : Ptr PbSignedRav
  pub usage : Ptr PbUsage

pub record SubmitRavResponse : Type 0 where
  pub accepted : Bool
  pub rejection_reason : Reason
  pub should_continue : Bool

-- `PaymentSessionRequest`; `other` is a message of no known type.
pub data PaymentSessionRequest : Type 0 where
  rav_submission : Ptr PbSignedRav → PaymentSessionRequest
  funds_ack : Bool → PaymentSessionRequest
  usage_report : Ptr PbUsage → PaymentSessionRequest
  other : PaymentSessionRequest

-- The `SessionControl` responses that the handlers send.
pub data SessionControl : Type 0 where
  action_continue : SessionControl
  action_stop : Reason → SessionControl
