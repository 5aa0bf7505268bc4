-- ===== src/Consumer/State.antt =====
-- consumer/sidecar/sidecar.go: the state of the consumer's sidecar, and `signRAV`. The messages are
-- those of consumer.pb.go.
pub mod Issued
use substreams_data_service.Common.{ℕ, none, some, Bool, true, false, Bytes, String, replicate, []}
use substreams_data_service.Common.Int.{ℤ, pos, ◌+ℤ◌}
use substreams_data_service.Common.Go.{Ptr, Go, ok, err, panic, deref, ◌>>=◌}
use substreams_data_service.Horizon.Types.{Address, CollectionId, Rav, SignedRav, Error}
use substreams_data_service.Horizon.EthGo.{EthGo}
use substreams_data_service.Horizon.Eip712.{Domain, rav_encodable}
use substreams_data_service.Horizon.SignedMessage.{sign}
use substreams_data_service.Pb.{PbSignedRav, PbUsage, PbSessionInfo, PbEscrowAccount}
use substreams_data_service.Sidecar.Manager.{SessionManager, new_session_manager}

-- `signer_key` and `domain` do not change.
pub record ConsumerConfig (eth : EthGo) : Type 0 where
  pub signer_key : eth.PrivateKey
  pub domain : Domain

pub data ConnectError : Type 0 where
  not_found : String → ConnectError
  failed_precondition : ConnectError
  internal : Error → ConnectError

-- The clock of the session's stamps, the nanoseconds of `time.Now().UnixNano()` as a `uint64`, and
-- the identifier of a new session.
pub record Env : Type 0 where
  pub now : ℕ
  pub unix_nano : ℕ
  pub fresh_id : String

pub record InitRequest : Type 0 where
  pub escrow_account : Ptr PbEscrowAccount
  pub provider_endpoint : String
  pub existing_rav : Ptr PbSignedRav

pub record InitResponse : Type 0 where
  pub session : PbSessionInfo
  pub payment_rav : Ptr PbSignedRav

pub record ReportUsageRequest : Type 0 where
  pub session_id : String
  pub usage : Ptr PbUsage

pub record ReportUsageResponse : Type 0 where
  pub updated_rav : Ptr PbSignedRav
  pub should_continue : Bool

pub record EndSessionRequest : Type 0 where
  pub session_id : String
  pub final_usage : Ptr PbUsage

pub record EndSessionResponse : Type 0 where
  pub final_rav : Ptr PbSignedRav
  pub total_usage : PbUsage

-- The errors of `signRAV` become internal errors.
abbrev pub as_internal : {A : Type 0} → Go Error A → Go ConnectError A
as_internal (ok a) = ok a
as_internal (err e) = err (internal e)
as_internal panic = panic

abbrev pub zero_collection : CollectionId
zero_collection = replicate 32 0

unfoldable pub collection_or_zero : Ptr Rav → CollectionId
collection_or_zero none = zero_collection
collection_or_zero (some m) = m.collection_id

module _ (eth : EthGo) where
  unfoldable pub sign_rav :
      ConsumerConfig eth
      → CollectionId
      → Address
      → Address
      → Address
      → ℕ
      → Ptr ℤ
      → Bytes
      → Go ConnectError SignedRav
  sign_rav c collection_id payer data_service service_provider timestamp_ns value metadata =
      as_internal (
        sign eth (rav_encodable eth) c.domain
          (some (record {
            collection_id = collection_id;
            payer = payer;
            service_provider = service_provider;
            data_service = data_service;
            timestamp_ns = timestamp_ns;
            value_aggregate = value;
            metadata = metadata;
          }))
          c.signer_key)
