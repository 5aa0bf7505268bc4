-- ===== src/Sidecar/Usage.antt =====
-- The lines that every handler shares: a usage report is added to the session, if there is one.
pub mod Kept
pub mod Charged
use substreams_data_service.Common.{ℕ, none, some}
use substreams_data_service.Common.Go.{Ptr}
use substreams_data_service.Common.Action.{Action, ◌>>=◌, ◌>>◌, pure, lift, modify}
use substreams_data_service.Pb.{PbUsage, to_native}
use substreams_data_service.Sidecar.Session.{Session, add_usage}

-- `if usage != nil { session.AddUsage(…, usage.Cost.ToNative()) }`
unfoldable pub apply_usage : {E : Type 0} → Ptr PbUsage → ℕ → Action Session E (Unit {0})
apply_usage none now = pure tt
apply_usage (some u) now = do
  cost ← lift (to_native u.cost)
  modify (add_usage u.blocks_processed u.bytes_transferred u.requests (some cost) now)
