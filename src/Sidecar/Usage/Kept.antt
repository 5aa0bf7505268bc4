-- ===== src/Sidecar/Usage/Kept.antt =====
-- A usage report leaves a session with its history.
use substreams_data_service.Common.{ℕ, none, some}
use substreams_data_service.Common.Digits.{set_bytes}
use substreams_data_service.Common.Go.{Ptr}
use substreams_data_service.Common.Action.{◌>>=◌, pure, lift, modify}
use substreams_data_service.Common.Action.Keeps.{Keeps}
use substreams_data_service.Pb.{PbUsage, PbBigInt, to_native}
use substreams_data_service.Sidecar.Session.{Session}
use substreams_data_service.Sidecar.Session.History.{Later, Later-refl, add_usage-Later}
use substreams_data_service.Sidecar.Usage.{apply_usage}

costed :
    (E : Type 0) (usage : PbUsage) (now : ℕ) (c : Ptr PbBigInt) (s : Session)
    → Later s (apply_usage {E = E} (some (record usage { cost = c })) now s).1
unfolding apply_usage to_native ◌>>=◌ lift pure modify
costed E usage now none s = Later-refl s
costed E usage now (some b) s =
    add_usage-Later usage.blocks_processed usage.bytes_transferred usage.requests
      (set_bytes b.bytes) now s

reported :
    (E : Type 0) (usage : Ptr PbUsage) (now : ℕ) (s : Session)
    → Later s (apply_usage {E = E} usage now s).1
reported E none now s = unfold apply_usage pure in Later-refl s
reported E (some u) now s = costed E u now u.cost s

pub apply_usage-Later :
    {E : Type 0} (usage : Ptr PbUsage) (now : ℕ) → Keeps Later (apply_usage {E = E} usage now)
apply_usage-Later {E} usage now = record { run = reported E usage now }
