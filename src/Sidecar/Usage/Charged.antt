-- ===== src/Sidecar/Usage/Charged.antt =====
-- The effect of a usage report on a session.
use substreams_data_service.Common.{ℕ, ◌+◌, ◌%◌, ◌^◌, ◌≡◌, refl, some}
use substreams_data_service.Common.Int.{pos, ◌+ℤ◌}
use substreams_data_service.Common.Digits.{set_bytes}
use substreams_data_service.Common.Go.{ok}
use substreams_data_service.Common.Action.{lift, modify}
use substreams_data_service.Common.Action.Runs.{lift-run}
use substreams_data_service.Pb.{PbUsage, PbBigInt, to_native}
use substreams_data_service.Sidecar.Session.{Session, add_usage}
use substreams_data_service.Sidecar.Usage.{apply_usage}

-- The session with the usage added.
abbrev pub charged : PbUsage → PbBigInt → ℕ → Session → Session
charged u b now s = record s {
  blocks_processed = (s.blocks_processed + u.blocks_processed) % 2 ^ 64;
  bytes_transferred = (s.bytes_transferred + u.bytes_transferred) % 2 ^ 64;
  requests = (s.requests + u.requests) % 2 ^ 64;
  total_cost = s.total_cost +ℤ pos (set_bytes b.bytes);
  updated_at = now;
}

pub apply_usage-charged :
    {E : Type 0} (u : PbUsage) (b : PbBigInt) (now : ℕ) (s : Session)
    → u.cost ≡ some b
    → apply_usage {E = E} (some u) now s ≡ (ok tt, charged u b now s)
unfolding apply_usage to_native lift modify add_usage
apply_usage-charged u b now s h =
    lift-run (to_native u.cost)
      (λ c. modify (add_usage u.blocks_processed u.bytes_transferred u.requests (some c) now)) s
      (simp h) refl
