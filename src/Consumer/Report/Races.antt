-- ===== src/Consumer/Report/Races.antt =====
-- consumer/sidecar/handler_report_usage.go: `ReportUsage` calls on one session at the same time.
-- Each method of sidecar/session.go holds the session's lock, and a call holds no lock between them:
-- it runs in turns, `IsActive`, then `AddUsage`, then `GetRAV` and the signature, then `SetRAV`, and
-- the turns of the calls meet in any order.
pub mod Owed
pub mod Turns
pub mod Budget
pub mod Overlap
pub mod Alone
use substreams_data_service.Common.{
  ℕ, zero, suc, ◌+◌, List, [], ◌∷◌, none, some, true, if◌then◌else◌, map,
}
use substreams_data_service.Common.Int.{ℤ}
use substreams_data_service.Common.Digits.{set_bytes}
use substreams_data_service.Common.Go.{Ptr, Go, ok, err, panic, ◌>>=◌}
use substreams_data_service.Horizon.Types.{SignedRav, message_of}
use substreams_data_service.Horizon.EthGo.{EthGo}
use substreams_data_service.Pb.{PbUsage, PbBigInt, EndReason}
use substreams_data_service.Sidecar.Convert.{horizon_signed_rav_to_proto}
use substreams_data_service.Sidecar.Session.{Session, is_active, set_rav, end_session}
use substreams_data_service.Sidecar.Usage.{apply_usage}
use substreams_data_service.Consumer.State.{
  ConsumerConfig, ConnectError, failed_precondition, Env, ReportUsageResponse, collection_or_zero,
  sign_rav,
}
use substreams_data_service.Consumer.Report.{new_value}

-- Where a call with this usage stands.
pub data Phase : Type 0 where
  arrived : Ptr PbUsage → Phase
  running : Ptr PbUsage → Phase
  counted : Ptr PbUsage → Phase
  signed : SignedRav → Phase
  answered : ReportUsageResponse → Phase
  failed : ConnectError → Phase
  crashed : Phase

abbrev pub after_sign : Go ConnectError SignedRav → Phase
after_sign (ok rav) = signed rav
after_sign (err e) = failed e
after_sign panic = crashed

abbrev pub after_store : Go ConnectError ReportUsageResponse → Phase
after_store (ok response) = answered response
after_store (err e) = failed e
after_store panic = crashed

abbrev pub after_count : Ptr PbUsage → Go ConnectError (Unit {0}) × Session → Phase × Session
after_count usage (ok _, s) = (counted usage, s)
after_count usage (err e, s) = (failed e, s)
after_count usage (panic, s) = (crashed, s)

-- What a call returns, if it has ended.
abbrev pub outcome : Phase → Ptr (Go ConnectError ReportUsageResponse)
outcome (arrived usage) = none
outcome (running usage) = none
outcome (counted usage) = none
outcome (signed rav) = none
outcome (answered response) = some (ok response)
outcome (failed e) = some (err e)
outcome crashed = some panic

pub record System : Type 0 where
  pub session : Session
  pub calls : List Phase

module _ (eth : EthGo) (c : ConsumerConfig eth) where
  -- The next voucher, from the session as `GetRAV` sees it.
  unfoldable pub sign_next : Env → Ptr PbUsage → Session → Go ConnectError SignedRav
  sign_next env usage s = do
    let message = message_of s.current_rav
    value ← new_value message usage
    sign_rav eth c (collection_or_zero message) s.payer s.data_service s.receiver env.unix_nano
        (some value) []

  unfoldable pub response_with : SignedRav → Go ConnectError ReportUsageResponse
  response_with rav = do
    proto_rav ← horizon_signed_rav_to_proto (some rav)
    ok (record { updated_rav = proto_rav; should_continue = true })

  -- One turn of a call: what it does between two acquisitions of the session's lock.
  unfoldable pub turn : Env → Phase → Session → Phase × Session
  turn env (arrived usage) s =
      if is_active s then (running usage, s) else (failed failed_precondition, s)
  turn env (running usage) s = after_count usage (apply_usage usage env.now s)
  turn env (counted usage) s = (after_sign (sign_next env usage s), s)
  turn env (signed rav) s = (after_store (response_with rav), set_rav (some rav) env.now s)
  turn env (answered response) s = (answered response, s)
  turn env (failed e) s = (failed e, s)
  turn env crashed s = (crashed, s)

  -- The turn of the call number `i`.
  unfoldable pub turn_of : Env → ℕ → List Phase → Session → List Phase × Session
  turn_of env i [] s = ([], s)
  turn_of env zero (p ∷ rest) s = let (p', s') = turn env p s in (p' ∷ rest, s')
  turn_of env (suc i) (p ∷ rest) s = let (rest', s') = turn_of env i rest s in (p ∷ rest', s')

  unfoldable pub call_turn : Env → ℕ → System → System
  call_turn env i sys =
      let (calls, session) = turn_of env i sys.calls sys.session in
      record { session = session; calls = calls }

  pub data Step (sys : System) : System → Type 0 where
    reports : (env : Env) (i : ℕ) → Step sys (call_turn env i sys)
    ends :
        (reason : EndReason) (now : ℕ)
        → Step sys (record sys { session = end_session reason now sys.session })

  pub data Reach (sys : System) : System → Type 0 where
    here : Reach sys sys
    next : {t u : System} → Reach sys t → Step t u → Reach sys u

  -- The calls take their turns in the order of the list.
  unfoldable pub run_turns : Env → List ℕ → System → System
  run_turns env [] sys = sys
  run_turns env (i ∷ rest) sys = run_turns env rest (call_turn env i sys)

-- Calls with these usages, none of which has had a turn.
unfoldable pub arrivals : List (Ptr PbUsage) → List Phase
arrivals [] = []
arrivals (usage ∷ rest) = arrived usage ∷ arrivals rest
