-- ===== src/Provider/Submit/Races.antt =====
-- provider/sidecar/handler_submit_rav.go: `SubmitRAV` calls on one session at the same time. Each
-- method of sidecar/session.go holds the session's lock, and a call holds no lock between them: it
-- runs in turns, `IsActive`, then the checks up to `GetRAV`, then `SetRAV`, and the turns of the
-- calls meet in any order, with `AddUsage` and `End` of other handlers between them.
pub mod Falls
use substreams_data_service.Common.{
  ℕ, ◌==◌, ◌≡◌, List, [], ◌∷◌, none, some, true, false, if◌then◌else◌,
}
use substreams_data_service.Common.Int.{ℤ}
use substreams_data_service.Common.Go.{Ptr, Go, ok, err, panic}
use substreams_data_service.Horizon.Types.{SignedRav}
use substreams_data_service.Horizon.EthGo.{EthGo}
use substreams_data_service.Pb.{EndReason}
use substreams_data_service.Sidecar.Session.{Session, is_active, set_rav, add_usage, end_session}
use substreams_data_service.Provider.State.{ProviderSidecar, Env}
use substreams_data_service.Provider.Messages.{
  Reason, ConnectError, SubmitRavRequest, SubmitRavResponse,
}
use substreams_data_service.Provider.Submit.{rejected, accepted_response, voucher_checks}

-- Where a call stands; `crashed` is a call that ended in a panic.
pub data Phase : Type 0 where
  arrived : SubmitRavRequest → Phase
  checked : SubmitRavRequest → Phase
  approved : SignedRav → Phase
  answered : SubmitRavResponse → Phase
  crashed : Phase

abbrev pub decided : Go SubmitRavResponse SignedRav → Phase
decided (ok rav) = approved rav
decided (err response) = answered response
decided panic = crashed

pub record System : Type 0 where
  pub session : Session
  pub calls : ℕ → Phase

abbrev pub update : (ℕ → Phase) → ℕ → Phase → ℕ → Phase
update calls i p j = if i == j then p else calls j

-- The calls with these requests, none of which has had a turn.
abbrev pub initial : Session → (ℕ → SubmitRavRequest) → System
initial s requests = record { session = s; calls = λ i. arrived (requests i) }

-- What a call returns, if it has ended.
abbrev pub outcome : Phase → Ptr (Go ConnectError SubmitRavResponse)
outcome (arrived req) = none
outcome (checked req) = none
outcome (approved rav) = none
outcome (answered response) = some (ok response)
outcome crashed = some panic

module _ (eth : EthGo) (sc : ProviderSidecar) where
  -- One turn of a call: what it does between two acquisitions of the session's lock.
  unfoldable pub turn : Env → Phase → Session → Phase × Session
  turn env (arrived req) s =
      if is_active s
      then (checked req, s)
      else (answered (rejected Reason.session_not_active false), s)
  turn env (checked req) s = (decided (voucher_checks eth sc req s), s)
  turn env (approved rav) s = (answered accepted_response, set_rav (some rav) env.now s)
  turn env (answered response) s = (answered response, s)
  turn env crashed s = (crashed, s)

  unfoldable pub call_turn : Env → ℕ → System → System
  call_turn env i sys =
      let (p, s) = turn env (sys.calls i) sys.session in
      record { session = s; calls = update sys.calls i p }

  pub data Step (sys : System) : System → Type 0 where
    submits : (env : Env) (i : ℕ) → Step sys (call_turn env i sys)
    uses :
        (blocks bytes requests : ℕ) (cost : Ptr ℤ) (now : ℕ)
        → Step sys (record sys { session = add_usage blocks bytes requests cost now sys.session })
    ends :
        (reason : EndReason) (now : ℕ)
        → Step sys (record sys { session = end_session reason now sys.session })

  pub data Reach (sys : System) : System → Type 0 where
    here : Reach sys sys
    next : {t u : System} → Reach sys t → Step t u → Reach sys u

  -- The calls take their turns in the order of the list.
  unfoldable pub run_turns : Env → List ℕ → System → System
  run_turns env [] sys = sys
  run_turns env (i ∷ rest) sys = run_turns env rest (call_turn env i sys)
