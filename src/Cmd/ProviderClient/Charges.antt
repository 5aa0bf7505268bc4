-- ===== src/Cmd/ProviderClient/Charges.antt =====
-- What a run of the operator comes to: a session whose total cost is that of all blocks.
use substreams_data_service.Common.{
  ℕ, ◌+◌, ◌*◌, ◌<◌, ◌≤◌, ◌^◌, ◌≡◌, ◌≢◌, refl, ap, ◌∙◌, none, some, String, inl, inr, arith,
}
use mathlib.Core.Path.{subst}
use substreams_data_service.Common.Int.{ℤ, pos, abs}
use substreams_data_service.Common.Digits.{be_bytes}
use substreams_data_service.Common.Dict.{lookup}
use substreams_data_service.Common.Go.{ok, panic, Go-cases, >>=-ok}
use substreams_data_service.Common.Action.{pure}
use substreams_data_service.Common.Action.Runs.{>>=-run}
use substreams_data_service.Horizon.Types.{Address}
use substreams_data_service.Horizon.EthGo.{EthGo}
use substreams_data_service.Pb.{big_int_from_native}
use substreams_data_service.Sidecar.Convert.{horizon_signed_rav_to_proto}
use substreams_data_service.Consumer.State.Issued.{horizon_signed_rav_to_proto-sent}
use substreams_data_service.Sidecar.Session.{Session, to_session_info}
use substreams_data_service.Sidecar.Session.Info.{info_of}
use substreams_data_service.Sidecar.Manager.{get}
use substreams_data_service.Provider.State.{ProviderSidecar, Env, get_escrow_balance}
use substreams_data_service.Provider.Messages.{ConnectError, GetSessionStatusResponse}
use substreams_data_service.Provider.Status.{
  balance_or_zero, current_rav_value, status_of, get_session_status,
}
use substreams_data_service.Cmd.Batches.{Plan, no_totals, usage_of, run_batches}
use substreams_data_service.Cmd.Batches.Completion.{
  batch_cost-pos, run_batches-Completes, Answers, IsReported,
}
use substreams_data_service.Cmd.ProviderClient.{
  Operator, Summary, call, operator_start, operator_report, operator_end, operator_finish,
  run_operator, operator_loop,
}
use substreams_data_service.Cmd.ProviderClient.Calls.{
  IsCharged, IsClosed, call_run, operator_report-IsCharged, operator_end-IsClosed,
}
use substreams_data_service.Cmd.ProviderClient.Start.{IsServed, operator_start-IsCharged}

balance_or_zero_total :
    (sc : ProviderSidecar) (payer : Address)
    → get_escrow_balance sc payer ≢ panic
    → (b : ℤ) × (balance_or_zero {E = ConnectError} (get_escrow_balance sc payer) ≡ ok b)
unfolding balance_or_zero
balance_or_zero_total sc payer h = elim (Go-cases (get_escrow_balance sc payer)) [
  | inl (none, e) ↦ (pos 0, rw e refl)
  | inl (some z, e) ↦ (z, rw e refl)
  | inr (inl (x, e)) ↦ (pos 0, rw e refl)
  | inr (inr e) ↦ absurd (h e)
]

status_found :
    (sc : ProviderSidecar) (id : String) {s : Session}
    → lookup id sc.sessions.sessions ≡ some s
    → get_session_status sc id ≡ status_of sc s
unfolding get_session_status get
status_found sc id h = rw (get_session_status, h) refl

module _ (before : ProviderSidecar) (payer : Address) (id : String) where
  get_session_status_total :
      (v : ℕ) (sc : ProviderSidecar)
      → get_escrow_balance before payer ≢ panic
      → IsCharged before payer id v sc
      → (a : GetSessionStatusResponse) × (get_session_status sc id ≡ ok a)
  unfolding status_of current_rav_value big_int_from_native get_escrow_balance
  get_session_status_total v sc queries h =
      let here : ProviderSidecar = record before { sessions = h.sessions } in
      let s = h.session in
      let wire = horizon_signed_rav_to_proto-sent {E = ConnectError} h.rav h.given h.valued in
      let (info, named, shown) =
        info_of {E = ConnectError} s (ap horizon_signed_rav_to_proto h.held ∙ wire) in
      let (b, balance) = balance_or_zero_total here payer queries in
      let value : current_rav_value {E = ConnectError} s.current_rav ≡ ok h.value =
        rw (h.held, h.given, h.valued) refl in
      let asked : balance_or_zero {E = ConnectError} (get_escrow_balance here s.payer) ≡ ok b =
        ap (λ a. balance_or_zero (get_escrow_balance here a)) h.paid_by ∙ balance in
      let (a, answered) : (a : GetSessionStatusResponse) × (status_of here s ≡ ok a) =
        >>=-ok (to_session_info s) _ shown (
          >>=-ok (current_rav_value s.current_rav) _ value
            (>>=-ok (balance_or_zero (get_escrow_balance here s.payer)) _ asked (_, refl))) in
      (a, ap (λ x. get_session_status x id) h.frame ∙ status_found here id h.there ∙ answered)

batch_sum : (price r batch : ℕ) → price * r + price * batch ≡ price * (r + batch)
batch_sum price r batch = omega arith

module _ (eth : EthGo) (operator : Operator eth) (envs : ℕ → Env) (plan : Plan) (price : ℕ)
    (before : ProviderSidecar) where
  operator_report-Answers :
      (id : String)
      → plan.price_wei ≡ pos price
      → plan.blocks_to_simulate < 2 ^ 63
      → Answers
          (operator_report envs id)
          plan
          price
          (λ sc r. IsCharged before operator.payer id (price * r) sc)
  unfolding usage_of
  operator_report-Answers id e few i batch r sc h within =
      let cost = batch_cost-pos plan price batch e (omega arith) in
      let same : abs (pos (price * batch)) ≡ price * batch = omega arith in
      let (sc', ran, h') =
        operator_report-IsCharged before operator.payer envs id i (price * r) (price * batch)
          (usage_of plan batch) sc
          (ap (λ z. some (record { bytes = be_bytes (abs z) })) cost
            ∙ ap (λ n. some (record { bytes = be_bytes n })) same)
          h in
      (sc', ran, subst (λ v. IsCharged before operator.payer id v sc') (batch_sum price r batch) h')

  -- With enough fuel the operator ends: if the sidecar accepts its signer, has its domain and its
  -- provider, and can be asked for the balance, the price is not negative, the batches are not
  -- empty and the numbers fit, the session that it opens has ended as complete with the price of
  -- all blocks as its total cost, which is the total value of the last response.
  pub run_operator-IsClosed :
      (fuel : ℕ)
      → IsServed eth operator before
      → plan.price_wei ≡ pos price
      → plan.blocks_to_simulate < 2 ^ 63
      → 0 < plan.batch_size
      → plan.blocks_to_simulate + plan.batch_size ≤ 2 ^ 64
      → plan.blocks_to_simulate < fuel
      → (summary : Summary) × (sc : ProviderSidecar) × (run_operator eth operator envs plan fuel
            before
          ≡ (ok (some summary), sc))
        × (summary.totals.blocks ≡ plan.blocks_to_simulate)
        × (summary.response.total_value
            ≡ record { bytes = be_bytes (price * plan.blocks_to_simulate) })
        × IsClosed (envs 0).fresh_id (price * plan.blocks_to_simulate) sc
  unfolding run_operator operator_loop operator_finish pure
  run_operator-IsClosed fuel served e few some_batch fits enough =
      let id = (envs 0).fresh_id in
      let (sc1, started, charged) = operator_start-IsCharged eth operator envs before served in
      let answers = operator_report-Answers id e few in
      let begun : IsReported plan price 0 0 no_totals = record {
        below = omega arith;
        left = refl;
        blocks = refl;
        cost = ap pos (omega arith);
      } in
      let charged0 : IsCharged before operator.payer id (price * 0) sc1 =
        subst (λ v. IsCharged before operator.payer id v sc1) (omega arith) charged in
      let (totals, sc2, looped, blocks, cost, charged2) =
        run_batches-Completes (operator_report envs id) plan price
          (λ sc r. IsCharged before operator.payer id (price * r) sc) fuel 2 0 0 no_totals sc1
          answers e few some_batch fits (omega arith) begun charged0 in
      let (status, seen) =
        get_session_status_total before operator.payer id (price * plan.blocks_to_simulate) sc2
          served.queries charged2 in
      let (response, sc3, finished, total, closed) =
        operator_end-IsClosed before operator.payer envs id (price * plan.blocks_to_simulate) sc2
          charged2 in
      (
        record { session_id = id; totals = totals; response = response },
        sc3,
        >>=-run (operator_start eth operator envs) _ before started (
            >>=-run (run_batches (operator_report envs id) plan fuel 2 0 no_totals) _ sc1 looped (
              >>=-run (call (λ sc. (get_session_status sc id, sc))) _ sc2
                (call_run (λ sc. (get_session_status sc id, sc)) sc2 (ap (λ x. (x, sc2)) seen))
                (>>=-run (operator_end envs id) _ sc2 finished refl))),
        blocks,
        total,
        closed,
      )
