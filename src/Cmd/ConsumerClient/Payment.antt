-- ===== src/Cmd/ConsumerClient/Payment.antt =====
-- What a run of the client comes to: the session that it opens, pays for and ends.
use substreams_data_service.Common.{
  ℕ, ◌+◌, ◌*◌, ◌<◌, ◌≤◌, ◌^◌, ◌≡◌, refl, sym, ap, none, some, true, String, arith,
}
use native.Mathlib.Nat.{mul-le-mul_left}
use mathlib.Core.Path.{subst}
use substreams_data_service.Common.Int.{pos, abs, int64, ◌*ℤ◌}
use substreams_data_service.Common.Digits.{be_bytes}
use substreams_data_service.Common.Go.{ok}
use substreams_data_service.Common.Action.{pure}
use substreams_data_service.Common.Action.Runs.{>>=-run}
use substreams_data_service.Horizon.EthGo.{EthGo}
use substreams_data_service.Horizon.SignedMessage.Total.{CanSign}
use substreams_data_service.Sidecar.Manager.{SessionManager}
use substreams_data_service.Consumer.State.{ConsumerConfig, Env}
use substreams_data_service.Consumer.Init.{init}
use substreams_data_service.Cmd.Batches.{Plan, no_totals, batch_cost, usage_of, run_batches}
use substreams_data_service.Cmd.Batches.Completion.{
  batch_cost-pos, run_batches_stalls, run_batches-Completes, Answers, IsReported,
}
use substreams_data_service.Cmd.ConsumerClient.{
  Parties, Summary, init_request, client_report, client_finish, run_client,
}
use substreams_data_service.Cmd.ConsumerClient.Calls.{
  IsRunning, IsSettled, client_report-IsRunning, client_end-IsSettled, init-IsRunning,
}

batch_within :
    (price r batch blocks : ℕ) → r + batch ≤ blocks → price * r + price * batch ≤ price * blocks
batch_within price r batch blocks h = omega (arith, mul-le-mul_left price h)

batch_sum : (price r batch : ℕ) → price * r + price * batch ≡ price * (r + batch)
batch_sum price r batch = omega arith

module _ (eth : EthGo) (c : ConsumerConfig eth) (envs : ℕ → Env) (plan : Plan) (price : ℕ) where
  client_report-Answers :
      (id : String)
      → CanSign eth c.domain c.signer_key
      → plan.price_wei ≡ pos price
      → price * plan.blocks_to_simulate < 2 ^ 256
      → plan.blocks_to_simulate < 2 ^ 63
      → Answers (client_report eth c envs id) plan price (λ sm r. IsRunning id (price * r) sm)
  unfolding usage_of
  client_report-Answers id can e small few i batch r sm h within =
      let cost = batch_cost-pos plan price batch e (omega arith) in
      let fits : price * r + price * batch < 2 ^ 256 =
        omega (arith, batch_within price r batch plan.blocks_to_simulate within) in
      let (sm', ran, h') =
        client_report-IsRunning eth c envs id i (price * r) (price * batch) (usage_of plan batch) sm
          can (ap (λ z. some (record { bytes = be_bytes (abs z) })) cost) fits h in
      (sm', ran, subst (λ v. IsRunning id v sm') (batch_sum price r batch) h')

  -- With enough fuel the client ends: if the price is not negative, the batches are not empty,
  -- every voucher can be signed and the numbers fit, the session that it opens has ended and
  -- holds a voucher for the price of all blocks, and the client's totals are those blocks and that
  -- price.
  pub run_client-IsSettled :
      (parties : Parties) (fuel : ℕ) (sm : SessionManager)
      → CanSign eth c.domain c.signer_key
      → plan.price_wei ≡ pos price
      → price * plan.blocks_to_simulate < 2 ^ 256
      → plan.blocks_to_simulate < 2 ^ 63
      → 0 < plan.batch_size
      → plan.blocks_to_simulate + plan.batch_size ≤ 2 ^ 64
      → plan.blocks_to_simulate < fuel
      → (summary : Summary) × (sm' : SessionManager) × (run_client eth c envs parties plan fuel sm
          ≡ (ok (some summary), sm'))
        × (summary.session_id ≡ (envs 0).fresh_id)
        × (summary.totals.blocks ≡ plan.blocks_to_simulate)
        × (summary.totals.cost ≡ pos (price * plan.blocks_to_simulate))
        × IsSettled (envs 0).fresh_id (price * plan.blocks_to_simulate) sm'
  unfolding run_client client_finish pure
  run_client-IsSettled parties fuel sm can e small few some_batch fits enough =
      let id = (envs 0).fresh_id in
      let (started, sm1, named, opened, running) = init-IsRunning eth c (envs 0) parties sm can in
      let answers = client_report-Answers started.session.session_id can e small few in
      let begun : IsReported plan price 0 0 no_totals = record {
        below = omega arith;
        left = refl;
        blocks = refl;
        cost = ap pos (omega arith);
      } in
      let running0 : IsRunning started.session.session_id (price * 0) sm1 =
        subst (λ v. IsRunning started.session.session_id v sm1) (omega arith)
          (subst (λ i. IsRunning i 0 sm1) (sym named) running) in
      let (totals, sm2, looped, blocks, cost, running2) =
        run_batches-Completes (client_report eth c envs started.session.session_id) plan price
          (λ sm r. IsRunning started.session.session_id (price * r) sm) fuel 2 0 0 no_totals sm1
          answers e few some_batch fits (omega arith) begun running0 in
      let (response, sm3, finished, settled) =
        client_end-IsSettled eth c envs started.session.session_id (envs 1)
          (price * plan.blocks_to_simulate) sm2 can small running2 in
      (
        record { session_id = started.session.session_id; totals = totals; response = response },
        sm3,
        >>=-run (init eth c (envs 0) (init_request parties)) _ sm opened (
            >>=-run
              (run_batches (client_report eth c envs started.session.session_id) plan fuel 2 0
                no_totals)
              _ sm1 looped
              (>>=-run _
                (λ response. pure (
                  some (record {
                    session_id = started.session.session_id;
                    totals = totals;
                    response = response;
                  })))
                sm2 finished refl)),
        named,
        blocks,
        cost,
        subst (λ i. IsSettled i (price * plan.blocks_to_simulate) sm3) named settled,
      )

-- A report of no blocks costs nothing, whatever the price.
no_cost : (plan : Plan) → batch_cost plan 0 ≡ pos 0
unfolding batch_cost ◌*ℤ◌
no_cost plan = let s : int64 0 ≡ pos 0 = ground arith in rw s (ground arith)

module _ (eth : EthGo) (c : ConsumerConfig eth) (envs : ℕ → Env) (plan : Plan) where
  empty_report-IsRunning :
      (id : String) (i v : ℕ) (sm : SessionManager)
      → CanSign eth c.domain c.signer_key
      → v < 2 ^ 256
      → IsRunning id v sm
      → (sm' : SessionManager) × (client_report eth c envs id i (usage_of plan 0) sm
          ≡ (ok true, sm'))
        × IsRunning id v sm'
  unfolding usage_of
  empty_report-IsRunning id i v sm can small h =
      let (sm', ran, h') =
        client_report-IsRunning eth c envs id i v 0 (usage_of plan 0) sm can
          (ap (λ z. some (record { bytes = be_bytes (abs z) })) (no_cost plan)) (omega arith) h in
      (sm', ran, subst (λ w. IsRunning id w sm') (omega arith) h')

  -- With batches of no blocks the client never ends, if there is a block to report and every
  -- voucher can be signed: no amount of fuel suffices.
  pub run_client_stalls :
      (parties : Parties) (fuel : ℕ) (sm : SessionManager)
      → CanSign eth c.domain c.signer_key
      → plan.batch_size ≡ 0
      → 0 < plan.blocks_to_simulate
      → plan.blocks_to_simulate < 2 ^ 64
      → (run_client eth c envs parties plan fuel sm).0 ≡ ok none
  unfolding run_client client_finish pure
  run_client_stalls parties fuel sm can empty some_block small =
      let (started, sm1, named, opened, running) = init-IsRunning eth c (envs 0) parties sm can in
      let id = started.session.session_id in
      let running1 = subst (λ i. IsRunning i 0 sm1) (sym named) running in
      let report = client_report eth c envs id in
      let looped : (run_batches report plan fuel 2 0 no_totals sm1).0 ≡ ok none =
        run_batches_stalls report plan (IsRunning id 0) fuel 2 0 no_totals sm1
          (λ i s h. empty_report-IsRunning id i 0 s can (omega arith) h) empty some_block small
          running1 in
      let q = run_batches report plan fuel 2 0 no_totals sm1 in
      let stuck : q ≡ (ok none, q.1) = ap (λ x. (x, q.1)) looped in
      ap (λ x. x.0)
        (>>=-run (init eth c (envs 0) (init_request parties)) _ sm opened
          (>>=-run (run_batches report plan fuel 2 0 no_totals) _ sm1 stuck refl))
