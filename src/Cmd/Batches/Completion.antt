-- ===== src/Cmd/Batches/Completion.antt =====
-- When the loop ends, and what it has reported then.
use substreams_data_service.Common.{
  ℕ, zero, suc, ◌+◌, ◌-◌, ◌*◌, ◌%◌, ◌^◌, ◌<◌, ◌≤◌, ◌≡◌, refl, sym, ap, ◌∙◌, none, some, Bool, true,
  false, ltb, Bool-cases, inl, inr, arith,
}
use mathlib.Core.Path.{subst}
use substreams_data_service.Common.Int.{pos, ◌*ℤ◌, int64, int_laws}
use substreams_data_service.Common.Go.{Ptr, Go, ok}
use substreams_data_service.Common.Action.{Action, pure}
use substreams_data_service.Common.Action.Runs.{>>=-run}
use substreams_data_service.Pb.{PbUsage}
use substreams_data_service.Cmd.Batches.{
  Plan, Totals, current_batch, batch_cost, usage_of, add_batch, run_batches,
}

-- The cost of a batch that fits an `int64`, at a price that is not negative.
pub batch_cost-pos :
    (p : Plan) (price batch : ℕ)
    → p.price_wei ≡ pos price
    → batch < 2 ^ 63
    → batch_cost p batch ≡ pos (price * batch)
unfolding batch_cost ◌*ℤ◌
batch_cost-pos p price batch e h =
    let s : int64 batch ≡ pos batch = ground arith in rw (e, s) (ground arith)

-- What is left of the blocks bounds a batch, and what is left after it.
batch_fits :
    (p : Plan) (done : ℕ)
    → done < p.blocks_to_simulate
    → p.blocks_to_simulate + p.batch_size ≤ 2 ^ 64
    → (done + current_batch p done ≤ p.blocks_to_simulate)
      × (p.blocks_to_simulate - (done + p.batch_size) % 2 ^ 64
          ≡ p.blocks_to_simulate - (done + current_batch p done))
unfolding current_batch
batch_fits p done h k = ground arith

batch_pos :
    (p : Plan) (done : ℕ)
    → done < p.blocks_to_simulate
    → 0 < p.batch_size
    → 0 < current_batch p done
unfolding current_batch
batch_pos p done h k = ground arith

no_batch :
    (p : Plan) (done : ℕ)
    → p.batch_size ≡ 0
    → done < p.blocks_to_simulate
    → p.blocks_to_simulate < 2 ^ 64
    → current_batch p done ≡ 0
unfolding current_batch
no_batch p done e h k = ground arith

-- The part of the batches that has been reported: `r` blocks, with these totals.
pub record IsReported (p : Plan) (price r done : ℕ) (totals : Totals) : Type 0 where
  pub below : r ≤ p.blocks_to_simulate
  pub left : p.blocks_to_simulate - done ≡ p.blocks_to_simulate - r
  pub blocks : totals.blocks ≡ r
  pub cost : totals.cost ≡ pos (price * r)

IsReported-step :
    (p : Plan) (price r done : ℕ) (t : Totals)
    → p.price_wei ≡ pos price
    → p.blocks_to_simulate < 2 ^ 63
    → p.blocks_to_simulate + p.batch_size ≤ 2 ^ 64
    → done < p.blocks_to_simulate
    → IsReported p price r done t
    → IsReported p price
        (r + current_batch p done)
        ((done + p.batch_size) % 2 ^ 64)
        (add_batch p (current_batch p done) t)
unfolding add_batch
IsReported-step p price r done t e small fits more h =
    let (sum, rest) = batch_fits p done more fits in
    let here : r ≡ done = omega (arith, h.left, h.below) in
    let cost = batch_cost-pos p price (current_batch p done) e (omega arith) in
    record {
      below = omega arith;
      left = omega arith;
      blocks = omega (arith, h.blocks);
      cost = rw (h.cost, cost) (omega (int_laws));
    }

module _ {S E : Type 0} (report : ℕ → PbUsage → Action S E Bool) (p : Plan) where
  run_over :
      (fuel i done : ℕ) (totals : Totals) (s : S)
      → ltb done p.blocks_to_simulate ≡ false
      → run_batches report p (suc fuel) i done totals s ≡ (ok (some totals), s)
  unfolding run_batches pure
  run_over fuel i done totals s h = rw (run_batches, h) refl

  run_more :
      (fuel i done : ℕ) (totals : Totals) (s : S) {s' : S}
      → ltb done p.blocks_to_simulate ≡ true
      → report i (usage_of p (current_batch p done)) s ≡ (ok true, s')
      → run_batches report p (suc fuel) i done totals s
        ≡ run_batches report p fuel
            (i + 1)
            ((done + p.batch_size) % 2 ^ 64)
            (add_batch p (current_batch p done) totals)
            s'
  unfolding run_batches
  run_more fuel i done totals s h e =
      rw (run_batches, h) (>>=-run (report i (usage_of p (current_batch p done))) _ s e refl)

module _ {S E : Type 0} (report : ℕ → PbUsage → Action S E Bool) (p : Plan) (price : ℕ)
    (P : S → ℕ → Type 0) where
  -- Every report of a batch is answered, and `P` follows the number of the blocks.
  abbrev pub Answers : Type 0
  Answers =
      (i batch r : ℕ) (s : S)
      → P s r
      → r + batch ≤ p.blocks_to_simulate
      → (s' : S) × (report i (usage_of p batch) s ≡ (ok true, s')) × P s' (r + batch)

  -- Where the loop ends: all blocks are reported, and `P` holds of them.
  abbrev pub Completes : Go E (Ptr Totals) × S → Type 0
  Completes result =
      (totals : Totals) × (s' : S) × (result ≡ (ok (some totals), s'))
      × (totals.blocks ≡ p.blocks_to_simulate)
      × (totals.cost ≡ pos (price * p.blocks_to_simulate))
      × P s' p.blocks_to_simulate

  -- If every report of a batch is answered with leave to continue, the loop ends with all blocks
  -- reported and their price as the total cost: the fuel suffices if it exceeds the blocks that
  -- are left, the price is not negative, the batches are not empty and the numbers fit.
  pub run_batches-Completes :
      (fuel i r done : ℕ) (totals : Totals) (s : S)
      → Answers
      → p.price_wei ≡ pos price
      → p.blocks_to_simulate < 2 ^ 63
      → 0 < p.batch_size
      → p.blocks_to_simulate + p.batch_size ≤ 2 ^ 64
      → p.blocks_to_simulate < r + fuel
      → IsReported p price r done totals
      → P s r
      → Completes (run_batches report p fuel i done totals s)
  run_batches-Completes zero i r done totals s answers e small pos_batch fits enough h k =
      absurd (omega (arith, h.below))
  run_batches-Completes (suc fuel) i r done totals s answers e small pos_batch fits enough h k =
      elim (Bool-cases (ltb done p.blocks_to_simulate)) [
        | inr over ↦
            let all : r ≡ p.blocks_to_simulate = ground (arith, h.left, h.below) in
            (
              totals,
              s,
              run_over report p fuel i done totals s over,
              h.blocks ∙ all,
              h.cost ∙ ap (λ x. pos (price * x)) all,
              rw⁻¹ all k,
            )
        | inl more ↦
            let left : done < p.blocks_to_simulate = ground arith in
            let (sum, rest) = batch_fits p done left fits in
            let here : r ≡ done = omega (arith, h.left, h.below) in
            let (s', answered, k') = answers i (current_batch p done) r s k (omega arith) in
            let again =
              run_batches-Completes fuel (i + 1) (r + current_batch p done)
                ((done + p.batch_size) % 2 ^ 64) (add_batch p (current_batch p done) totals) s'
                answers e small pos_batch fits (omega (arith, batch_pos p done left pos_batch))
                (IsReported-step p price r done totals e small fits left h) k' in
            subst Completes (sym (run_more report p fuel i done totals s more answered)) again
      ]

-- With a batch of no blocks the loop never ends: no fuel suffices, as long as the reports are
-- answered.
pub run_batches_stalls :
    {S E : Type 0} (report : ℕ → PbUsage → Action S E Bool) (p : Plan) (P : S → Type 0)
    (fuel i r : ℕ) (totals : Totals) (s : S)
    → ((i : ℕ) (s : S) → P s → (s' : S) × (report i (usage_of p 0) s ≡ (ok true, s')) × P s')
    → p.batch_size ≡ 0
    → r < p.blocks_to_simulate
    → p.blocks_to_simulate < 2 ^ 64
    → P s
    → (run_batches report p fuel i r totals s).0 ≡ ok none
unfolding run_batches pure
run_batches_stalls report p P zero i r totals s answers empty h small k = refl
run_batches_stalls report p P (suc fuel) i r totals s answers empty h small k =
    let batch : current_batch p r ≡ 0 = no_batch p r empty h small in
    let same : (r + p.batch_size) % 2 ^ 64 ≡ r = omega arith in
    let (s', answered, k') = answers i s k in
    let reported : report i (usage_of p (current_batch p r)) s ≡ (ok true, s') =
      rw batch answered in
    ap (λ x. x.0) (run_more report p fuel i r totals s (ground arith) reported)
    ∙ rw same (
        run_batches_stalls report p P fuel (i + 1) r (add_batch p (current_batch p r) totals) s'
          answers empty h small k')
