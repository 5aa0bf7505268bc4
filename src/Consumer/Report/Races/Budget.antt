-- ===== src/Consumer/Report/Races/Budget.antt =====
-- The consumer does not sign for more than it has counted, whatever the order of the turns.
use substreams_data_service.Common.{ℕ, zero, suc, ◌+◌, ◌≡◌, refl, List, [], ◌∷◌, some, arith}
use mathlib.Core.Path.{subst}
use substreams_data_service.Common.Int.{ℤ, ◌+ℤ◌, ◌≤ℤ◌, int_laws}
use substreams_data_service.Common.Go.{Ptr}
use substreams_data_service.Horizon.Types.{message_of}
use substreams_data_service.Horizon.EthGo.{EthGo}
use substreams_data_service.Pb.{PbUsage}
use substreams_data_service.Sidecar.Session.{Session, end_session}
use substreams_data_service.Consumer.State.{ConsumerConfig, Env}
use substreams_data_service.Consumer.Report.Accounts.{value_before}
use substreams_data_service.Consumer.Report.Races.{
  Phase, System, turn, turn_of, call_turn, Step, reports, ends, Reach, here, next, arrivals,
}
use substreams_data_service.Consumer.Report.Races.Owed.{
  owed, owed_by, IsWithin, IsHeld, IsSigned, AreSigned, Grows, IsSigned-Grows, AreSigned-Grows,
}
use substreams_data_service.Consumer.Report.Races.Turns.{turn-IsKept}

module _ (eth : EthGo) (c : ConsumerConfig eth) where
  module _ (w t : ℤ) where
    -- The turn of one call keeps all calls within the total.
    record AreKept (rest n : ℕ) (s : Session) (ps : List Phase) (s' : Session) : Type 0 where
      n' : ℕ
      sum : n' ≡ owed_by ps + rest
      held : IsHeld w t n' s'.total_cost (message_of s'.current_rav)
      kept : AreSigned w t n' s'.total_cost ps
      grows : Grows w t n s.total_cost n' s'.total_cost

    turn_of-AreKept :
        (rest n : ℕ) (env : Env) (i : ℕ) (ps : List Phase) (s : Session)
        → n ≡ owed_by ps + rest
        → IsHeld w t n s.total_cost (message_of s.current_rav)
        → AreSigned w t n s.total_cost ps
        → AreKept rest n s (turn_of eth c env i ps s).0 (turn_of eth c env i ps s).1
    unfolding turn_of owed_by
    turn_of-AreKept rest n env i [] s e h k = record {
      n' = n;
      sum = e;
      held = h;
      kept = tt;
      grows = λ v i. i;
    }
    turn_of-AreKept rest n env zero (p ∷ ps) s e h (k, ks) =
        let others = owed_by ps + rest in
        let m : n ≡ owed p + others = omega (arith, e) in
        let one =
          turn-IsKept eth c w t others env p s
            (subst (λ x. IsHeld w t x s.total_cost (message_of s.current_rav)) m h)
            (subst (λ x. IsSigned w t x s.total_cost p) m k) in
        let p' = (turn eth c env p s).0 in
        let s' = (turn eth c env p s).1 in
        let grows : Grows w t n s.total_cost (owed p' + others) s'.total_cost =
          λ v i. one.grows v (subst (λ x. IsWithin w t x s.total_cost v) m i) in
        record {
          n' = owed p' + others;
          sum = omega arith;
          held = one.held;
          kept = (
            one.kept,
            AreSigned-Grows w t n (owed p' + others) s.total_cost s'.total_cost ps grows ks,
          );
          grows = grows;
        }
    turn_of-AreKept rest n env (suc i) (p ∷ ps) s e h (k, ks) =
        let later = turn_of-AreKept (owed p + rest) n env i ps s (omega (arith, e)) h ks in
        record {
          n' = later.n';
          sum = omega (arith, later.sum);
          held = later.held;
          kept = (
            IsSigned-Grows w t n later.n' s.total_cost (turn_of eth c env i ps s).1.total_cost p
                later.grows k,
            later.kept,
          );
          grows = later.grows;
        }

    record IsBudgeted (sys : System) : Type 0 where
      n : ℕ
      sum : n ≡ owed_by sys.calls
      held : IsHeld w t n sys.session.total_cost (message_of sys.session.current_rav)
      kept : AreSigned w t n sys.session.total_cost sys.calls

    Step-IsBudgeted : {sys u : System} → IsBudgeted sys → Step eth c sys u → IsBudgeted u
    unfolding call_turn end_session
    Step-IsBudgeted {sys} h (reports env i) =
        let r =
          turn_of-AreKept 0 h.n env i sys.calls sys.session (omega (arith, h.sum)) h.held h.kept in
        record { n = r.n'; sum = omega (arith, r.sum); held = r.held; kept = r.kept }
    Step-IsBudgeted h (ends reason now) = record {
      n = h.n;
      sum = h.sum;
      held = h.held;
      kept = h.kept;
    }

    Reach-IsBudgeted : {sys u : System} → IsBudgeted sys → Reach eth c sys u → IsBudgeted u
    Reach-IsBudgeted h here = h
    Reach-IsBudgeted h (next before step) = Step-IsBudgeted (Reach-IsBudgeted h before) step

  arrivals_signed : (w t total : ℤ) (us : List (Ptr PbUsage)) → AreSigned w t 0 total (arrivals us)
  unfolding arrivals
  arrivals_signed w t total [] = tt
  arrivals_signed w t total (u ∷ us) = (tt, arrivals_signed w t total us)

  arrivals_owed : (us : List (Ptr PbUsage)) → 0 ≡ owed_by (arrivals us)
  unfolding arrivals owed_by
  arrivals_owed [] = refl
  arrivals_owed (u ∷ us) = omega (arith, arrivals_owed us)

  -- Whatever the order of the turns of concurrent `ReportUsage` calls, the value of the session's
  -- voucher has grown by at most what the session's total cost has grown by, if it had a value.
  pub Reach-within :
      (s : Session) (usages : List (Ptr PbUsage)) (w : ℤ) {u : System}
      → value_before (message_of s.current_rav) ≡ some w
      → Reach eth c (record { session = s; calls = arrivals usages }) u
      → (v : ℤ) × (value_before (message_of u.session.current_rav) ≡ some v)
        × (v +ℤ s.total_cost ≤ℤ w +ℤ u.session.total_cost)
  Reach-within s usages w h reach =
      let begun : IsBudgeted w s.total_cost (record { session = s; calls = arrivals usages }) =
        record {
          n = 0;
          sum = arrivals_owed usages;
          held = record { v = w; value = h; within = omega int_laws };
          kept = arrivals_signed w s.total_cost s.total_cost usages;
        } in
      let after = Reach-IsBudgeted w s.total_cost begun reach in
      (after.held.v, after.held.value, omega (int_laws, after.held.within))
