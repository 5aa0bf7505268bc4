-- ===== src/Consumer/Report/Races/Turns.antt =====
-- One turn keeps the values within the total.
use substreams_data_service.Common.{
  ℕ, ◌+◌, ◌≡◌, refl, sym, ap, ◌∙◌, [], none, some, inl, inr, Bool-cases, Option-cases, arith,
}
use mathlib.Core.Path.{subst}
use substreams_data_service.Common.Int.{ℤ, pos, ◌+ℤ◌, int_laws}
use substreams_data_service.Common.Digits.{set_bytes}
use substreams_data_service.Common.Go.{Ptr, ok, panic, Go-cases, >>=-eq-ok}
use substreams_data_service.Common.Action
use substreams_data_service.Common.Action.{pure, lift}
use substreams_data_service.Horizon.Types.{Rav, SignedRav, message_of}
use substreams_data_service.Horizon.EthGo.{EthGo}
use substreams_data_service.Horizon.Eip712.{rav_encodable}
use substreams_data_service.Horizon.SignedMessage.Recovery.{sign-message}
use substreams_data_service.Pb.{to_native, PbUsage}
use substreams_data_service.Sidecar.Session.{Session, is_active, set_rav}
use substreams_data_service.Sidecar.Usage.{apply_usage}
use substreams_data_service.Sidecar.Usage.Charged.{apply_usage-charged}
use substreams_data_service.Consumer.State.{ConsumerConfig, ConnectError, Env, collection_or_zero}
use substreams_data_service.Consumer.State.Issued.{sign_rav-sign}
use substreams_data_service.Consumer.Report.{new_value, cost_of}
use substreams_data_service.Consumer.Report.Accounts.{value_before, no_value, new_value-sum}
use substreams_data_service.Consumer.Report.Races.{
  Phase, arrived, running, counted, signed, answered, failed, crashed, sign_next, response_with,
  turn,
}
use substreams_data_service.Consumer.Report.Races.Owed.{
  cost_field, cost_or_zero, owed, IsWithin, IsHeld, IsSigned, Grows, IsHeld-Grows, IsKept,
  IsKept-same, count-IsKept,
}

pub apply_none : (now : ℕ) (s : Session) → apply_usage {E = ConnectError} none now s ≡ (ok tt, s)
unfolding apply_usage pure
apply_none now s = refl

pub apply_missing :
    (u : PbUsage) (now : ℕ) (s : Session)
    → u.cost ≡ none
    → apply_usage {E = ConnectError} (some u) now s ≡ (panic, s)
unfolding apply_usage to_native Action.◌>>=◌ lift
apply_missing u now s e = rw e refl

cost_missing :
    (message : Ptr Rav) (u : PbUsage)
    → u.cost ≡ none
    → new_value {E = ConnectError} message (some u) ≡ panic
unfolding new_value cost_of to_native
cost_missing none u e = rw e refl
cost_missing (some m) u e = rw e refl

new_value_inv :
    (message : Ptr Rav) (usage : Ptr PbUsage) {v z : ℤ}
    → value_before message ≡ some v
    → new_value {E = ConnectError} message usage ≡ ok z
    → z ≡ v +ℤ pos (cost_or_zero usage)
new_value_inv message none h e = let bad = no_value {E = ConnectError} message in cc
new_value_inv message (some u) {v} {z} h e = elim (Option-cases u.cost) [
  | inl f ↦ let bad = cost_missing message u f in cc
  | inr (b, f) ↦
      let sum = new_value-sum {E = ConnectError} message u b v h f in
      let same : z ≡ v +ℤ pos (set_bytes b.bytes) = ground arith in
      same ∙ ap (λ p. v +ℤ pos (cost_field p)) (sym f)
]

module _ (eth : EthGo) (c : ConsumerConfig eth) where
  -- What `GetRAV` and the signature come to: the value before plus the cost.
  sign_next_value :
      (env : Env) (usage : Ptr PbUsage) (s : Session) {rav : SignedRav} {v : ℤ}
      → value_before (message_of s.current_rav) ≡ some v
      → sign_next eth c env usage s ≡ ok rav
      → value_before (message_of (some rav)) ≡ some (v +ℤ pos (cost_or_zero usage))
  unfolding sign_next
  sign_next_value env usage s {rav} {v} h e =
      let (z, valued, e₁) = >>=-eq-ok (new_value (message_of s.current_rav) usage) _ e in
      let signed =
        sign_rav-sign eth c (collection_or_zero (message_of s.current_rav)) s.payer s.data_service
          s.receiver env.unix_nano (some z) [] e₁ in
      let here = sign-message eth (rav_encodable eth) c.domain _ c.signer_key signed in
      ap value_before here ∙ ap some (new_value_inv (message_of s.current_rav) usage h valued)

  module _ (w t : ℤ) where
    sign-IsKept :
        (rest : ℕ) (env : Env) (usage : Ptr PbUsage) (s : Session) (rav : SignedRav)
        → IsHeld w t (owed (counted usage) + rest) s.total_cost (message_of s.current_rav)
        → sign_next eth c env usage s ≡ ok rav
        → IsKept w t rest (counted usage) s (signed rav) s
    sign-IsKept rest env usage s rav h e =
        let less : Grows w t (cost_or_zero usage + rest) s.total_cost (0 + rest) s.total_cost =
          λ v i. omega int_laws in
        record {
          held =
              IsHeld-Grows w t (cost_or_zero usage + rest) (0 + rest) s.total_cost s.total_cost _
                less h;
          kept = record {
            v = h.v +ℤ pos (cost_or_zero usage);
            value = sign_next_value env usage s h.value e;
            within = omega (int_laws, h.within);
          };
          grows = less;
        }

    -- A call that ends without a voucher owes nothing any more.
    dropped :
        (rest : ℕ) (usage : Ptr PbUsage) (p : Phase) (s : Session)
        → owed p ≡ 0
        → IsSigned w t (owed p + rest) s.total_cost p
        → IsHeld w t (owed (counted usage) + rest) s.total_cost (message_of s.current_rav)
        → IsKept w t rest (counted usage) s p s
    dropped rest usage p s e k h =
        let less : Grows w t (cost_or_zero usage + rest) s.total_cost (owed p + rest) s.total_cost =
          λ v i. omega (int_laws, e) in
        record {
          held =
              IsHeld-Grows w t (cost_or_zero usage + rest) (owed p + rest) s.total_cost s.total_cost
                _ less h;
          kept = k;
          grows = less;
        }

    stored :
        (rest : ℕ) (rav : SignedRav) (now : ℕ) (p : Phase) (s : Session)
        → owed p ≡ 0
        → IsSigned w t (owed p + rest) s.total_cost p
        → IsHeld w t (0 + rest) s.total_cost (message_of (some rav))
        → IsKept w t rest (signed rav) s p (set_rav (some rav) now s)
    unfolding set_rav
    stored rest rav now p s e k h = record {
      held = subst (λ n. IsHeld w t (n + rest) s.total_cost (message_of (some rav))) (sym e) h;
      kept = k;
      grows = λ v i. subst (λ n. IsWithin w t (n + rest) s.total_cost v) (sym e) i;
    }

    pub turn-IsKept :
        (rest : ℕ) (env : Env) (p : Phase) (s : Session)
        → IsHeld w t (owed p + rest) s.total_cost (message_of s.current_rav)
        → IsSigned w t (owed p + rest) s.total_cost p
        → IsKept w t rest p s (turn eth c env p s).0 (turn eth c env p s).1
    unfolding turn set_rav
    turn-IsKept rest env (arrived usage) s h k = elim (Bool-cases (is_active s)) [
      | inl on ↦ rw on (IsKept-same w t rest (arrived usage) (running usage) s refl h tt)
      | inr off ↦ rw off (IsKept-same w t rest (arrived usage) (failed _) s refl h tt)
    ]
    turn-IsKept rest env (running none) s h k =
        let none_given : apply_usage {E = ConnectError} none env.now s ≡ (ok tt, s) =
          apply_none env.now s in
        rw none_given (IsKept-same w t rest (running none) (counted none) s refl h tt)
    turn-IsKept rest env (running (some u)) s h k = elim (Option-cases u.cost) [
      | inl e ↦
          rw (apply_missing u env.now s e)
            (IsKept-same w t rest (running (some u)) crashed s refl h tt)
      | inr (b, e) ↦
          rw (apply_usage-charged {E = ConnectError} u b env.now s e)
            (count-IsKept w t rest u b env.now s e h)
    ]
    turn-IsKept rest env (counted usage) s h k = elim (Go-cases (sign_next eth c env usage s)) [
      | inl (rav, e) ↦ rw e (sign-IsKept rest env usage s rav h e)
      | inr (inl (x, e)) ↦ rw e (dropped rest usage (failed x) s refl tt h)
      | inr (inr e) ↦ rw e (dropped rest usage crashed s refl tt h)
    ]
    turn-IsKept rest env (signed rav) s h k = elim (Go-cases (response_with eth c rav)) [
      | inl (response, e) ↦ rw e (stored rest rav env.now (answered response) s refl tt k)
      | inr (inl (x, e)) ↦ rw e (stored rest rav env.now (failed x) s refl tt k)
      | inr (inr e) ↦ rw e (stored rest rav env.now crashed s refl tt k)
    ]
    turn-IsKept rest env (answered response) s h k =
        IsKept-same w t rest (answered response) (answered response) s refl h tt
    turn-IsKept rest env (failed e) s h k = IsKept-same w t rest (failed e) (failed e) s refl h tt
    turn-IsKept rest env crashed s h k = IsKept-same w t rest crashed crashed s refl h tt
