-- ===== src/Consumer/Report/Races/Owed.antt =====
-- What the calls on a session have counted and not signed for, and the values within the total.
use substreams_data_service.Common.{ℕ, ◌+◌, ◌≡◌, List, [], ◌∷◌, none, some}
use mathlib.Core.Path.{subst}
use substreams_data_service.Common.Int.{ℤ, pos, ◌+ℤ◌, ◌≤ℤ◌, int_laws}
use substreams_data_service.Common.Digits.{set_bytes}
use substreams_data_service.Common.Go.{Ptr}
use substreams_data_service.Horizon.Types.{Rav, message_of}
use substreams_data_service.Pb.{PbUsage, PbBigInt}
use substreams_data_service.Sidecar.Session.{Session, add_usage}
use substreams_data_service.Sidecar.Usage.Charged.{charged}
use substreams_data_service.Consumer.Report.Accounts.{value_before}
use substreams_data_service.Consumer.Report.Races.{
  Phase, arrived, running, counted, signed, answered, failed, crashed,
}

abbrev pub cost_field : Ptr PbBigInt → ℕ
cost_field none = 0
cost_field (some b) = set_bytes b.bytes

abbrev pub cost_or_zero : Ptr PbUsage → ℕ
cost_or_zero none = 0
cost_or_zero (some u) = cost_field u.cost

-- The cost that a call has counted and not signed for.
abbrev pub owed : Phase → ℕ
owed (counted usage) = cost_or_zero usage
owed (arrived usage) = 0
owed (running usage) = 0
owed (signed rav) = 0
owed (answered response) = 0
owed (failed e) = 0
owed crashed = 0

unfoldable pub owed_by : List Phase → ℕ
owed_by [] = 0
owed_by (p ∷ rest) = owed p + owed_by rest

module _ (w c : ℤ) where
  -- The value `v`, together with `n` that is not signed yet, is within the total `total`, if `w` was
  -- the value when `c` was the total.
  abbrev pub IsWithin : ℕ → ℤ → ℤ → Type 0
  IsWithin n total v = v +ℤ c +ℤ pos n ≤ℤ w +ℤ total

  pub record IsHeld (n : ℕ) (total : ℤ) (message : Ptr Rav) : Type 0 where
    pub v : ℤ
    pub value : value_before message ≡ some v
    pub within : IsWithin n total v

  abbrev pub IsSigned : ℕ → ℤ → Phase → Type 0
  IsSigned n total (signed rav) = IsHeld n total (message_of (some rav))
  IsSigned n total (counted usage) = Unit
  IsSigned n total (arrived usage) = Unit
  IsSigned n total (running usage) = Unit
  IsSigned n total (answered response) = Unit
  IsSigned n total (failed e) = Unit
  IsSigned n total crashed = Unit

  abbrev pub AreSigned : ℕ → ℤ → List Phase → Type 0
  AreSigned n total [] = Unit
  AreSigned n total (p ∷ rest) = IsSigned n total p × AreSigned n total rest

  -- What is within stays so.
  abbrev pub Grows : ℕ → ℤ → ℕ → ℤ → Type 0
  Grows n total n' total' = (v : ℤ) → IsWithin n total v → IsWithin n' total' v

  pub IsHeld-Grows :
      (n n' : ℕ) (total total' : ℤ) (message : Ptr Rav)
      → Grows n total n' total'
      → IsHeld n total message
      → IsHeld n' total' message
  IsHeld-Grows n n' total total' message grows h = record {
    v = h.v;
    value = h.value;
    within = grows h.v h.within;
  }

  pub IsSigned-Grows :
      (n n' : ℕ) (total total' : ℤ) (p : Phase)
      → Grows n total n' total'
      → IsSigned n total p
      → IsSigned n' total' p
  IsSigned-Grows n n' total total' (signed rav) grows h = IsHeld-Grows n n' total total' _ grows h
  IsSigned-Grows n n' total total' (counted usage) grows h = tt
  IsSigned-Grows n n' total total' (arrived usage) grows h = tt
  IsSigned-Grows n n' total total' (running usage) grows h = tt
  IsSigned-Grows n n' total total' (answered response) grows h = tt
  IsSigned-Grows n n' total total' (failed e) grows h = tt
  IsSigned-Grows n n' total total' crashed grows h = tt

  pub AreSigned-Grows :
      (n n' : ℕ) (total total' : ℤ) (ps : List Phase)
      → Grows n total n' total'
      → AreSigned n total ps
      → AreSigned n' total' ps
  AreSigned-Grows n n' total total' [] grows h = tt
  AreSigned-Grows n n' total total' (p ∷ rest) grows (h, k) =
      (IsSigned-Grows n n' total total' p grows h, AreSigned-Grows n n' total total' rest grows k)

  pub record IsKept (rest : ℕ) (p : Phase) (s : Session) (p' : Phase) (s' : Session) : Type 0 where
    pub held : IsHeld (owed p' + rest) s'.total_cost (message_of s'.current_rav)
    pub kept : IsSigned (owed p' + rest) s'.total_cost p'
    pub grows : Grows (owed p + rest) s.total_cost (owed p' + rest) s'.total_cost

  pub IsKept-same :
      (rest : ℕ) (p p' : Phase) (s : Session)
      → owed p ≡ owed p'
      → IsHeld (owed p + rest) s.total_cost (message_of s.current_rav)
      → IsSigned (owed p' + rest) s.total_cost p'
      → IsKept rest p s p' s
  IsKept-same rest p p' s e h k = record {
    held = subst (λ n. IsHeld (n + rest) s.total_cost (message_of s.current_rav)) e h;
    kept = k;
    grows = λ v i. subst (λ n. IsWithin (n + rest) s.total_cost v) e i;
  }

  pub count-IsKept :
      (rest : ℕ) (u : PbUsage) (b : PbBigInt) (now : ℕ) (s : Session)
      → u.cost ≡ some b
      → IsHeld (0 + rest) s.total_cost (message_of s.current_rav)
      → IsKept rest (running (some u)) s (counted (some u)) (charged u b now s)
  unfolding add_usage
  count-IsKept rest u b now s e h =
      let more : Grows (0 + rest) s.total_cost (cost_field u.cost + rest)
          (s.total_cost +ℤ pos (set_bytes b.bytes)) =
        λ v i. rw e (omega int_laws) in
      record {
        held =
            IsHeld-Grows (0 + rest) (cost_field u.cost + rest) s.total_cost
              (s.total_cost +ℤ pos (set_bytes b.bytes)) _ more h;
        kept = tt;
        grows = more;
      }
