-- ===== src/Sidecar/Session/History.antt =====
-- What every method of a session keeps, in the order of time.
use substreams_data_service.Common.{ℕ, ◌≡◌, refl, ◌∙◌, none, some, arith}
use substreams_data_service.Common.Int.{pos, ◌≤ℤ◌, +ℤ_parts}
use substreams_data_service.Common.Go.{Ptr}
use substreams_data_service.Common.Action.Keeps.{
  Preorder, Keeps->>=, Keeps->>, Keeps-pure, Keeps-lift, Keeps-gets, Keeps-modify,
}
use substreams_data_service.Horizon.Types.{SignedRav}
use substreams_data_service.Pb.{EndReason}
use substreams_data_service.Sidecar.Pricing.{PricingConfig}
use substreams_data_service.Sidecar.Session.{
  Session, ended, add_usage, set_rav, end_session, set_pricing_config,
}

-- The identity and the parties stay, an ended session stays ended, and the cost does not fall.
pub record Later (s t : Session) : Type 0 where
  pub id : t.id ≡ s.id
  pub payer : t.payer ≡ s.payer
  pub receiver : t.receiver ≡ s.receiver
  pub data_service : t.data_service ≡ s.data_service
  pub over : s.state ≡ ended → t.state ≡ ended
  pub cost : s.total_cost ≤ℤ t.total_cost

pub Later-refl : (s : Session) → Later s s
Later-refl s = record {
  id = refl;
  payer = refl;
  receiver = refl;
  data_service = refl;
  over = λ e. e;
  cost = omega arith;
}

pub Later-trans : (s t u : Session) → Later s t → Later t u → Later s u
Later-trans s t u a b = record {
  id = b.id ∙ a.id;
  payer = b.payer ∙ a.payer;
  receiver = b.receiver ∙ a.receiver;
  data_service = b.data_service ∙ a.data_service;
  over = λ e. b.over (a.over e);
  cost = omega (arith, a.cost, b.cost);
}

pub add_usage-Later :
    (blocks bytes requests cost now : ℕ) (s : Session)
    → Later s (add_usage blocks bytes requests (some (pos cost)) now s)
unfolding add_usage
add_usage-Later blocks bytes requests cost now s = record {
  id = refl;
  payer = refl;
  receiver = refl;
  data_service = refl;
  over = λ e. e;
  cost = omega (arith, +ℤ_parts s.total_cost (pos cost));
}

pub set_rav-Later : (rav : Ptr SignedRav) (now : ℕ) (s : Session) → Later s (set_rav rav now s)
unfolding set_rav
set_rav-Later rav now s = ground arith

pub end_session-Later :
    (reason : EndReason) (now : ℕ) (s : Session) → Later s (end_session reason now s)
unfolding end_session
end_session-Later reason now s = ground arith

pub set_pricing_config-Later :
    (c : Ptr PricingConfig) (s : Session) → Later s (set_pricing_config c s)
unfolding set_pricing_config
set_pricing_config-Later none s = ground arith
set_pricing_config-Later (some c) s = ground arith

pub Later-Preorder : Preorder Later
Later-Preorder = record { rel_refl = Later-refl; rel_trans = Later-trans }

-- The rules by which `search` walks through a `do` block.
pub ruleset history = (
  Keeps->>=, Keeps->>, Keeps-pure, Keeps-lift, Keeps-gets, Keeps-modify, Later-Preorder,
  set_rav-Later, end_session-Later, set_pricing_config-Later,
)
