-- ===== src/Sidecar/Session.antt =====
-- sidecar/session.go: a payment session. The mutex is left out: a method is one step on the record.
-- `TotalCost` is never nil: `NewSession` sets it, and `AddUsage` replaces it by a sum.
pub mod History
pub mod Info
use substreams_data_service.Common.{ℕ, ◌+◌, ◌%◌, ◌^◌, none, some, Option, Bool, true, false, String}
use substreams_data_service.Common.Int.{ℤ, pos, ◌+ℤ◌, ◌*ℤ◌, int64}
use substreams_data_service.Common.Go.{Ptr, Go, ok, deref, ◌>>=◌}
use substreams_data_service.Horizon.Types.{Address, SignedRav}
use substreams_data_service.Pb.{
  EndReason, unspecified, PbUsage, PbSessionInfo, big_int_from_native, address_from_eth,
}
use substreams_data_service.Sidecar.Convert.{horizon_signed_rav_to_proto}
use substreams_data_service.Sidecar.Pricing.{PricingConfig, Price, calculate_usage_cost, wei}

pub data SessionState : Type 0 where
  active paused ended : SessionState

pub record Session : Type 0 where
  pub id : String
  pub state : SessionState
  pub created_at : ℕ
  pub updated_at : ℕ
  pub ended_at : Ptr ℕ
  pub end_reason : EndReason
  pub payer : Address
  pub receiver : Address
  pub data_service : Address
  pub current_rav : Ptr SignedRav
  pub blocks_processed : ℕ
  pub bytes_transferred : ℕ
  pub requests : ℕ
  pub total_cost : ℤ
  pub price_per_block : Ptr ℤ
  pub price_per_byte : Ptr ℤ
  pub pricing_config : Ptr PricingConfig

-- The identifier of `uuid.New()` and the time of `time.Now()` are arguments.
unfoldable pub new_session : String → ℕ → Address → Address → Address → Session
new_session id now payer receiver data_service = record {
  id = id;
  state = active;
  created_at = now;
  updated_at = now;
  ended_at = none;
  end_reason = unspecified;
  payer = payer;
  receiver = receiver;
  data_service = data_service;
  current_rav = none;
  blocks_processed = 0;
  bytes_transferred = 0;
  requests = 0;
  total_cost = pos 0;
  price_per_block = some (pos 0);
  price_per_byte = none;
  pricing_config = none;
}

-- `+=` on a `uint64`.
abbrev pub add_uint64 : ℕ → ℕ → ℕ
add_uint64 a b = (a + b) % 2 ^ 64

abbrev pub add_cost_to : ℤ → Ptr ℤ → ℤ
add_cost_to total none = total
add_cost_to total (some cost) = total +ℤ cost

unfoldable pub add_usage : ℕ → ℕ → ℕ → Ptr ℤ → ℕ → Session → Session
add_usage blocks bytes requests cost now s = record s {
  blocks_processed = add_uint64 s.blocks_processed blocks;
  bytes_transferred = add_uint64 s.bytes_transferred bytes;
  requests = add_uint64 s.requests requests;
  total_cost = add_cost_to s.total_cost cost;
  updated_at = now;
}

unfoldable pub get_usage : {E : Type 0} → Session → Go E PbUsage
get_usage s = do
  cost ← big_int_from_native (some s.total_cost)
  ok (record {
    blocks_processed = s.blocks_processed;
    bytes_transferred = s.bytes_transferred;
    requests = s.requests;
    cost = some cost;
  })

unfoldable pub set_rav : Ptr SignedRav → ℕ → Session → Session
set_rav rav now s = record s { current_rav = rav; updated_at = now }

-- `(*Session).End`
unfoldable pub end_session : EndReason → ℕ → Session → Session
end_session reason now s = record s {
  state = ended;
  ended_at = some now;
  end_reason = reason;
  updated_at = now;
}

abbrev pub is_active_state : SessionState → Bool
is_active_state active = true
is_active_state paused = false
is_active_state ended = false

unfoldable pub is_active : Session → Bool
is_active s = is_active_state s.state

abbrev pub price_or : Ptr ℤ → Ptr ℤ → Ptr ℤ
price_or old none = old
price_or old (some w) = some w

-- The price of the config in wei, if the config has one.
abbrev pub configured : Ptr Price → Ptr ℤ
configured none = none
configured (some p) = some (wei (some p))

unfoldable pub set_pricing_config : Ptr PricingConfig → Session → Session
set_pricing_config none s = record s { pricing_config = none }
set_pricing_config (some c) s = record s {
  pricing_config = some c;
  price_per_block = price_or s.price_per_block (configured c.price_per_block);
  price_per_byte = price_or s.price_per_byte (configured c.price_per_byte);
}

abbrev pub add_priced : ℤ → Ptr ℤ → ℕ → ℤ
add_priced total none quantity = total
add_priced total (some price) quantity = total +ℤ (price *ℤ int64 quantity)

-- `(*Session).CalculateUsageCost`: by the pricing config, or by the two prices.
unfoldable pub usage_cost : Session → ℕ → ℕ → ℤ
usage_cost s blocks_processed bytes_transferred = elim s.pricing_config [
  | some c ↦ calculate_usage_cost c blocks_processed bytes_transferred
  | none ↦
      add_priced (add_priced (pos 0) s.price_per_block blocks_processed) s.price_per_byte
        bytes_transferred
]

-- The second read lock of `GetUsage` inside `ToSessionInfo` is not modelled.
unfoldable pub to_session_info : {E : Type 0} → Session → Go E PbSessionInfo
unfolding get_usage
to_session_info s = do
  current_rav ← horizon_signed_rav_to_proto s.current_rav
  accumulated_usage ← get_usage s
  ok (record {
    session_id = s.id;
    escrow_account = record {
      payer = some (address_from_eth s.payer);
      receiver = some (address_from_eth s.receiver);
      data_service = some (address_from_eth s.data_service);
    };
    current_rav = current_rav;
    accumulated_usage = accumulated_usage;
  })
