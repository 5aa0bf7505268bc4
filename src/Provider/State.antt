-- ===== src/Provider/State.antt =====
-- provider/sidecar/sidecar.go: the state of the provider's sidecar. Of the fields, the handlers
-- change the session manager and `AddAcceptedSigner` the accepted signers.
use substreams_data_service.Common.{ℕ, List, [], ◌∷◌, none, some, Bool, true, false, Bytes, String}
use mathlib.Core.Option.{get_or}
use substreams_data_service.Common.Int.{ℤ}
use substreams_data_service.Common.Dict.{Dict, lookup, insert}
use substreams_data_service.Common.Go.{Ptr, Go, ok, ◌>>=◌}
use substreams_data_service.Horizon.Types.{Address, SignedRav, Error}
use substreams_data_service.Horizon.EthGo.{EthGo}
use substreams_data_service.Horizon.Eip712.{Domain, rav_encodable}
use substreams_data_service.Horizon.SignedMessage.{recover_signer}
use substreams_data_service.Sidecar.Pricing.{PricingConfig, default_pricing_config}
use substreams_data_service.Sidecar.Manager.{SessionManager, new_session_manager}
use substreams_data_service.Sidecar.Escrow.{EscrowQuerier, QueryError, get_balance}

pub record ProviderSidecar : Type 0 where
  pub sessions : SessionManager
  pub service_provider : Address
  pub domain : Domain
  pub collector_addr : Address
  pub escrow_addr : Ptr Address
  pub escrow_querier : Ptr EscrowQuerier
  pub pricing_config : PricingConfig
  pub accepted_signers : Dict Bool

pub record Config : Type 0 where
  pub service_provider : Address
  pub domain : Domain
  pub collector_addr : Address
  pub escrow_addr : Ptr Address
  pub rpc_endpoint : Bytes
  pub pricing_config : Ptr PricingConfig
  pub accepted_signers : List Address

-- What a handler reads of its surroundings: the clock, and the identifier of a new session.
pub record Env : Type 0 where
  pub now : ℕ
  pub fresh_id : String

-- A querier needs an endpoint and an escrow address; `new_querier` is `NewEscrowQuerier`.
unfoldable pub querier_of :
    (Bytes → Address → EscrowQuerier) → Bytes → Ptr Address → Ptr EscrowQuerier
querier_of new_querier [] escrow_addr = none
querier_of new_querier (c ∷ endpoint) none = none
querier_of new_querier (c ∷ endpoint) (some a) = some (new_querier (c ∷ endpoint) a)

module _ (eth : EthGo) where
  open eth use {pretty}

  unfoldable pub signer_map : List Address → Dict Bool → Dict Bool
  signer_map [] m = m
  signer_map (a ∷ rest) m = signer_map rest (insert (pretty a) true m)

  unfoldable pub new_provider : (Bytes → Address → EscrowQuerier) → Config → ProviderSidecar
  unfolding querier_of signer_map
  new_provider new_querier c = record {
    sessions = new_session_manager;
    service_provider = c.service_provider;
    domain = c.domain;
    collector_addr = c.collector_addr;
    escrow_addr = c.escrow_addr;
    escrow_querier = querier_of new_querier c.rpc_endpoint c.escrow_addr;
    pricing_config = get_or c.pricing_config default_pricing_config;
    accepted_signers = signer_map c.accepted_signers [];
  }

  unfoldable pub add_accepted_signer : Address → ProviderSidecar → ProviderSidecar
  add_accepted_signer a sc = record sc {
    accepted_signers = insert (pretty a) true sc.accepted_signers;
  }

  unfoldable pub is_accepted_signer : ProviderSidecar → Address → Bool
  is_accepted_signer sc a = get_or (lookup (pretty a) sc.accepted_signers) false

  unfoldable pub verify_rav_signature : ProviderSidecar → SignedRav → Go Error Address
  verify_rav_signature sc rav = recover_signer eth (rav_encodable eth) rav sc.domain

-- `nil, nil` where no RPC is configured.
unfoldable pub get_escrow_balance : ProviderSidecar → Address → Go QueryError (Ptr ℤ)
get_escrow_balance sc payer = elim sc.escrow_querier [
  | none ↦ ok none
  | some q ↦ do
    balance ← get_balance q payer sc.collector_addr sc.service_provider
    ok (some balance)
]

-- A handler changes the sessions and nothing else.
abbrev pub with_sessions :
    {E A : Type 0}
    → (SessionManager → Go E A × SessionManager)
    → ProviderSidecar
    → Go E A × ProviderSidecar
with_sessions f sc = let (r, sm) = f sc.sessions in (r, record sc { sessions = sm })
