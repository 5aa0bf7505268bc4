-- ===== src/Tests/StartRuns.antt =====
-- Tests of the start of the development environment, on a node without accounts.
use substreams_data_service.Common.{
  ℕ, zero, suc, ◌+◌, ◌≡◌, refl, List, [], ◌∷◌, some, none, true, false,
}
use substreams_data_service.Common.Int.{pos}
use substreams_data_service.Common.Go.{ok, err}
use substreams_data_service.Devenv.Transactions.{library}
use substreams_data_service.Devenv.Start.{
  Config, Host, start, configure, default_config, with_chain_id, with_escrow_amount,
}
use substreams_data_service.Devenv.Start.Cleanup.{IsCleaned, start_cleans}
use substreams_data_service.Tests.Samples.{address}
use substreams_data_service.Tests.DevenvRuns.{chain}

-- The node's second answer is an identifier. A termination adds 100 to the world, a cancellation
-- 1000.
abbrev host : Host chain
host = record {
  run_container = λ id w. (ok tt, w);
  mapped_port = λ w. (ok "8545", w);
  terminate = λ w. w + 100;
  cancel = λ w. w + 1000;
  chain_id = λ w. elim w [ zero ↦ ((none, false), 1) | suc v ↦ ((some (pos 1337), true), v + 2) ];
  accounts = λ w. (ok [], w);
  send_funds = λ from to amount w. (ok "0x01", w);
  new_address = λ t. some (address 1);
  new_private_key = λ t. ok 1;
  abi = λ name. ok tt;
  artifact = λ name. ok [];
  fund_order = λ xs. xs;
  mint_order = λ xs. xs;
}

abbrev options : List (Config → Config)
options = with_chain_id 7 ∷ with_escrow_amount (pos 5) ∷ with_chain_id 9 ∷ []

configured : (configure options default_config).chain_id ≡ 9
unfolding configure with_chain_id with_escrow_amount default_config
configured = refl

no_accounts : start host options 0 ≡ (err (library "getting dev accounts"), 1102)
unfolding substreams_data_service.Devenv.Start.start substreams_data_service.Devenv.Start.load_abis
    substreams_data_service.Devenv.Start.must substreams_data_service.Devenv.Start.or_cancel
    substreams_data_service.Devenv.Start.or_cleanup substreams_data_service.Devenv.Start.set_up
    substreams_data_service.Devenv.Start.get_chain_id
    substreams_data_service.Devenv.Start.query_chain_id
    substreams_data_service.Devenv.Start.configure substreams_data_service.Devenv.Transactions.ask
    substreams_data_service.Common.Action.◌>>=◌ substreams_data_service.Common.Action.◌>>◌
    substreams_data_service.Common.Action.pure substreams_data_service.Common.Action.lift
no_accounts = refl

start_cleans_example : IsCleaned host (configure options default_config) 1102
start_cleans_example = start_cleans host options 0 1102 (library "getting dev accounts") no_accounts
