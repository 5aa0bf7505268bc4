-- ===== src/Devenv/Chain.antt =====
-- What horizon/devenv takes from the library eth-go and from the chain behind its RPC client: a
-- parameter, whose state is the world. A call answers with a result or with the text of an error.
use substreams_data_service.Common.{ℕ, List, Bytes, String}
use substreams_data_service.Common.Int.{ℤ}
use substreams_data_service.Common.Go.{Ptr, Go}
use substreams_data_service.Common.Action.{Action}
use substreams_data_service.Horizon.Types.{Address}
use substreams_data_service.Horizon.EthGo.{EthGo}

-- The fields of a receipt that the code reads.
pub record Receipt : Type 0 where
  pub status : Ptr ℕ
  pub contract_address : Ptr Address

-- An argument of a contract's method.
pub data Arg : Type 0 where
  address : Address → Arg
  number : ℤ → Arg
  bytes : Bytes → Arg
  text : String → Arg

-- What a waiting call sees before its timer fires: a tick of its ticker, or the end of its context.
pub data Event : Type 0 where
  tick cancelled : Event

pub record Chain (eth : EthGo) : Type 1 where
  pub World : Type 0
  pub Abi : Type 0
  pub Method : Type 0
  pub TxSigner : Type 0
  -- `Nonce`, `GasPrice`, `SendRawTransaction`, `TransactionReceipt` and `Call` of the client
  pub nonce : Address → Action World String ℕ
  pub gas_price : Action World String ℤ
  pub send_raw_transaction : Bytes → Action World String String
  pub transaction_receipt : Bytes → Action World String (Ptr Receipt)
  pub call : Address → Bytes → Action World String Bytes
  -- the events of a wait that starts in this world
  pub events : World → List Event
  -- `eth.MustNewHash`, which panics on other text
  pub new_hash : String → Ptr Bytes
  -- `native.NewPrivateKeySigner` and its `SignTransaction`: nonce, target, value, gas limit, gas
  -- price and data
  pub new_signer : ℤ → eth.PrivateKey → Go String TxSigner
  pub sign_transaction : TxSigner → ℕ → Ptr Address → ℤ → ℕ → ℤ → Bytes → Go String Bytes
  -- `FindFunctionByName`, `FindConstructor`, and `NewCall(…).Encode()`
  pub find_function : Abi → String → Ptr Method
  pub find_constructor : Abi → Ptr Method
  pub encode : Method → List Arg → Go String Bytes
