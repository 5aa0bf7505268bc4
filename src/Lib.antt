-- ===== src/Lib.antt =====
-- A model of the Substreams data service: the receipts and vouchers of the Graph's Horizon payments,
-- and the two sidecars that keep payment sessions and exchange vouchers.
--
-- The parts. A consumer signs vouchers (RAVs) of growing value, each for all usage so far; a
-- provider checks and stores them. The package horizon has the vouchers, their EIP-712 signatures
-- and an aggregator that turns signed receipts into a voucher. The package sidecar has the
-- sessions, the prices, the conversions from and to the protocol's messages and the query of the
-- escrow balance. provider/sidecar and consumer/sidecar have the handlers, which look up a session,
-- change it and answer. cmd/sds has a client that drives each sidecar, and horizon/devenv the
-- helpers that deploy and set up the payment contracts on a development chain.
--
-- The files.
--   Common: lists, integers over the native numbers, digits, maps, and how a Go call ends (`Go`): with a
--     result, an error or a panic. An `Action` is such a call on a mutable object, which keeps what
--     was written before an error or a panic. A nil pointer is `none`.
--   Horizon.Types: horizon/types.go. Horizon.Eip712: horizon/eip712.go. Horizon.Signature:
--     horizon/signature.go, whose result Horizon.Signature.Canonical describes. Horizon.SignedMessage: horizon/signed_message.go, `Sign` and
--     `RecoverSigner`. Horizon.Checks, Horizon.Totals, Horizon.Aggregator: horizon/aggregator.go, the
--     checks, the loop of `aggregate`, and `AggregateReceipts`. Horizon.EthGo: what is used of the
--     library eth-go, as a parameter.
--   Pb: pb/graph/substreams/data_service/common/v1. The Go types of 64-bit fields are numbers that the
--     methods keep below 2^64 by wrapping around.
--   Sidecar.Convert, Sidecar.Escrow, Sidecar.Pricing (with Sidecar.Decimal for the text of numbers),
--     Sidecar.Session, Sidecar.Manager: the files of sidecar. Sidecar.Usage: the lines on usage that
--     four handlers share.
--   Provider.State: provider/sidecar/sidecar.go. Provider.Validate, Provider.Report,
--     Provider.Finish, Provider.Status, Provider.Start, Provider.Submit, Provider.Stream: its handlers
--     `ValidatePayment`, `ReportUsage`, `EndSession`, `GetSessionStatus`, `StartSession`, `SubmitRAV`
--     and `PaymentSession`. Provider.Signers: the steps on signatures that they share. Provider.Steps:
--     sequences of calls, one at a time, as a step relation.
--   Consumer.State: consumer/sidecar/sidecar.go. Consumer.Init, Consumer.Report, Consumer.Finish: its
--     handlers `Init`, `ReportUsage` and `EndSession`.
--   Provider.Submit.Races and Consumer.Report.Races: calls of `SubmitRAV` and of `ReportUsage` on one
--     session at the same time, as a step relation whose steps are what a call does between two
--     acquisitions of the session's lock.
--   Cmd.Batches, Cmd.ConsumerClient, Cmd.ProviderClient: cmd/sds/consumer_fake_client.go and
--     provider_fake_operator.go, from the parsed flags on, each against the handlers of its sidecar.
--   Devenv.SignerProof, Devenv.Transactions, Devenv.Operations, Devenv.Contracts, Devenv.Deploy,
--     Devenv.Start: authorization.go, helpers.go, contracts.go, and of devenv.go `deployAllContracts`
--     and, with options.go and accounts.go, `start`, all in horizon/devenv. Devenv.Chain: what they
--     use of eth-go's RPC client, transaction signer and ABI, and the chain itself, as a parameter.
--     Devenv.Deploy.Registry takes the behaviour of the contract `MockController` (in
--     horizon/devenv/build/contracts/TestMocks.sol) as a hypothesis on the chain.
--   EndToEnd: a voucher on its way from the consumer to the provider. Tests: runs on concrete data, with a
--     toy in place of eth-go.
--
-- Bounds and fuel. Loops are structural recursion on the list that they walk. The digits of a number
-- are taken with fuel equal to the number, of which each digit uses one, and the number at least
-- halves with it. The loop over the batches in cmd/sds runs on fuel, of which each batch uses one; fuel
-- above the number of blocks is enough if a batch is not empty. The wait for a receipt is recursion on
-- the events that it sees before its timer fires; the query of the chain's identifier has the 20
-- attempts of the code as fuel.
--
-- Not modelled: the mutexes, but for the two handlers whose turns are interleaved; logs; the HTTP servers
-- and the generated bindings; of the command line, the flags and the conversion of a price from text
-- by `big.Float`; reading and decoding YAML, which is a parameter; the RPC client, a parameter;
-- keccak256 and the signatures of eth-go, parameters; of horizon/devenv, the global instance, the
-- reporter and the printed summary, and the container, the node's own methods and the embedded
-- artifacts, which are parameters; white space outside ASCII in prices. The clock is
-- read once in a call. An element of a list of receipts is not nil. The texts of errors and
-- reasons are constructors, without the names that formatting inserts.
pub mod Common
pub mod Horizon
pub mod Pb
pub mod Sidecar
pub mod Provider
pub mod Consumer
pub mod Cmd
pub mod Devenv
pub mod EndToEnd
pub mod Tests
